-- ===== src/Client/AsyncRetry.antt =====
-- `send_retry` of atat/src/asynch/mod.rs, on any `send`, where a parse error may be reason to repeat.
use atat.Base.{
  ℕ, zero, suc, ◌<◌, ◌≡◌, ◌≢◌, ◌⊎◌, ◌∙◌, inl, inr, refl, Bool, true, false, Result, ok, err, arith,
}
use atat.Base.Outcome.{Outcome, done, ◌>>=◌}
use atat.Error.{Error}

-- The results that are reason to send again.
abbrev pub Repeats : {R : Type 0} → Bool → Result R Error → Type 0
Repeats again r = (r ≡ err Error.timeout) ⊎ ((again ≡ true) × (r ≡ err Error.parse))

module _ {S R : Type 0} (reattempt_on_parse_err : Bool) where
  -- The `match` in the loop.
  abbrev pub unless_repeated :
      S → Result R Error → Outcome (S × Result R Error) → Outcome (S × Result R Error)
  unless_repeated t (err Error.timeout) rest = rest
  unless_repeated t (err Error.parse) rest = elim reattempt_on_parse_err [
    | true ↦ rest
    | false ↦ done (t, err Error.parse)
  ]
  unless_repeated t r rest = done (t, r)

  -- The loop `for attempt in 1..=Cmd::ATTEMPTS`; the number is that of the attempts left.
  unfoldable pub async_send_retry :
      (S → Outcome (S × Result R Error)) → ℕ → S → Outcome (S × Result R Error)
  async_send_retry send zero s = done (s, err Error.timeout)
  async_send_retry send (suc attempts) s =
      send s >>= λ (t, r). let rest = async_send_retry send attempts t in unless_repeated t r rest

  -- That many attempts end so, one behind the other.
  pub data Fails (send : S → Outcome (S × Result R Error)) : ℕ → S → S → Type 0 where
    no_more : {s : S} → Fails send 0 s s
    once_more :
        {k : ℕ} {s t u : S} {r : Result R Error}
        → send s ≡ done (t, r)
        → Repeats reattempt_on_parse_err r
        → Fails send k t u
        → Fails send (suc k) s u

  repeated :
      (t : S) (r : Result R Error) (rest : Outcome (S × Result R Error))
      → Repeats reattempt_on_parse_err r
      → unless_repeated t r rest ≡ rest
  repeated t r rest (inl late) = rw late refl
  repeated t r rest (inr (again, garbled)) = rw garbled (rw again refl)

  parse_returned :
      (b : Bool) (t : S) (rest : Outcome (S × Result R Error))
      → b ≢ true
      → elim b as (λ _. Outcome (S × Result R Error)) [
        | true ↦ rest
        | false ↦ done (t, err Error.parse)
      ]
        ≡ done (t, err Error.parse)
  parse_returned true t rest ne = absurd (ne refl)
  parse_returned false t rest ne = refl

  returned :
      (t : S) (r : Result R Error) (rest : Outcome (S × Result R Error))
      → ¬ Repeats reattempt_on_parse_err r
      → unless_repeated t r rest ≡ done (t, r)
  returned t (err Error.timeout) rest ne = absurd (ne (inl refl))
  returned t (err Error.parse) rest ne =
      parse_returned reattempt_on_parse_err t rest (λ h. ne (inr (h, refl)))
  returned t (err _) rest ne = refl
  returned t (ok r) rest ne = refl

  -- Where the first attempts of the async `send_retry` time out, or return `Parse` and the command
  -- is to be repeated then, and the next one within the number of attempts returns anything else,
  -- that result is returned and nothing more is sent.
  pub async_send_retry-first :
      (send : S → Outcome (S × Result R Error)) (attempts k : ℕ) (s t u : S) (r : Result R Error)
      → k < attempts
      → Fails send k s t
      → send t ≡ done (u, r)
      → ¬ Repeats reattempt_on_parse_err r
      → async_send_retry send attempts s ≡ done (u, r)
  unfolding async_send_retry
  async_send_retry-first send zero k s t u r lt to e ne = absurd (omega arith)
  async_send_retry-first send (suc n) zero s t u r lt no_more e ne =
      rw (e, async_send_retry) (returned u r _ ne)
  async_send_retry-first send (suc n) (suc k) s t u r lt (once_more {t = v} {r = q} h again to) e
        ne =
      rw (h, async_send_retry) (repeated v q _ again)
      ∙ async_send_retry-first send n k v t u r (omega arith) to e ne

  -- Where as many attempts as there may be time out, or return `Parse` and the command is to be
  -- repeated then, the async `send_retry` returns `Timeout`, also where the last of them returned
  -- `Parse`.
  pub async_send_retry-Fails :
      (send : S → Outcome (S × Result R Error)) (attempts : ℕ) (s t : S)
      → Fails send attempts s t
      → async_send_retry send attempts s ≡ done (t, err Error.timeout)
  unfolding async_send_retry
  async_send_retry-Fails send zero s t no_more = refl
  async_send_retry-Fails send (suc n) s t (once_more {t = v} {r = q} h again to) =
      rw (h, async_send_retry) (repeated v q _ again) ∙ async_send_retry-Fails send n v t to
