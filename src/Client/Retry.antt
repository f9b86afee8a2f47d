-- ===== src/Client/Retry.antt =====
-- `send_retry` of atat/src/blocking/mod.rs, on any `send`.
use atat.Base.{ℕ, zero, suc, ◌≡◌, refl, Result, err}
use atat.Base.Outcome.{Outcome, done, ◌>>=◌}
use atat.Error.{Error}

module _ {S R : Type 0} where
  -- The `match` in the loop.
  abbrev pub unless_timeout :
      S → Result R Error → Outcome (S × Result R Error) → Outcome (S × Result R Error)
  unless_timeout t (err Error.timeout) rest = rest
  unless_timeout t r rest = done (t, r)

  -- The loop `for attempt in 1..=A::ATTEMPTS`; the number is that of the attempts left.
  unfoldable pub send_retry :
      (S → Outcome (S × Result R Error)) → ℕ → S → Outcome (S × Result R Error)
  send_retry send zero s = done (s, err Error.timeout)
  send_retry send (suc attempts) s =
      send s >>= λ (t, r). let rest = send_retry send attempts t in unless_timeout t r rest

  -- That many attempts time out, one behind the other.
  pub data TimesOut (send : S → Outcome (S × Result R Error)) : ℕ → S → S → Type 0 where
    no_more : {s : S} → TimesOut send 0 s s
    once_more :
        {k : ℕ} {s t u : S}
        → send s ≡ done (t, err Error.timeout)
        → TimesOut send k t u
        → TimesOut send (suc k) s u

  -- Where as many attempts as there may be time out, the blocking `send_retry` returns `Timeout`,
  -- behind the last of them.
  pub send_retry-TimesOut :
      (send : S → Outcome (S × Result R Error)) (attempts : ℕ) (s t : S)
      → TimesOut send attempts s t
      → send_retry send attempts s ≡ done (t, err Error.timeout)
  unfolding send_retry
  send_retry-TimesOut send zero s t no_more = refl
  send_retry-TimesOut send (suc n) s t (once_more h to) =
      rw (h, send_retry) (send_retry-TimesOut send n _ t to)
