-- ===== src/Client/Async/Waits.antt =====
-- The wait of atat/src/asynch/client.rs ends, as long as its deadline is not put off for ever.
use atat.Base.{
  ℕ, zero, suc, ◌+◌, ◌≤◌, ◌<◌, ◌≡◌, ◌⊎◌, refl, ap, ◌∙◌, true, false, Bool-cases, inl, inr, Option,
  none, some, Bytes, leb, leb→le, arith,
}
use atat.Base.Outcome.{Outcome, done, ◌>>=◌}
use atat.Extern.Sync.{Sync, IsSync}
use atat.Response.{Response}
use atat.ResponseSlot.{ResponseSlot, Guarded, pending, guard, get}
use atat.Client.{Config, unless_reached}
use atat.Client.Timer.{Ends, at_least_one}
use atat.Client.Async.{AsyncPlatform, or_wait_on, timeout_loop, wait_response}

-- `select` ends when the slot is signalled or the clock has come to the deadline, and the others hold
-- the lock of the slot no longer than they run.
pub record IsAsyncPlatform {y : Sync} (p : AsyncPlatform y) : Type 0 where
  pub select_ends :
      (expires : ℕ) (w : p.World)
      → (y.signaled (p.slot (p.select expires w)).flag ≡ true)
        ⊎ (expires ≤ p.now (p.select expires w))
  pub select_unlocked :
      (expires : ℕ) (w : p.World)
      → y.locked (p.slot w).lock ≡ false
      → y.locked (p.slot (p.select expires w)).lock ≡ false
  pub slot-put_slot : (s : ResponseSlot y) (w : p.World) → p.slot (p.put_slot s w) ≡ s
  pub sleep_unlocked :
      (expires : ℕ) (w : p.World)
      → y.locked (p.slot w).lock ≡ false
      → y.locked (p.slot (p.sleep_until expires w)).lock ≡ false
  pub write_all_unlocked :
      (duration : ℕ) (bytes : Bytes) (w : p.World)
      → y.locked (p.slot w).lock ≡ false
      → y.locked (p.slot (p.write_all duration bytes w).1).lock ≡ false
  pub flush_unlocked :
      (duration : ℕ) (w : p.World)
      → y.locked (p.slot w).lock ≡ false
      → y.locked (p.slot (p.flush duration w).1).lock ≡ false

-- A run of which so many rounds are enough behind the first one.
behind_round-Ends :
    {A : Type 0} (run : ℕ → Outcome A) (x : A) (fuel : ℕ)
    → ((k : ℕ) → fuel ≤ k → run (suc k) ≡ done x)
    → Ends run x
behind_round-Ends run x fuel h = record {
  fuel = suc fuel;
  enough = at_least_one run (done x) fuel h;
}

module _ (y : Sync) (laws : IsSync y) (p : AsyncPlatform y) (platform : IsAsyncPlatform p) where
  abbrev pub Unlocked : p.World → Type 0
  Unlocked w = y.locked (p.slot w).lock ≡ false

  -- What a wait comes to: the response in the slot once it is signalled; nothing, when the deadline has
  -- come and is not put off; or what the wait for the new deadline comes to.
  pub data Waits (deadline : p.World → ℕ) : ℕ → p.World → Option Response × p.World → Type 0 where
    answered :
        {expires : ℕ} {w : p.World} {t : ResponseSlot y}
        → y.signaled (p.slot (p.select expires w)).flag ≡ true
        → t.contents ≡ (p.slot (p.select expires w)).contents
        → y.locked t.lock ≡ true
        → Waits deadline expires w (some t.contents, p.put_slot t (p.select expires w))
    expired :
        {expires : ℕ} {w : p.World}
        → y.signaled (p.slot (p.select expires w)).flag ≡ false
        → expires ≤ p.now (p.select expires w)
        → deadline (p.select expires w) ≤ expires
        → Waits deadline expires w (none, p.select expires w)
    put_off :
        {expires : ℕ} {w : p.World} {x : Option Response × p.World}
        → y.signaled (p.slot (p.select expires w)).flag ≡ false
        → expires ≤ p.now (p.select expires w)
        → expires < deadline (p.select expires w)
        → Waits deadline (deadline (p.select expires w)) (p.select expires w) x
        → Waits deadline expires w x

  get-quiet : (s : ResponseSlot y) → y.signaled s.flag ≡ false → get y s ≡ done pending
  unfolding get
  get-quiet s quiet = rw (laws.wait_pending s.flag quiet, get) refl

  get-signaled :
      (s : ResponseSlot y)
      → y.signaled s.flag ≡ true
      → y.locked s.lock ≡ false
      → (t : ResponseSlot y) × (get y s ≡ done (guard t))
        × (t.contents ≡ s.contents)
        × (y.locked t.lock ≡ true)
  unfolding get
  get-signaled s waiting free =
      let (f, awaited, quiet) = laws.wait_ready s.flag waiting in
      let (m, taken, held) = laws.try_lock_free s.lock free in
      (record s { lock = m; flag = f }, rw (awaited, taken, get) refl, refl, held)

  module _ (deadline : p.World → ℕ) (limit : ℕ) (bounded : (v : p.World) → deadline v ≤ limit) where
    abbrev Loops : ℕ → p.World → Type 0
    Loops expires w =
        (x : Option Response × p.World) × Waits deadline expires w x
        × Ends (λ fuel. timeout_loop y p fuel deadline expires w) x

    round_lem :
        (expires : ℕ) (w : p.World) (k : ℕ) (g : Guarded y)
        → get y (p.slot (p.select expires w)) ≡ done g
        → timeout_loop y p (suc k) deadline expires w
          ≡ or_wait_on y p (p.select expires w) g (
              unless_reached
                (leb (deadline (p.select expires w)) expires)
                (done (none, p.select expires w))
                (timeout_loop y p k deadline (deadline (p.select expires w)) (p.select expires w)))
    unfolding timeout_loop
    round_lem expires w k g e =
        ap
          (λ r. r >>= λ h. or_wait_on y p (p.select expires w) h (
            unless_reached (leb (deadline (p.select expires w)) expires)
              (done (none, p.select expires w))
              (timeout_loop y p k deadline (deadline (p.select expires w)) (p.select expires w))))
          e

    signaled-Loops :
        (expires : ℕ) (w : p.World)
        → Unlocked w
        → y.signaled (p.slot (p.select expires w)).flag ≡ true
        → Loops expires w
    signaled-Loops expires w free waiting =
        let v = p.select expires w in
        let (t, got, same, held) =
          get-signaled (p.slot v) waiting (platform.select_unlocked expires w free) in
        (
          (some t.contents, p.put_slot t v),
          answered waiting same held,
          behind_round-Ends _ _ 0 λ k le. round_lem expires w k (guard t) got,
        )

    quiet-Loops :
        (expires : ℕ) (w : p.World)
        → y.signaled (p.slot (p.select expires w)).flag ≡ false
        → expires ≤ p.now (p.select expires w)
        → (expires < deadline (p.select expires w)
            → Loops (deadline (p.select expires w)) (p.select expires w))
        → Loops expires w
    quiet-Loops expires w quiet over later =
        let v = p.select expires w in
        let new = deadline v in
        let got = get-quiet (p.slot v) quiet in
        elim (Bool-cases (leb new expires)) [
          | inl final ↦ (
            (none, v),
            expired quiet over (leb→le new expires final),
            behind_round-Ends _ _ 0 λ k le.
                round_lem expires w k pending got
                ∙ ap (λ b. unless_reached b (done (none, v)) (timeout_loop y p k deadline new v))
                    final,
          )
          | inr further ↦
              let (x, waits, ends) = later (ground arith) in
              (
                x,
                put_off quiet over (ground arith) waits,
                behind_round-Ends _ _ ends.fuel λ k le.
                    round_lem expires w k pending got
                    ∙ ap
                        (λ b. unless_reached b (done (none, v)) (timeout_loop y p k deadline new v))
                        further
                    ∙ ends.enough k le,
              )
        ]

    select_cases :
        (expires : ℕ) (w : p.World)
        → Unlocked w
        → (expires < deadline (p.select expires w)
            → Loops (deadline (p.select expires w)) (p.select expires w))
        → Loops expires w
    select_cases expires w free later =
        elim (Bool-cases (y.signaled (p.slot (p.select expires w)).flag)) [
          | inl waiting ↦ signaled-Loops expires w free waiting
          | inr quiet ↦ elim (platform.select_ends expires w) [
            | inl waiting ↦ absurd cc
            | inr over ↦ quiet-Loops expires w quiet over later
          ]
        ]

    waits_from : (n expires : ℕ) (w : p.World) → Unlocked w → limit < expires + n → Loops expires w
    waits_from zero expires w free bound =
        select_cases expires w free λ lt. absurd (omega (arith, bounded (p.select expires w)))
    waits_from (suc n) expires w free bound = select_cases expires w free λ lt.
        waits_from n (deadline (p.select expires w)) (p.select expires w)
          (platform.select_unlocked expires w free) (omega arith)

  -- The wait for a response ends, with enough fuel, if its deadline is put off to an instant at most.
  pub wait_response-Ends :
      (timeout : ℕ) (config : Config p.World) (limit : ℕ) (w : p.World)
      → ((v : p.World) → config.get_response_timeout (p.now w) timeout v ≤ limit)
      → Unlocked w
      → (x : Option Response × p.World) × Waits
          (config.get_response_timeout (p.now w) timeout)
          (config.get_response_timeout (p.now w) timeout w)
          w
          x
        × Ends (λ fuel. wait_response y p fuel timeout config w) x
  unfolding wait_response
  wait_response-Ends timeout config limit w bounded free =
      waits_from (config.get_response_timeout (p.now w) timeout) limit bounded (suc limit)
        (config.get_response_timeout (p.now w) timeout w) w free (omega arith)
