-- ===== src/Client/Timer.antt =====
-- `BlockingTimer::wait` of atat/src/blocking/blocking_timer.rs ends.
use atat.Base.{
  ℕ, zero, suc, ◌≤◌, ◌<◌, ◌≡◌, ap, ◌∙◌, false, leb, le→leb, leb→le, Bool-cases, inl, inr, arith,
}
use atat.Base.Outcome.{Outcome, done}
use atat.Extern.Sync.{Sync, IsSync}
use atat.Client.{unless_reached, timer_wait}
use atat.Client.Surroundings.{Platform, IsPlatform, ticks}

-- With enough fuel, however much, the run is done with `a`.
pub record Ends {A : Type 0} (run : ℕ → Outcome A) (a : A) : Type 0 where
  pub fuel : ℕ
  pub enough : (k : ℕ) → fuel ≤ k → run k ≡ done a

-- Of a run whose first round is known, that round and so many are enough.
pub at_least_one :
    {A : Type 0} (run : ℕ → A) (x : A) (fuel : ℕ)
    → ((k : ℕ) → fuel ≤ k → run (suc k) ≡ x)
    → (k : ℕ) → suc fuel ≤ k
    → run k ≡ x
at_least_one run x fuel h zero le = absurd (omega arith)
at_least_one run x fuel h (suc k) le = h k (omega arith)

module _ (y : Sync) (laws : IsSync y) (p : Platform y) (platform : IsPlatform p) where
  -- The clock is read until it shows `expires_at` or a later instant.
  pub data Passes (expires_at : ℕ) : p.World → p.World → Type 0 where
    reached : {w : p.World} → expires_at ≤ (p.now w).0 → Passes expires_at w (p.now w).1
    early :
        {w v : p.World}
        → (p.now w).0 < expires_at
        → Passes expires_at (p.now w).1 v
        → Passes expires_at w v

  timer_reached :
      (expires_at : ℕ) (w : p.World) (j : ℕ)
      → expires_at ≤ (p.now w).0
      → 0 < j
      → timer_wait y p j expires_at w ≡ done (p.now w).1
  unfolding timer_wait
  timer_reached expires_at w zero h pos = absurd (omega arith)
  timer_reached expires_at w (suc j) h pos =
      ap (λ b. unless_reached b (done (p.now w).1) (timer_wait y p j expires_at (p.now w).1))
        (le→leb expires_at (p.now w).0 h)

  timer_early :
      (expires_at k : ℕ) (w v : p.World) (j : ℕ)
      → leb expires_at (p.now w).0 ≡ false
      → ((i : ℕ) → k < i → timer_wait y p i expires_at (p.now w).1 ≡ done v)
      → suc k < j
      → timer_wait y p j expires_at w ≡ done v
  unfolding timer_wait
  timer_early expires_at k w v zero not_yet later lt = absurd (omega arith)
  timer_early expires_at k w v (suc j) not_yet later lt =
      ap (λ b. unless_reached b (done (p.now w).1) (timer_wait y p j expires_at (p.now w).1))
        not_yet
      ∙ later j (omega arith)

  timer_wait_lem :
      (k expires_at : ℕ) (w : p.World)
      → expires_at ≤ (p.now (ticks p k w)).0
      → (v : p.World) × Passes expires_at w v
        × ((j : ℕ) → k < j → timer_wait y p j expires_at w ≡ done v)
  timer_wait_lem zero expires_at w h =
      ((p.now w).1, reached h, λ j pos. timer_reached expires_at w j h pos)
  timer_wait_lem (suc k) expires_at w h = elim (Bool-cases (leb expires_at (p.now w).0)) [
    | inl now ↦
        let le = leb→le expires_at (p.now w).0 now in
        ((p.now w).1, reached le, λ j pos. timer_reached expires_at w j le (omega arith))
    | inr not_yet ↦
        let (v, passes, e) = timer_wait_lem k expires_at (p.now w).1 h in
        (v, early (ground arith) passes, λ j lt. timer_early expires_at k w v j not_yet e lt)
  ]

  -- On a clock that comes to every instant, `BlockingTimer::wait` returns, at the first look at the
  -- clock that shows the instant at which the timer expires or a later one.
  pub timer_wait-Ends :
      (expires_at : ℕ) (w : p.World)
      → (v : p.World) × Passes expires_at w v × Ends (λ fuel. timer_wait y p fuel expires_at w) v
  timer_wait-Ends expires_at w =
      let (k, h) = platform.now_reaches expires_at w in
      let (v, passes, e) = timer_wait_lem k expires_at w h in
      (v, passes, record { fuel = suc k; enough = λ j le. e j (omega arith) })
