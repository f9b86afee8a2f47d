-- ===== src/Client/Wait.antt =====
-- The polling loop `with_timeout` of atat/src/blocking/client.rs ends.
use atat.Base.{
  ℕ, zero, suc, ◌≤◌, ◌<◌, ◌≡◌, refl, ap, ◌∙◌, true, false, Option, some, none, leb, le→leb, leb→le,
  Bool-cases, inl, inr, arith,
}
use atat.Base.Outcome.{done}
use atat.Extern.Sync.{Sync, IsSync}
use atat.Response.{Response}
use atat.ResponseSlot.{ResponseSlot, try_get}
use atat.ResponseSlot.Exchange.{try_get-signaled}
use atat.Client.{poll, unless_reached, timeout_loop}
use atat.Client.Surroundings.{Platform, IsPlatform, ticks}
use atat.Client.Timer.{Ends}

module _ (y : Sync) (laws : IsSync y) (p : Platform y) (platform : IsPlatform p) where
  abbrev pub Unlocked : p.World → Type 0
  Unlocked w = y.locked (p.slot w).lock ≡ false

  -- What polling the slot comes to: the first response that is seen, in a world in which it is held
  -- and signalled still, or nothing, when the clock shows the deadline that the round has computed.
  pub data Waits (deadline : p.World → ℕ) : p.World → Option Response × p.World → Type 0 where
    found :
        {w : p.World} {t : ResponseSlot y}
        → y.signaled (p.slot w).flag ≡ true
        → t.contents ≡ (p.slot w).contents
        → y.locked t.lock ≡ true
        → Waits deadline w (some t.contents, p.put_slot t w)
    late :
        {w : p.World}
        → y.signaled (p.slot w).flag ≡ false
        → deadline w ≤ (p.now w).0
        → Waits deadline w (none, (p.now w).1)
    again :
        {w : p.World} {x : Option Response × p.World}
        → y.signaled (p.slot w).flag ≡ false
        → (p.now w).0 < deadline w
        → Waits deadline (p.now w).1 x
        → Waits deadline w x

  poll-quiet : (w : p.World) → y.signaled (p.slot w).flag ≡ false → poll y p w ≡ done none
  unfolding poll try_get
  poll-quiet w quiet = rw (quiet, try_get, poll) refl

  poll-signaled :
      (w : p.World)
      → y.signaled (p.slot w).flag ≡ true
      → Unlocked w
      → (t : ResponseSlot y) × (poll y p w ≡ done (some (t.contents, p.put_slot t w)))
        × (t.contents ≡ (p.slot w).contents)
        × (y.locked t.lock ≡ true)
  unfolding poll
  poll-signaled w waiting free =
      let (t, got, same, set, held) = try_get-signaled y laws (p.slot w) waiting free in
      (t, rw (got, poll) refl, same, held)

  loop_found :
      (deadline : p.World → ℕ) (w : p.World) (j : ℕ) (r : Response) (v : p.World)
      → poll y p w ≡ done (some (r, v))
      → 0 < j
      → timeout_loop y p j deadline w ≡ done (some r, v)
  unfolding timeout_loop
  loop_found deadline w zero r v got pos = absurd (omega arith)
  loop_found deadline w (suc j) r v got pos = rw (got, timeout_loop) refl

  loop_late :
      (deadline : p.World → ℕ) (w : p.World) (j : ℕ)
      → poll y p w ≡ done none
      → deadline w ≤ (p.now w).0
      → 0 < j
      → timeout_loop y p j deadline w ≡ done (none, (p.now w).1)
  unfolding timeout_loop
  loop_late deadline w zero got h pos = absurd (omega arith)
  loop_late deadline w (suc j) got h pos =
      rw (got, timeout_loop)
        (ap
          (λ b.
            unless_reached b (done (none, (p.now w).1)) (timeout_loop y p j deadline (p.now w).1))
          (le→leb (deadline w) (p.now w).0 h))

  loop_again :
      (deadline : p.World → ℕ) (k : ℕ) (w : p.World) (j : ℕ) (x : Option Response × p.World)
      → poll y p w ≡ done none
      → leb (deadline w) (p.now w).0 ≡ false
      → ((i : ℕ) → k < i → timeout_loop y p i deadline (p.now w).1 ≡ done x)
      → suc k < j
      → timeout_loop y p j deadline w ≡ done x
  unfolding timeout_loop
  loop_again deadline k w zero x got not_yet later lt = absurd (omega arith)
  loop_again deadline k w (suc j) x got not_yet later lt =
      rw (got, timeout_loop)
        (ap
            (λ b.
              unless_reached b (done (none, (p.now w).1)) (timeout_loop y p j deadline (p.now w).1))
            not_yet
          ∙ later j (omega arith))

  abbrev Loops : ℕ → (p.World → ℕ) → p.World → Type 0
  Loops k deadline w =
      (x : Option Response × p.World) × Waits deadline w x
      × ((j : ℕ) → k < j → timeout_loop y p j deadline w ≡ done x)

  loop_signaled :
      (k : ℕ) (deadline : p.World → ℕ) (w : p.World)
      → Unlocked w
      → y.signaled (p.slot w).flag ≡ true
      → Loops k deadline w
  loop_signaled k deadline w free waiting =
      let (t, got, same, held) = poll-signaled w waiting free in
      (
        (some t.contents, p.put_slot t w),
        found waiting same held,
        λ j lt. loop_found deadline w j t.contents (p.put_slot t w) got (omega arith),
      )

  loop_deadline :
      (k : ℕ) (deadline : p.World → ℕ) (w : p.World)
      → y.signaled (p.slot w).flag ≡ false
      → deadline w ≤ (p.now w).0
      → Loops k deadline w
  loop_deadline k deadline w quiet h = (
    (none, (p.now w).1),
    late quiet h,
    λ j lt. loop_late deadline w j (poll-quiet w quiet) h (omega arith),
  )

  timeout_loop_lem :
      (k : ℕ) (deadline : p.World → ℕ) (w : p.World)
      → Unlocked w
      → (limit : ℕ) → ((v : p.World) → deadline v ≤ limit)
      → limit ≤ (p.now (ticks p k w)).0
      → Loops k deadline w
  timeout_loop_lem zero deadline w free limit bound h =
      elim (Bool-cases (y.signaled (p.slot w).flag)) [
        | inl waiting ↦ loop_signaled 0 deadline w free waiting
        | inr quiet ↦ loop_deadline 0 deadline w quiet (omega (arith, bound w))
      ]
  timeout_loop_lem (suc k) deadline w free limit bound h =
      elim (Bool-cases (y.signaled (p.slot w).flag)) [
        | inl waiting ↦ loop_signaled (suc k) deadline w free waiting
        | inr quiet ↦ elim (Bool-cases (leb (deadline w) (p.now w).0)) [
          | inl over ↦ loop_deadline (suc k) deadline w quiet (leb→le (deadline w) (p.now w).0 over)
          | inr not_yet ↦
              let (x, waits, e) =
                timeout_loop_lem k deadline (p.now w).1 (platform.now_unlocked w free) limit bound
                  h in
              (
                x,
                again quiet (ground arith) waits,
                λ j lt. loop_again deadline k w j x (poll-quiet w quiet) not_yet e lt,
              )
        ]
      ]

  -- Polling ends, with the first response that is seen, or at the deadline without one, if no round
  -- puts the deadline off further than to the limit.
  pub timeout_loop-Ends :
      (deadline : p.World → ℕ) (limit : ℕ) (w : p.World)
      → ((v : p.World) → deadline v ≤ limit)
      → Unlocked w
      → (x : Option Response × p.World) × Waits deadline w x
        × Ends (λ fuel. timeout_loop y p fuel deadline w) x
  timeout_loop-Ends deadline limit w bound free =
      let (k, h) = platform.now_reaches limit w in
      let (x, waits, e) = timeout_loop_lem k deadline w free limit bound h in
      (x, waits, record { fuel = suc k; enough = λ j le. e j (omega arith) })
