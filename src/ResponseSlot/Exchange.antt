-- ===== src/ResponseSlot/Exchange.antt =====
-- How the two sides of a response slot meet.
use atat.Base.{ℕ, ◌≤◌, ◌≡◌, refl, Bytes, true, false, Result, ok, err, length}
use atat.Base.Outcome.{done, panic}
use atat.Error.{InternalError}
use atat.Extern.Heapless.{Heapless, IsHeapless}
use atat.Extern.Sync.{Sync, IsSync}
use atat.Response.{Response, prompt, result_from}
use atat.Response.Conversion.{payload, result_from-response_from}
use atat.ResponseSlot.{
  ResponseSlot, slot_in_use, guard, get, try_get, store, signal_prompt, signal_response,
}

-- What a slot holds after `r` was signalled, before the client looks.
abbrev pub Delivered : (y : Sync) → Response → ResponseSlot y → Type 0
Delivered y r t = (t.contents ≡ r) × (y.signaled t.flag ≡ true) × (y.locked t.lock ≡ false)

module _ (y : Sync) (laws : IsSync y) where
  store-Delivered :
      (r : Response) (s : ResponseSlot y)
      → y.locked s.lock ≡ false
      → (t : ResponseSlot y) × (store y (done r) s ≡ done t) × Delivered y r t
  unfolding store
  store-Delivered r s free =
      let (l, taken, held) = laws.try_lock_free s.lock free in
      (
        record { lock = y.unlock l; contents = r; flag = y.signal s.flag },
        rw (taken, store) refl,
        (refl, laws.signal_lem s.flag, laws.unlock_lem l),
      )

  -- With a lawful signal and mutex, a prompt is stored in a slot that is neither signalled nor
  -- locked, which is then signalled and unlocked.
  pub signal_prompt-Delivered :
      (c : ℕ) (s : ResponseSlot y)
      → y.signaled s.flag ≡ false
      → y.locked s.lock ≡ false
      → (t : ResponseSlot y) × (signal_prompt y c s ≡ done (t, ok tt)) × Delivered y (prompt c) t
  unfolding signal_prompt
  signal_prompt-Delivered c s quiet free =
      let (t, stored, holds) = store-Delivered (prompt c) s free in
      (t, rw (quiet, stored, signal_prompt) refl, holds)

  -- With a lawful signal and mutex, a result that fits the buffer is stored without a panic in a
  -- slot that is neither signalled nor locked, which is then signalled and unlocked, and what the
  -- client converts back from it is that result.
  pub signal_response-Delivered :
      (h : Heapless) (n : ℕ) (r : Result Bytes InternalError) (s : ResponseSlot y)
      → IsHeapless h
      → length (payload r) ≤ n
      → y.signaled s.flag ≡ false
      → y.locked s.lock ≡ false
      → (t : ResponseSlot y) × (x : Response) × (signal_response y h n r s ≡ done (t, ok tt))
        × Delivered y x t
        × (result_from x ≡ r)
  unfolding signal_response
  signal_response-Delivered h n r s hl fits quiet free =
      let (x, converted, back) = result_from-response_from h hl n r fits in
      let (t, stored, holds) = store-Delivered x s free in
      (t, x, rw (quiet, converted, stored, signal_response) refl, holds, back)

  -- While a response waits in the slot, a prompt and a response are refused with `SlotInUseError`,
  -- and the slot is unchanged.
  pub signal_in_use :
      (h : Heapless) (n c : ℕ) (r : Result Bytes InternalError) (s : ResponseSlot y)
      → y.signaled s.flag ≡ true
      → (signal_prompt y c s ≡ done (s, err slot_in_use))
        × (signal_response y h n r s ≡ done (s, err slot_in_use))
  unfolding signal_prompt signal_response
  signal_in_use h n c r s waiting =
      (rw (waiting, signal_prompt) refl, rw (waiting, signal_response) refl)

  -- With a lawful mutex, `try_get` of a signalled and unlocked slot gives a guard on its contents
  -- and leaves the signal set and the lock held.
  pub try_get-signaled :
      (s : ResponseSlot y)
      → y.signaled s.flag ≡ true
      → y.locked s.lock ≡ false
      → (t : ResponseSlot y) × (try_get y s ≡ done (guard t))
        × (t.contents ≡ s.contents)
        × (y.signaled t.flag ≡ true)
        × (y.locked t.lock ≡ true)
  unfolding try_get
  try_get-signaled s waiting free =
      let (l, taken, held) = laws.try_lock_free s.lock free in
      (record s { lock = l }, rw (waiting, taken, try_get) refl, refl, waiting, held)

  -- With a lawful signal and mutex, `get` of a signalled and unlocked slot gives a guard on its
  -- contents, and while that guard lives, a prompt or a response that arrives makes the ingress
  -- panic.
  pub get-then_signal :
      (h : Heapless) (n c : ℕ) (r : Result Bytes InternalError) (s : ResponseSlot y)
      → y.signaled s.flag ≡ true
      → y.locked s.lock ≡ false
      → (t : ResponseSlot y) × (get y s ≡ done (guard t))
        × (t.contents ≡ s.contents)
        × (signal_prompt y c t ≡ panic)
        × (signal_response y h n r t ≡ panic)
  unfolding get store signal_prompt signal_response
  get-then_signal h n c r s waiting free =
      let (f, awaited, quiet) = laws.wait_ready s.flag waiting in
      let (l, taken, held) = laws.try_lock_free s.lock free in
      let refused = laws.try_lock_held l held in
      (
        record s { lock = l; flag = f },
        rw (awaited, taken, get) refl,
        refl,
        rw (quiet, refused, signal_prompt) refl,
        rw (quiet, refused, signal_response) refl,
      )
