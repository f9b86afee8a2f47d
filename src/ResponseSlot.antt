-- ===== src/ResponseSlot.antt =====
-- atat/src/response_slot.rs: the slot through which the ingress hands a response to the client, a
-- mutex around the response and a signal.
pub mod Exchange
mod Tests
pub mod Offer
use atat.Base.{ℕ, Bytes, [], Bool, true, false, Option, some, none, Result, ok, err}
use atat.Base.Outcome.{Outcome, done, panic, ◌>>=◌, unwrap}
use atat.Error.{InternalError}
use atat.Extern.Heapless.{Heapless}
use atat.Extern.Sync.{Sync}
use atat.Response.{Response, ok_response, prompt, response_from}

pub data SlotInUseError : Type 0 where
  slot_in_use : SlotInUseError

-- `ResponseSlot<N>`: the lock and the contents of its mutex, and its signal.
pub record ResponseSlot (y : Sync) : Type 0 where
  pub lock : y.Lock
  pub contents : Response
  pub flag : y.Signal

-- What `get` and `try_get` say: nothing yet, or the slot with its lock held by the guard.
pub data Guarded (y : Sync) : Type 0 where
  pending : Guarded y
  guard : ResponseSlot y → Guarded y

module _ (y : Sync) where
  unfoldable pub new_slot : ResponseSlot y
  new_slot = record { lock = y.new_lock; contents = ok_response []; flag = y.new_signal }

  unfoldable pub reset : ResponseSlot y → ResponseSlot y
  reset s = record s { flag = y.reset s.flag }

  abbrev lock_after : ResponseSlot y → Option y.Lock → Outcome (ResponseSlot y)
  lock_after s (some l) = done (record s { lock = l })
  lock_after s none = panic

  abbrev take_lock : ResponseSlot y → Outcome (ResponseSlot y)
  take_lock s = lock_after s (y.try_lock s.lock)

  -- One poll of `get`: the signal is awaited and taken, and the lock is tried.
  unfoldable pub get : ResponseSlot y → Outcome (Guarded y)
  get s = elim (y.wait s.flag) [
    | none ↦ done pending
    | some f ↦ take_lock (record s { flag = f }) >>= λ t. done (guard t)
  ]

  unfoldable pub try_get : ResponseSlot y → Outcome (Guarded y)
  try_get s = elim (y.signaled s.flag) [
    | true ↦ take_lock s >>= λ t. done (guard t)
    | false ↦ done pending
  ]

  -- A guard is dropped.
  unfoldable pub release : ResponseSlot y → ResponseSlot y
  release s = record s { lock = y.unlock s.lock }

  -- The end of both `signal_*`: the lock is taken, the response is made and written, the lock is
  -- let go, and then the signal is set.
  unfoldable pub store : Outcome Response → ResponseSlot y → Outcome (ResponseSlot y)
  store made s = do
    t ← take_lock s
    r ← made
    done (record t { lock = y.unlock t.lock; contents = r; flag = y.signal t.flag })

  abbrev pub Signalled : Type 0
  Signalled = ResponseSlot y × Result (Unit {0}) SlotInUseError

  unfoldable pub signal_prompt : ℕ → ResponseSlot y → Outcome Signalled
  signal_prompt c s = elim (y.signaled s.flag) [
    | true ↦ done (s, err slot_in_use)
    | false ↦ store (done (prompt c)) s >>= λ t. done (t, ok tt)
  ]

  -- The response is copied while the lock is held; a copy that does not fit panics.
  unfoldable pub signal_response :
      Heapless → ℕ → Result Bytes InternalError → ResponseSlot y → Outcome Signalled
  signal_response h n response s = elim (y.signaled s.flag) [
    | true ↦ done (s, err slot_in_use)
    | false ↦ store (response_from h n response) s >>= λ t. done (t, ok tt)
  ]
