-- ===== src/Extern/Sync.antt =====
-- The part of the crate embassy-sync that a response slot uses: `Signal<()>` and the lock of a
-- `Mutex`. (The value that the mutex guards is kept by the slot itself.)
use atat.Base.{arith, ◌≡◌, refl, Bool, true, false, Option, none, some}

pub record Sync : Type 1 where
  pub Signal : Type 0
  pub new_signal : Signal
  pub reset : Signal → Signal
  pub signal : Signal → Signal
  pub signaled : Signal → Bool
  -- One poll of the future `wait()`; `none` while it is pending.
  pub wait : Signal → Option Signal
  pub Lock : Type 0
  pub new_lock : Lock
  pub locked : Lock → Bool
  pub try_lock : Lock → Option Lock
  -- A guard is dropped.
  pub unlock : Lock → Lock

-- The documented behaviour: `reset` clears the signal, `signal` sets it, `wait` completes once it is
-- set and takes the value out, and `try_lock` fails exactly while a guard is alive.
pub record IsSync (y : Sync) : Type 0 where
  pub new_signal_lem : y.signaled y.new_signal ≡ false
  pub reset_lem : (s : y.Signal) → y.signaled (y.reset s) ≡ false
  pub signal_lem : (s : y.Signal) → y.signaled (y.signal s) ≡ true
  pub wait_pending : (s : y.Signal) → y.signaled s ≡ false → y.wait s ≡ none
  pub wait_ready :
      (s : y.Signal)
      → y.signaled s ≡ true
      → (t : y.Signal) × (y.wait s ≡ some t) × (y.signaled t ≡ false)
  pub new_lock_lem : y.locked y.new_lock ≡ false
  pub try_lock_free :
      (l : y.Lock)
      → y.locked l ≡ false
      → (m : y.Lock) × (y.try_lock l ≡ some m) × (y.locked m ≡ true)
  pub try_lock_held : (l : y.Lock) → y.locked l ≡ true → y.try_lock l ≡ none
  pub unlock_lem : (l : y.Lock) → y.locked (y.unlock l) ≡ false

-- Flags behave so.
abbrev flag_take : Bool → Bool → Option Bool
flag_take true after = some after
flag_take false after = none

abbrev flag_lock : Bool → Option Bool
flag_lock true = none
flag_lock false = some true

abbrev pub flags : Sync
flags = record {
  Signal = Bool;
  new_signal = false;
  reset = λ _. false;
  signal = λ _. true;
  signaled = λ s. s;
  wait = λ s. flag_take s false;
  Lock = Bool;
  new_lock = false;
  locked = λ l. l;
  try_lock = flag_lock;
  unlock = λ _. false;
}

flag_take_pending : (s : Bool) → s ≡ false → flag_take s false ≡ none
flag_take_pending s h = ground arith

flag_take_ready : (s : Bool) → s ≡ true → (t : Bool) × (flag_take s false ≡ some t) × (t ≡ false)
flag_take_ready s h = (false, ground arith, refl)

flag_lock_free : (l : Bool) → l ≡ false → (m : Bool) × (flag_lock l ≡ some m) × (m ≡ true)
flag_lock_free l h = (true, ground arith, refl)

flag_lock_held : (l : Bool) → l ≡ true → flag_lock l ≡ none
flag_lock_held l h = ground arith

pub flags-IsSync : IsSync flags
flags-IsSync = record {
  new_signal_lem = refl;
  reset_lem = λ s. refl;
  signal_lem = λ s. refl;
  wait_pending = flag_take_pending;
  wait_ready = flag_take_ready;
  new_lock_lem = refl;
  try_lock_free = flag_lock_free;
  try_lock_held = flag_lock_held;
  unlock_lem = λ l. refl;
}
