-- ===== src/Client/Surroundings.antt =====
-- What the blocking client of atat/src/blocking/client.rs runs on: the clock of the crate
-- embassy-time, a writer of the crate embedded-io, and the response slot that it shares.
use atat.Base.{ℕ, zero, suc, ◌≤◌, ◌≡◌, Bool, false, Bytes}
use atat.Extern.Sync.{Sync}
use atat.ResponseSlot.{ResponseSlot}

-- The client sees the clock and the slot of a world. While it reads the clock or writes, the ingress
-- may run, so those operations lead to another world.
pub record Platform (y : Sync) : Type 1 where
  pub World : Type 0
  pub slot : World → ResponseSlot y
  pub put_slot : ResponseSlot y → World → World
  -- `Instant::now()`
  pub now : World → ℕ × World
  -- `Write::write_all` and `Write::flush`; `false` is an error.
  pub write_all : Bytes → World → Bool × World
  pub flush : World → Bool × World

-- The world when the clock was read `k` times.
abbrev pub ticks : {y : Sync} (p : Platform y) → ℕ → p.World → p.World
ticks p zero w = w
ticks p (suc k) w = ticks p k (p.now w).1

-- The clock comes to every instant, and the others hold the lock of the slot no longer than they run.
pub record IsPlatform {y : Sync} (p : Platform y) : Type 0 where
  pub now_reaches : (t : ℕ) (w : p.World) → (k : ℕ) × (t ≤ (p.now (ticks p k w)).0)
  pub slot-put_slot : (s : ResponseSlot y) (w : p.World) → p.slot (p.put_slot s w) ≡ s
  pub now_unlocked :
      (w : p.World) → y.locked (p.slot w).lock ≡ false → y.locked (p.slot (p.now w).1).lock ≡ false
  pub write_all_unlocked :
      (bytes : Bytes) (w : p.World)
      → y.locked (p.slot w).lock ≡ false
      → y.locked (p.slot (p.write_all bytes w).1).lock ≡ false
  pub flush_unlocked :
      (w : p.World)
      → y.locked (p.slot w).lock ≡ false
      → y.locked (p.slot (p.flush w).1).lock ≡ false
