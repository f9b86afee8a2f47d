-- ===== src/Client/Simple/Port.antt =====
-- What `SimpleClient` of atat/src/asynch/simple_client.rs runs on: a digester, a reader and writer of the
-- crate embedded-io-async, and the clock and timeouts of embassy-time.
use atat.Base.{ℕ, ◌≤◌, ◌<◌, ◌≡◌, Bytes, length, Result, ok, err}
use atat.Base.Outcome.{Outcome, done}
use atat.Digest.Parser.{Message}
use atat.Extern.Heapless.{Heapless, IsHeapless}
use atat.Error.{Error}
use atat.Ingress.Handled.{carried}

-- An operation under a timeout.
pub data Awaited : Type 0 where
  finished failed late : Awaited

-- What is written and then flushed, each under a timeout, comes to a result in a world.
pub data Hands {W : Type 0} (write flush : W → Awaited × W) (w : W)
    : Result (Unit {0}) Error → W → Type 0 where
  write_failed : {v : W} → write w ≡ (failed, v) → Hands write flush w (err Error.write) v
  write_late : {v : W} → write w ≡ (late, v) → Hands write flush w (err Error.timeout) v
  flush_failed :
      {v u : W}
      → write w ≡ (finished, v)
      → flush v ≡ (failed, u)
      → Hands write flush w (err Error.write) u
  flush_late :
      {v u : W}
      → write w ≡ (finished, v)
      → flush v ≡ (late, u)
      → Hands write flush w (err Error.timeout) u
  handed :
      {v u : W} → write w ≡ (finished, v) → flush v ≡ (finished, u) → Hands write flush w (ok tt) u

-- A read under a deadline.
pub data Read : Type 0 where
  received : Bytes → Read
  failed late : Read

pub record Line : Type 1 where
  pub Digester : Type 0
  pub digest : Digester → Bytes → Outcome (Digester × Message)
  pub heapless : Heapless
  pub World : Type 0
  pub now : World → ℕ
  pub sleep_until : ℕ → World → World
  pub write_all : ℕ → Bytes → World → Awaited × World
  pub flush : ℕ → World → Awaited × World
  -- The deadline, and the length of the free buffer.
  pub read : ℕ → ℕ → World → Read × World

-- The digester takes no more than its input, and what it finds fits the buffer of a response; a read
-- gives at most as many bytes as there is room for; and only so many reads that give a byte at least
-- come before the deadline.
pub record IsLine (l : Line) : Type 0 where
  pub heapless_laws : IsHeapless l.heapless
  pub digest_total :
      (d : l.Digester) (input : Bytes)
      → (d' : l.Digester) × (m : Message) × (l.digest d input ≡ done (d', m))
        × (m.1 ≤ length input)
        × (length (carried m.0) ≤ length input)
  pub read_fits :
      (deadline room : ℕ) (w v : l.World) (bytes : Bytes)
      → l.read deadline room w ≡ (received bytes, v)
      → length bytes ≤ room
  pub reads_left : ℕ → l.World → ℕ
  pub reads_end :
      (deadline room : ℕ) (w v : l.World) (bytes : Bytes)
      → l.read deadline room w ≡ (received bytes, v)
      → 0 < length bytes
      → reads_left deadline v < reads_left deadline w
