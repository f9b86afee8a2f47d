-- ===== src/Ingress/Tests.antt =====
-- Runs of the ingress of atat/src/ingress.rs with a digester that takes one byte at a time.
use atat.Base.{
  ap, take, length-take, ℕ, ◌+◌, ◌≤◌, ◌≡◌, codes, refl, Bool, true, false, Option, some, none, [],
  ◌∷◌, Bytes, length, ok, if◌then◌else◌, ◌==◌, arith,
}
use atat.Base.Outcome.{Outcome, done, out_of_fuel}
use atat.Digest.Parser.{Message}
use atat.Digest.Types.{DigestResult}
use atat.Extern.Heapless
use atat.Extern.PubSub
use atat.Extern.Sync
use atat.Response.{ok_response}
use atat.Ingress.{
  Env, Ingress, new_ingress, try_advance, advance, publish_or_wait, try_write, read_from,
  write_loop,
}
use atat.Ingress.Serial.{Fills, Keeps, read_from-Keeps}
use atat.Ingress.Stuck.{write_loop-IsStuck}
use atat.Ingress.Advance.{IsIdle, try_advance-Drained, advance-Drained}
use atat.Ingress.Handled.{IsEnv, carried}
use atat.Ingress.Reads.{Drained}
use atat.Ingress.Write.{Written, try_write-Written}
use atat.ResponseSlot.{new_slot}

-- `!` is a URC, `>` a prompt, and every other byte a response.
abbrev byte_message : ℕ → Bytes → DigestResult
byte_message b l =
    if b == b'!'
    then DigestResult.urc l
    else if b == b'>'
    then DigestResult.prompt b
    else DigestResult.response (ok l)

abbrev byte_digest : Unit {0} → Bytes → Outcome (Unit {0} × Message)
byte_digest d [] = done (d, (DigestResult.nothing, 0))
byte_digest d (b ∷ bs) = done (d, (byte_message b (b ∷ []), 1))

byte_cases :
    (x y : Bool) (b : ℕ) (l : Bytes)
    → length (
        carried (
          if x
          then DigestResult.urc l
          else if y
          then DigestResult.prompt b
          else DigestResult.response (ok l)))
      ≤ length l
byte_cases true y b l = omega arith
byte_cases false true b l = omega arith
byte_cases false false b l = omega arith

byte_carried : (b : ℕ) (bs : Bytes) → length (carried (byte_message b (b ∷ []))) ≤ length (b ∷ bs)
byte_carried b bs = omega (arith, byte_cases (b == b'!') (b == b'>') b (b ∷ []))

byte_digest_total :
    (d : Unit {0}) (input : Bytes)
    → (d' : Unit {0}) × (m : Message) × (byte_digest d input ≡ done (d', m))
      × (m.1 ≤ length input)
      × (length (carried m.0) ≤ length input)
byte_digest_total d [] = (d, (DigestResult.nothing, 0), refl, omega arith, omega arith)
byte_digest_total d (b ∷ bs) =
    (d, (byte_message b (b ∷ []), 1), refl, omega arith, byte_carried b bs)

-- The channel holds two URCs.
abbrev tiny : Env
tiny = record {
  Digester = Unit {0};
  digest = byte_digest;
  Urc = Bytes;
  parse_urc = some;
  res_buf_size = 8;
  sync = Sync.flags;
  heapless = Heapless.reference;
  pub_sub = PubSub.log 2;
}

tiny-IsEnv : IsEnv tiny
tiny-IsEnv = record {
  sync_laws = Sync.flags-IsSync;
  heapless_laws = Heapless.reference-IsHeapless;
  pub_sub_laws = PubSub.log-IsPubSub 2;
  digest_total = byte_digest_total;
}

abbrev start : Ingress tiny
unfolding new_ingress new_slot
start = new_ingress tiny tt (b'!' ∷ b'x' ∷ b'!' ∷ b'>' ∷ []) (new_slot tiny.sync) []

start-IsIdle : IsIdle tiny start
unfolding start
start-IsIdle = record { in_buf = omega arith; small = omega arith; free = refl }

try_advance-Drained_example :
    Drained tiny tiny.pub_sub.try_publish
      (record start { pos = start.pos + 3 })
      (try_advance tiny 3 start)
unfolding start
try_advance-Drained_example = try_advance-Drained tiny tiny-IsEnv 3 start start-IsIdle (omega arith)

advance-Drained_example :
    (x : Drained tiny
      (publish_or_wait tiny)
      (record start { pos = start.pos + 4 })
      (advance tiny 4 start))
    × (x.status ≡ ok tt)
unfolding start
advance-Drained_example = advance-Drained tiny tiny-IsEnv 4 start start-IsIdle (omega arith)

try_write-Written_example :
    Written tiny (length start.buf) 6 0 (try_write tiny (codes "!>xy!!") start)
unfolding start
try_write-Written_example = try_write-Written tiny tiny-IsEnv (codes "!>xy!!") start start-IsIdle

-- A serial port that gives at most two bytes at a time, and one that fails.
abbrev two_bytes : ℕ → Option Bytes
two_bytes room = some (take room (codes "!>"))

abbrev broken : ℕ → Option Bytes
broken room = none

two_bytes-Fills : Fills two_bytes
two_bytes-Fills room bs got =
    let same : take room (codes "!>") ≡ bs = cc in
    omega (arith, length-take room (codes "!>"), ap length same)

read_from-Keeps_example :
    Keeps tiny tiny-IsEnv start (read_from tiny (two_bytes ∷ broken ∷ two_bytes ∷ []) start)
read_from-Keeps_example =
    read_from-Keeps tiny tiny-IsEnv (two_bytes ∷ broken ∷ two_bytes ∷ []) start
      (two_bytes-Fills, (λ room bs got. absurd cc, (two_bytes-Fills, tt))) start-IsIdle

-- A digester that waits for more.
abbrev waiting : Env
waiting = record {
  Digester = Unit {0};
  digest = λ d input. done (d, (DigestResult.nothing, 0));
  Urc = Bytes;
  parse_urc = some;
  res_buf_size = 8;
  sync = Sync.flags;
  heapless = Heapless.reference;
  pub_sub = PubSub.log 2;
}

abbrev filled : Ingress waiting
filled = record {
  digester = tt;
  buf = codes "+CSQ";
  pos = 4;
  res_slot = record { lock = false; contents = ok_response []; flag = false };
  urc_publisher = [];
}

write_loop-IsStuck_example : write_loop waiting 100 (codes ": 2") filled ≡ out_of_fuel
write_loop-IsStuck_example =
    write_loop-IsStuck waiting 100 b':' (codes " 2") filled
      (record { full = refl; finds_nothing = refl })
