-- ===== src/Client/Simple/Tests.antt =====
-- `SimpleClient` with the digester of atat/src/digest.rs, on a line that gives one piece of the answer after
-- the other.
use atat.Base.{
  ℕ, zero, suc, ◌≤◌, ◌<◌, ◌≡◌, refl, ap, true, length-take, none, some, List, [], ◌∷◌, Bytes, codes,
  length, take, leb→le, ok, err, arith,
}
use atat.Base.Outcome.{Outcome, done, panic, out_of_fuel}
use atat.Digest.Parser.{Message}
use atat.Digest.Types.{DigestResult}
use atat.Error.{Error}
use atat.Extern.Heapless
use atat.Ingress.Handled.{carried}
use atat.Client.{AtatCmd, new_config}
use atat.Client.Simple.{SimpleClient, wait_response}
use atat.Client.Simple.Port.{Line, IsLine, finished, Read, received}
use atat.Client.Simple.Waits.{Waits, wait_response-Waits}
use atat.Client.Simple.Stuck.{wait_response-IsStuck}
use atat.Client.Simple.TooLong.{wait_response-panic}

-- Two bytes are a response.
abbrev pair_digest : Unit {0} → Bytes → Outcome (Unit {0} × Message)
pair_digest d [] = done (d, (DigestResult.nothing, 0))
pair_digest d (a ∷ []) = done (d, (DigestResult.nothing, 0))
pair_digest d (a ∷ (b ∷ bs)) = done (d, (DigestResult.response (ok (a ∷ b ∷ [])), 2))

pair_digest_total :
    (d : Unit {0}) (input : Bytes)
    → (d' : Unit {0}) × (m : Message) × (pair_digest d input ≡ done (d', m))
      × (m.1 ≤ length input)
      × (length (carried m.0) ≤ length input)
pair_digest_total d [] = (d, (DigestResult.nothing, 0), refl, omega arith, omega arith)
pair_digest_total d (a ∷ []) = (d, (DigestResult.nothing, 0), refl, omega arith, omega arith)
pair_digest_total d (a ∷ (b ∷ bs)) =
    (d, (DigestResult.response (ok (a ∷ b ∷ [])), 2), refl, omega arith, omega arith)

-- The world is the pieces that are to come, behind which the deadline passes.
abbrev read_piece : ℕ → ℕ → List Bytes → Read × List Bytes
read_piece deadline zero w = (received [], w)
read_piece deadline (suc room) [] = (Read.late, [])
read_piece deadline (suc room) (piece ∷ w) = (received (take (suc room) piece), w)

abbrev pieces : Line
pieces = record {
  Digester = Unit {0};
  digest = pair_digest;
  heapless = Heapless.reference;
  World = List Bytes;
  now = λ w. 5;
  sleep_until = λ t w. w;
  write_all = λ duration bytes w. (finished, w);
  flush = λ duration w. (finished, w);
  read = read_piece;
}

read_piece_fits :
    (deadline room : ℕ) (w v : List Bytes) (bytes : Bytes)
    → read_piece deadline room w ≡ (received bytes, v)
    → length bytes ≤ room
read_piece_fits deadline zero w v bytes h = let same : bytes ≡ [] = cc in rw same (omega arith)
read_piece_fits deadline (suc room) [] v bytes h = absurd cc
read_piece_fits deadline (suc room) (piece ∷ w) v bytes h =
    let same : bytes ≡ take (suc room) piece = cc in
    rw same (omega (arith, length-take (suc room) piece))

read_piece_ends :
    (deadline room : ℕ) (w v : List Bytes) (bytes : Bytes)
    → read_piece deadline room w ≡ (received bytes, v)
    → 0 < length bytes
    → length v < length w
read_piece_ends deadline zero w v bytes h given =
    let same : bytes ≡ [] = cc in absurd (omega (arith, ap length same))
read_piece_ends deadline (suc room) [] v bytes h space = absurd cc
read_piece_ends deadline (suc room) (piece ∷ w) v bytes h space =
    let same : v ≡ w = cc in rw same (omega arith)

pieces-IsLine : IsLine pieces
pieces-IsLine = record {
  heapless_laws = Heapless.reference-IsHeapless;
  digest_total = pair_digest_total;
  read_fits = read_piece_fits;
  reads_left = λ deadline w. length w;
  reads_end = read_piece_ends;
}

abbrev start : SimpleClient pieces
start = record {
  digester = tt;
  buf = codes "........";
  pos = 0;
  config = new_config;
  cooldown_timer = some 3;
}

wait_response-Waits_example : Waits pieces 1000 start (codes "O" ∷ codes "KAY" ∷ [])
wait_response-Waits_example =
    wait_response-Waits pieces pieces-IsLine 1000 start (codes "O" ∷ codes "KAY" ∷ []) (omega arith)
      (omega arith)

abbrev at : AtatCmd Bytes
at = record {
  write = λ buf. done (codes "AT\r.....", 3);
  parse = λ r. elim r [ ok bs ↦ ok bs | err e ↦ err Error.parse ];
  expects_response_code = true;
  max_timeout_ms = 1000;
  attempts = 1;
}

abbrev dots : ℕ → Bytes
dots zero = []
dots (suc n) = b'.' ∷ dots n

-- All that waits is a response.
abbrev whole_digest : Unit {0} → Bytes → Outcome (Unit {0} × Message)
whole_digest d input = done (d, (DigestResult.response (ok input), length input))

-- A buffer of 300 bytes, with two that wait.
abbrev wide : SimpleClient (record pieces { digest = whole_digest })
wide = record { digester = tt; buf = dots 300; pos = 2; config = new_config; cooldown_timer = none }

wait_response-panic_example :
    wait_response (record pieces { digest = whole_digest }) 8 1000 (wide, dots 255 ∷ []) ≡ panic
wait_response-panic_example =
    wait_response-panic (record pieces { digest = whole_digest }) Heapless.reference-IsHeapless 7
      1000 wide (dots 255 ∷ []) [] (dots 255) tt (ok (dots 257)) 257 (leb→le 2 300 refl)
      (leb→le 1 255 refl) refl refl (leb→le 257 257 refl)

-- A buffer of one byte.
abbrev tiny : SimpleClient pieces
tiny = record start { buf = codes "x"; pos = 1 }

wait_response-IsStuck_example : wait_response pieces 9 1000 (tiny, []) ≡ out_of_fuel
wait_response-IsStuck_example =
    wait_response-IsStuck pieces 9 1000 tiny [] (λ deadline w. (w, refl))
      (record { full = refl; finds_nothing = refl })
