-- ===== src/SerdeAt/LengthDelimited/Tests.antt =====
-- The payload of `+QMTRECV` that the documentation in serde_at/src/de/length_delimited.rs shows.
use atat.Base.{ℕ, ◌-◌, ◌≡◌, refl, Option, none, some, [], ◌∷◌, Bytes, codes, ok, arith}
use atat.Base.Outcome.{done, panic}
use atat.Extern.Heapless.{reference, reference-IsHeapless}
use atat.SerdeAt.LengthDelimited.{visit_delimited}
use atat.SerdeAt.LengthDelimited.Payload.{visit_delimited-payload, visit_delimited-panic}

-- A single digit.
abbrev parse_digit : Bytes → Option ℕ
parse_digit (c ∷ []) = some (c - b'0')
parse_digit _ = none

visit_delimited-payload_example :
    (visit_delimited reference 8 parse_digit (codes "4,ABCD,5")
      ≡ done (ok (record { len = 4; bytes = codes "ABCD" })))
    × (visit_delimited reference 8 parse_digit (codes "4,\"ABCD\",5")
        ≡ done (ok (record { len = 4; bytes = codes "ABCD" })))
visit_delimited-payload_example =
    visit_delimited-payload reference reference-IsHeapless 8 parse_digit (codes "4") (codes "ABCD")
      (codes ",5") (refl, tt) refl (omega arith) refl

visit_delimited-panic_example : visit_delimited reference 8 parse_digit (codes "9,ABCD") ≡ panic
visit_delimited-panic_example =
    visit_delimited-panic reference reference-IsHeapless 8 parse_digit (codes "9") (codes "ABCD") 9
      (refl, tt) refl (omega arith)
