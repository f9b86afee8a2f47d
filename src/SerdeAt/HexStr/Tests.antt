-- ===== src/SerdeAt/HexStr/Tests.antt =====
-- Hex strings as in the tests of serde_at/src/de/hex_str.rs.
use atat.Base.{◌≡◌, refl, some, codes, ok, arith}
use atat.Base.{Bytes, true, false, [], ◌∷◌, ◌++◌}
use atat.Base.Outcome.{done}
use atat.Extern.Heapless.{growing, growing-IsGrowing}
use atat.SerdeAt.HexStr.{nibble, visit_hex, skip_0x, nibbles, visit_hex-value}
use atat.SerdeAt.HexStr.Write.{HexStr, hex_string}
use atat.SerdeAt.HexStr.Back.{visit_hex-hex_string}

-- `0xFee-d` in 16 bits.
visit_hex-value_example : visit_hex some 16 (codes "0xFee-d") ≡ ok 65261
unfolding skip_0x nibbles
visit_hex-value_example =
    visit_hex-value some 16 (codes "0xFee-d") (codes "0xFee-d") refl (omega arith)

-- Digits that do not fit are dropped, without an error.
too_long : visit_hex some 8 (codes "18d") ≡ ok 141
unfolding visit_hex
too_long = refl

-- `0x0f-ee` of a `u16`.
abbrev fee : HexStr
fee = record {
  val = 4078;
  add_0x_with_encoding = true;
  hex_in_caps = false;
  delimiter_after_nibble_count = 2;
  delimiter = b'-';
  skip_last_0_values = false;
}

fee_text : hex_string growing 12 18 4 fee ≡ done (codes "0x0f-ee")
unfolding hex_string
fee_text = refl

visit_hex-hex_string_example :
    (s : Bytes) × (hex_string growing 12 18 4 fee ≡ done s)
    × (visit_hex some 16 s ≡ ok 4078)
    × (visit_hex some 16 (b'"' ∷ (s ++ (b'"' ∷ []))) ≡ ok 4078)
unfolding nibble
visit_hex-hex_string_example =
    visit_hex-hex_string growing 12 18 4 fee growing-IsGrowing refl (omega arith) (omega arith)
      (omega arith) (omega arith)
