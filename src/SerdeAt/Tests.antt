-- ===== src/SerdeAt/Tests.antt =====
-- Numbers and structs as serde_at writes and reads them.
use atat.Extern.Texts.{ascii, ascii-IsTexts}
use atat.SerdeAt.Ser.{SerializeOptions}
use atat.SerdeAt.Ser.Text.{decimal_text}
use atat.SerdeAt.Ser.Value.{Value, no_more, field, to_slice}
use atat.SerdeAt.Deserializer.Shape.{Shape, no_shapes, shape, deserialize}
use atat.SerdeAt.Deserializer.Slice.{from_slice}
use atat.SerdeAt.Deserializer.Elements.{read_unsigned}
use atat.SerdeAt.Deserializer.Listed.{read_no_more, read_absent}
use atat.SerdeAt.Deserializer.Answer.{first_present}
use atat.SerdeAt.RoundTrip.{from_slice-to_slice}
use atat.Base.{ℕ, Bytes, ◌≡◌, refl, ◌++◌, false, true, codes, take, drop, ok, err, arith}
use atat.Base.Outcome.{done}
use atat.SerdeAt.De.{DeError, deserialize_unsigned, deserialize_signed}
use atat.SerdeAt.Signed.{deserialize_signed-serialize_signed}
use atat.Base.Int.{negsuc}
use atat.SerdeAt.Ser.{
  Serializer, serialize_unsigned, serialize_signed, new_serializer, default_options,
}
use atat.SerdeAt.Numbers.{deserialize_unsigned-serialize_unsigned}

abbrev command : Serializer
command = record (new_serializer (codes "AT+USOCR=........") (codes "+USOCR") default_options) {
  written = 9;
  nested_struct = true;
}

deserialize_unsigned-serialize_unsigned_example :
    (t : Serializer) × (serialize_unsigned 5 65535 command ≡ done (ok t))
    × (take 9 t.buf ≡ take 9 command.buf)
    × (deserialize_unsigned 65536 (drop 9 (take t.written t.buf) ++ codes ",1")
        ≡ ok (65535, codes ",1"))
deserialize_unsigned-serialize_unsigned_example =
    deserialize_unsigned-serialize_unsigned 5 65536 65535 command (codes ",1") (omega arith)
      (omega arith) (omega arith) (omega arith) refl

too_large : deserialize_unsigned 256 (codes " 256") ≡ err DeError.invalid_number
unfolding deserialize_unsigned
too_large = refl

deserialize_signed-serialize_signed_example :
    (t : Serializer) × (serialize_signed 4 128 (negsuc 127) command ≡ done (ok t))
    × (take 9 t.buf ≡ take 9 command.buf)
    × (deserialize_signed 128 (drop 9 (take t.written t.buf) ++ codes ",1")
        ≡ ok (negsuc 127, codes ",1"))
deserialize_signed-serialize_signed_example =
    deserialize_signed-serialize_signed 4 128 (negsuc 127) command (codes ",1")
      (omega arith, omega arith, omega arith) (omega arith) refl

-- A response that is written with the options of a response.
abbrev answer_options : SerializeOptions
answer_options = record default_options { value_sep = false; cmd_prefix = codes "+" }

from_slice-to_slice_example :
    (n : ℕ) × (left : Bytes) × (to_slice
        (Value.struct (field (Value.unsigned 3 7) (field Value.none no_more)))
        (codes "CFG:")
        (codes "................")
        answer_options
      ≡ done (ok (n, left)))
    × (from_slice
          (deserialize ascii (
            Shape.struct
              (shape (Shape.unsigned 3 256) (shape (Shape.option Shape.bool) no_shapes))))
          (take n left)
        ≡ ok (Value.struct (field (Value.unsigned 3 7) (field Value.none no_more))))
unfolding decimal_text
from_slice-to_slice_example =
    from_slice-to_slice ascii ascii-IsTexts answer_options (codes "CFG:") (codes "CFG")
      (codes "................") _ _
      (first_present _ _ _ _ (read_unsigned 3 256 7 (omega arith) (omega arith) (omega arith))
        (read_absent Shape.bool _ _ read_no_more))
      tt refl refl refl (refl, (refl, (refl, tt))) (refl, (refl, tt)) (omega arith)
