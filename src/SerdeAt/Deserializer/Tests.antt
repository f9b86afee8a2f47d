-- ===== src/SerdeAt/Deserializer/Tests.antt =====
-- The tests of serde_at/src/de/mod.rs, and structs that are read from what is written for them.
use atat.Base.{
  ◌^◌, ◌≡◌, refl, true, false, Option, some, List, [], ◌∷◌, Bytes, codes, Result, ok, err, arith,
}
use atat.Base.Int.{pos, negsuc}
use atat.Extern.Texts.{ascii, ascii-IsTexts}
use atat.SerdeAt.De.{DeError, skip_whitespace, deserialize_unsigned, deserialize_signed}
use atat.SerdeAt.Ser.Text.{decimal_text}
use atat.SerdeAt.Ser.Value.{Value, Fields, no_more, field}
use atat.SerdeAt.Deserializer.{
  at, Deserializer, new_deserializer, parse_at, plus_found, deserialize_bool,
}
use atat.SerdeAt.Deserializer.Seq.{new_access, next_element, deserialize_struct}
use atat.SerdeAt.Deserializer.Shape.{
  Shape, Shapes, no_shapes, shape, Variants, no_variants, variant, VariantFields,
  deserialize_option, deserialize_newtype_struct, deserialize, visit_seq,
}
use atat.SerdeAt.Deserializer.Text.{deserialize_char}
use atat.SerdeAt.Deserializer.Slice.{from_slice}
use atat.SerdeAt.Deserializer.Quoted.{closes}
use atat.SerdeAt.Deserializer.Elements.{
  IsRead, read_bool, read_unsigned, read_signed, read_str, read_option, read_unit,
}
use atat.SerdeAt.Deserializer.Listed.{read_no_more, read_present, read_absent}
use atat.SerdeAt.Deserializer.Answer.{FirstRead, first_present}
use atat.SerdeAt.Deserializer.Lines.{Yields, from_slice-answer, next_element-answers}
use atat.SerdeAt.Deserializer.Heads.{AreHeads, no_heads, present_head, absent_head}
use atat.SerdeAt.Deserializer.Float.{deserialize_float, deserialize_float-text}
use atat.SerdeAt.Deserializer.Ending.{unsigned_required}
use atat.SerdeAt.Deserializer.Message.{from_slice-longer, from_slice-shorter, from_slice-message}

abbrev u8_shape : Shape
u8_shape = Shape.unsigned 3 256

abbrev i16_shape : Shape
i16_shape = Shape.signed 6 32768

abbrev cfg_option : Shape
cfg_option =
    Shape.struct (shape u8_shape (shape i16_shape (shape (Shape.option Shape.bool) no_shapes)))

abbrev option_empty : Shape
option_empty = Shape.struct (
    shape u8_shape (shape i16_shape (shape (Shape.option Shape.bool) (shape Shape.bool no_shapes))))

abbrev from_str : Shape → Bytes → Result Value DeError
from_str s v = from_slice (deserialize ascii s) v

abbrev two : Fields → Fields
two vs = field (Value.unsigned 3 2) (field (Value.signed 6 32768 (pos 56)) vs)

simple_struct :
    from_str cfg_option (codes "+CFG: 2,56,false")
    ≡ ok (Value.struct (two (field (Value.some (Value.bool false)) no_more)))
unfolding from_slice deserialize visit_seq deserialize_struct parse_at plus_found skip_whitespace
    next_element deserialize_unsigned deserialize_signed deserialize_option deserialize_bool
simple_struct = refl

no_option :
    from_str cfg_option (codes "+CFG: 2,56") ≡ ok (Value.struct (two (field Value.none no_more)))
unfolding from_slice deserialize visit_seq deserialize_struct parse_at plus_found skip_whitespace
    next_element deserialize_unsigned deserialize_signed deserialize_option deserialize_bool
no_option = refl

empty_option :
    from_str option_empty (codes "+CFG: 2,56,,true")
    ≡ ok (Value.struct (two (field Value.none (field (Value.bool true) no_more))))
unfolding from_slice deserialize visit_seq deserialize_struct parse_at plus_found skip_whitespace
    next_element deserialize_unsigned deserialize_signed deserialize_option deserialize_bool
empty_option = refl

-- An empty option is not read at the end, or at the beginning.
empty_last : from_str cfg_option (codes "+CFG: 2,56,") ≡ err DeError.eof_while_parsing_value
unfolding from_slice deserialize visit_seq deserialize_struct parse_at plus_found skip_whitespace
    next_element deserialize_unsigned deserialize_signed deserialize_option deserialize_bool
empty_last = refl

empty_first :
    from_str
      (Shape.struct (shape (Shape.option u8_shape) (shape u8_shape no_shapes)))
      (codes "+CFG: ,5")
    ≡ err DeError.eof_while_parsing_value
unfolding from_slice deserialize visit_seq deserialize_struct parse_at plus_found skip_whitespace
    next_element deserialize_unsigned deserialize_signed deserialize_option deserialize_bool
empty_first = refl

spaced_option :
    from_str cfg_option (codes "+CFG: 2,56, true")
    ≡ ok (Value.struct (two (field (Value.some (Value.bool true)) no_more)))
unfolding from_slice deserialize visit_seq deserialize_struct parse_at plus_found skip_whitespace
    next_element deserialize_unsigned deserialize_signed deserialize_option deserialize_bool
spaced_option = refl

u128_test :
    from_str
      (Shape.struct (shape (Shape.unsigned 39 (2 ^ 128)) no_shapes))
      (codes "+CCID: 89883030000005421166")
    ≡ ok (Value.struct (field (Value.unsigned 39 89883030000005421166) no_more))
unfolding from_slice deserialize visit_seq deserialize_struct parse_at plus_found skip_whitespace
    next_element deserialize_unsigned
u128_test = refl

newtype_struct :
    from_str (Shape.newtype_struct (Shape.unsigned 20 (2 ^ 64))) (codes "+CCID: 15")
    ≡ ok (Value.newtype_struct (Value.unsigned 20 15))
unfolding from_slice deserialize deserialize_newtype_struct parse_at plus_found skip_whitespace
    deserialize_unsigned
newtype_struct = refl

char_test :
    from_str (Shape.newtype_struct Shape.char) (codes "+CCID: B")
    ≡ ok (Value.newtype_struct (Value.char (codes "B")))
unfolding from_slice deserialize deserialize_newtype_struct parse_at plus_found skip_whitespace
    deserialize_char
char_test = refl

u8-IsRead : IsRead ascii u8_shape (Value.unsigned 3 7)
u8-IsRead = read_unsigned 3 256 7 (omega arith) (omega arith) (omega arith)

i16-IsRead : IsRead ascii i16_shape (Value.signed 6 32768 (negsuc 4))
i16-IsRead = read_signed 6 32768 (negsuc 4) (omega arith, omega arith, omega arith)

some_true : IsRead ascii (Shape.option Shape.bool) (Value.some (Value.bool true))
some_true = read_option Shape.bool (Value.bool true) (read_bool true)

-- An enum with the variants 0 and 10, and the text `a\"b`.
abbrev status : Variants
status = variant 0 VariantFields.unit (variant 10 VariantFields.unit no_variants)

abbrev quoted : List Bytes
quoted = codes "a" ∷ codes "\\" ∷ codes "\"" ∷ codes "b" ∷ []

abbrev row_shapes : Shapes
row_shapes = shape u8_shape (
    shape (Shape.str 8)
      (shape (Shape.option Shape.bool) (shape (Shape.enumeration 3 256 status) no_shapes)))

abbrev row : Value → Fields
row v =
    field (Value.unsigned 3 7)
      (field (Value.str quoted) (field v (field (Value.unsigned 3 10) no_more)))

status-IsRead : IsRead ascii (Shape.enumeration 3 256 status) (Value.unsigned 3 10)
status-IsRead =
    read_unit 3 256 10 status (omega arith) (omega arith) (omega arith) (omega arith) refl

quoted-IsRead : IsRead ascii (Shape.str 8) (Value.str quoted)
unfolding closes
quoted-IsRead = read_str 8 quoted refl (omega arith) refl

row-FirstRead : FirstRead ascii row_shapes (row Value.none)
row-FirstRead = first_present _ _ _ _ u8-IsRead (
    read_present _ _ _ _ quoted-IsRead
      (read_absent _ _ _ (read_present _ _ _ _ status-IsRead read_no_more)))

full_row-FirstRead : FirstRead ascii row_shapes (row (Value.some (Value.bool true)))
full_row-FirstRead = first_present _ _ _ _ u8-IsRead (
    read_present _ _ _ _ quoted-IsRead
      (read_present _ _ _ _ some_true (read_present _ _ _ _ status-IsRead read_no_more)))

from_slice-answer_example :
    from_slice
      (deserialize ascii (Shape.struct row_shapes))
      (codes "\r\n+ROW: 7,\"a\\\"b\",,10\r\n")
    ≡ ok (Value.struct (row Value.none))
unfolding decimal_text
from_slice-answer_example =
    from_slice-answer ascii ascii-IsTexts (codes "ROW") (codes " ") (refl, (refl, (refl, tt)))
      (refl, tt) row_shapes (row Value.none) (codes "\r\n") (codes "\r\n") row-FirstRead
      (refl, (refl, tt)) (refl, (refl, tt))

abbrev two_rows : Bytes
two_rows = codes "+ROW: 7,\"a\\\"b\",true,10\r\n+ROW: 7,\"a\\\"b\",,10"

next_element-answers_example :
    (f : Deserializer) × Yields
      (deserialize ascii (Shape.struct row_shapes))
      (new_access (new_deserializer two_rows))
      (new_deserializer two_rows)
      (Value.struct (row (Value.some (Value.bool true))) ∷ Value.struct (row Value.none) ∷ [])
      f
    × (f.rest ≡ [])
unfolding decimal_text
next_element-answers_example =
    next_element-answers ascii ascii-IsTexts (codes "ROW") (codes " ") (refl, (refl, (refl, tt)))
      (refl, tt) row_shapes (row (Value.some (Value.bool true))) (row Value.none ∷ [])
      (full_row-FirstRead, (row-FirstRead, tt))

-- A number, an option that is absent, and a number.
abbrev head_shapes : Shapes
head_shapes = shape (Shape.option Shape.bool) (shape i16_shape no_shapes)

abbrev heads : Fields
heads = field Value.none (field (Value.signed 6 32768 (negsuc 4)) no_more)

heads-AreHeads : AreHeads ascii head_shapes heads
heads-AreHeads = absent_head _ _ _ _ _ (present_head _ _ _ _ i16-IsRead no_heads)

from_slice-longer_example :
    from_slice
      (deserialize ascii (Shape.struct (shape u8_shape head_shapes)))
      (codes "+CFG: 7,,-5,true")
    ≡ err DeError.trailing_characters
unfolding decimal_text
from_slice-longer_example =
    from_slice-longer ascii ascii-IsTexts (codes "CFG") (codes " ") (refl, (refl, (refl, tt)))
      (refl, tt) u8_shape head_shapes (Value.unsigned 3 7) heads (codes "true") u8-IsRead
      heads-AreHeads (record { init = codes ",tru"; last = b'e'; parts = refl; seen = refl })

from_slice-shorter_example :
    from_slice
      (deserialize ascii (
        Shape.struct (
          shape u8_shape
            (shape (Shape.option Shape.bool) (shape i16_shape (shape u8_shape no_shapes))))))
      (codes "+CFG: 7,,-5")
    ≡ err DeError.eof_while_parsing_value
unfolding decimal_text
from_slice-shorter_example =
    from_slice-shorter ascii ascii-IsTexts (codes "CFG") (codes " ") (refl, (refl, (refl, tt)))
      (refl, tt) u8_shape u8_shape head_shapes no_shapes (Value.unsigned 3 7) heads u8-IsRead
      heads-AreHeads (unsigned_required 3 256)

-- As `trailing_cmgr_parsing`: the last field has quotes and a comma.
from_slice-message_example :
    from_slice
      (deserialize ascii (
        Shape.struct (
          shape u8_shape
            (shape (Shape.option Shape.bool) (shape i16_shape (shape (Shape.str 256) no_shapes))))))
      (codes "+CMGR: 7,,-5\r\nI,\"\"a")
    ≡ ok (
        Value.struct (
          field (Value.unsigned 3 7) (
            field Value.none (
              field (Value.signed 6 32768 (negsuc 4)) (
                field
                  (Value.str (codes "I" ∷ codes "," ∷ codes "\"" ∷ codes "\"" ∷ codes "a" ∷ []))
                  no_more)))))
unfolding decimal_text
from_slice-message_example =
    from_slice-message ascii ascii-IsTexts (codes "CMGR") (codes " ")
      (refl, (refl, (refl, (refl, tt)))) (refl, tt) u8_shape head_shapes (Value.unsigned 3 7) heads
      256 b'I' (codes ",\"\"a") _ u8-IsRead heads-AreHeads refl
      (record { init = codes "I,\"\""; last = b'a'; parts = refl; seen = refl }) refl (omega arith)

-- A float, where the crate core would read it.
abbrev read_text : Bytes → Option Bytes
read_text s = some s

deserialize_float-text_example :
    (deserialize_float read_text (at (codes "1.5") (new_deserializer (codes "1.5,")))
      ≡ (err DeError.eof_while_parsing_number, at [] (new_deserializer (codes "1.5,"))))
    × (deserialize_float read_text (at (codes "1.5,") (new_deserializer (codes "1.5,")))
        ≡ (ok (codes "1.5"), at (codes ",") (new_deserializer (codes "1.5,"))))
deserialize_float-text_example =
    deserialize_float-text read_text (new_deserializer (codes "1.5,")) b'1' b',' (codes ".5") []
      (refl, (refl, (refl, tt))) refl
