-- ===== src/Derive/Tests.antt =====
-- A command like the one of the tests in atat/src/derive.rs, in a buffer of its `MAX_LEN`.
use atat.Base.{
  ◌+◌, ◌++◌, ◌<◌, ◌≡◌, ◌⊎◌, refl, some, true, false, List, [], ◌∷◌, Bytes, codes, length, take, ok,
  err, arith,
}
use atat.Base.Outcome.{done}
use atat.Extern.Heapless
use atat.Extern.Texts.{ascii, ascii-IsTexts}
use atat.Extern.Nom.{reference, reference-IsNom}
use atat.Extern.Nom.Spec.{is_prefix}
use atat.Digest.{Recogniser, new_digester, digest}
use atat.Digest.Parser.{crlf}
use atat.Digest.Types.{DigestResult, ParseError}
use atat.SerdeAt.Deserializer.{at, new_deserializer}
use atat.SerdeAt.Deserializer.Shape.{
  Shape, Shapes, no_shapes, shape, Variants, no_variants, variant, VariantFields, deserialize,
}
use atat.SerdeAt.Deserializer.Elements.{read_unsigned, shown}
use atat.SerdeAt.Deserializer.Listed.{read_no_more, read_present, read_absent}
use atat.SerdeAt.Deserializer.Answer.{first_present}
use atat.Derive.Enum.{serialize_enum, try_from, deserialize-serialize_enum}
use atat.Derive.Resp.{derived_parse, derived_parse-digest}
use atat.SerdeAt.Ser.{
  default_options, buffer_full, extend_from_slice, push_if, serialize_unsigned, serialize_str,
  serialize_none,
}
use atat.SerdeAt.Ser.Value.{Value, Fields, no_more, field, to_slice}
use atat.SerdeAt.Ser.Text.{decimal_text}
use atat.SerdeAt.Ser.Command.{with_arguments}
use atat.SerdeAt.Ser.Slice.{to_slice-command_text}
use atat.Derive.Len.{Number, ArgType, ArgFields, plain, with_len, end, next}
use atat.Derive.Len.Fit.{FieldsFit, Fits, plain_fits, len_fits, all_fit, next_fits, is_u8}
use atat.Derive.Cmd.{max_len, write, write-max_len}

abbrev chars : List Bytes
chars = codes "S" ∷ codes "o" ∷ codes "m" ∷ codes "e" ∷ []

-- `x: u8, y: String<8>, z: Option<i64>, #[at_arg(len = 2)] w: u16`
abbrev types : ArgFields
types = next (plain (ArgType.number Number.u8)) (
    next (plain (ArgType.string 8)) (
      next (plain (ArgType.option (ArgType.number Number.i64)))
        (next (with_len 2 (ArgType.number Number.u16)) end)))

abbrev arguments : Fields
arguments =
    field (Value.unsigned 3 8)
      (field (Value.str chars) (field Value.none (field (Value.unsigned 5 2) no_more)))

arguments-FieldsFit : FieldsFit true false types arguments
unfolding decimal_text
arguments-FieldsFit =
    next_fits false _ _ _ _ (plain_fits false _ _ (Fits.number Number.u8 _ (is_u8 8 (omega arith))))
      (next_fits false _ _ _ _ (plain_fits false _ _ (Fits.string 8 chars (omega arith))) (
        next_fits false _ _ _ _ (plain_fits false _ _ (Fits.absent _)) (
          next_fits false _ _ _ _ (len_fits false 2 _ _ (omega arith, omega arith) (omega arith))
            (all_fit false))))

-- As long as `MAX_LEN`.
abbrev room : Bytes
room = codes ".................................................."

max_len_50 : max_len default_options (codes "+CFUN") types ≡ 50
unfolding max_len
max_len_50 = refl

write-max_len_example :
    (left : Bytes) × (write default_options (codes "+CFUN") arguments room ≡ done (20, left))
    × (take 20 left ≡ codes "AT+CFUN=8,\"Some\",2\r\n")
    × (length left ≡ 50)
unfolding decimal_text max_len
write-max_len_example =
    write-max_len default_options (codes "+CFUN") types arguments room arguments-FieldsFit
      (omega arith) (omega arith)

-- The buffer is too short for the command's end.
to_slice-command_text_example :
    ((left : Bytes) × (to_slice
          (Value.struct arguments)
          (codes "+CFUN")
          (codes "..........")
          default_options
        ≡ done (ok (20, left)))
      × (take 20 left ≡ codes "AT+CFUN=8,\"Some\",2\r\n")
      × (length left ≡ 10))
    ⊎ ((to_slice (Value.struct arguments) (codes "+CFUN") (codes "..........") default_options
          ≡ done (err buffer_full))
        × (10 < 21))
unfolding decimal_text
to_slice-command_text_example =
    to_slice-command_text default_options (codes "+CFUN") (Value.struct arguments)
      (codes "..........")
      (with_arguments arguments
        ((omega arith, omega arith), (tt, (tt, ((omega arith, omega arith), tt)))))
      (omega arith)

written :
    to_slice (Value.struct arguments) (codes "+CFUN") room default_options
    ≡ done (ok (20, codes "AT+CFUN=8,\"Some\",2\r\n.............................."))
unfolding to_slice extend_from_slice push_if serialize_unsigned serialize_str serialize_none
written = refl

-- The values 0, 10 and 2.
abbrev status : Variants
status =
    variant 0 VariantFields.unit
      (variant 10 VariantFields.unit (variant 2 VariantFields.unit no_variants))

deserialize-serialize_enum_example :
    (v : Value) × (serialize_enum 3 256 status 1 no_more ≡ some v)
    × (deserialize ascii
          (Shape.enumeration 3 256 status)
          (at (shown v ++ codes ",1") (new_deserializer []))
        ≡ (ok v, at (codes ",1") (new_deserializer [])))
    × (v ≡ Value.unsigned 3 10)
    × (try_from 256 status 10 ≡ some 1)
deserialize-serialize_enum_example =
    deserialize-serialize_enum ascii 3 256 1 10 status no_more (new_deserializer []) (codes ",1")
      ascii-IsTexts (omega arith, (omega arith, (omega arith, tt)))
      ((refl, (refl, tt)), ((refl, tt), (tt, tt))) refl (omega arith) (omega arith) (omega arith)
      refl refl

-- `+CSQ: 2,99` with an option that is not there, behind an echo.
abbrev csq : Shapes
csq =
    shape (Shape.unsigned 3 256)
      (shape (Shape.unsigned 3 256) (shape (Shape.option Shape.bool) no_shapes))

abbrev csq_fields : Fields
csq_fields = field (Value.unsigned 3 2) (field (Value.unsigned 3 99) (field Value.none no_more))

abbrev no_urc : Recogniser Bytes
no_urc input = err ParseError.no_match

derived_parse-digest_example :
    (slice : Bytes) × (digest reference false
        (new_digester no_urc)
        (codes "AT+CSQ\r" ++ (crlf ++ codes "+CSQ: 2,99\r\n\r\nOK\r\n"))
      ≡ done (DigestResult.response (ok slice), 14 + 6 + (0 + 7)))
    × (derived_parse Heapless.reference false ascii (Shape.struct csq) (ok slice)
        ≡ ok (Value.struct csq_fields))
unfolding decimal_text is_prefix new_digester
derived_parse-digest_example =
    derived_parse-digest reference ascii Heapless.reference false false (new_digester no_urc) []
      (codes "AT+CSQ\r") (codes "+CSQ: 2,99\r\n\r\nOK\r\n") [] (codes "CSQ") (codes " ") csq
      csq_fields reference-IsNom ascii-IsTexts (refl, (refl, (refl, tt))) (refl, tt)
      (first_present _ _ _ _ (read_unsigned 3 256 2 (omega arith) (omega arith) (omega arith)) (
        read_present _ _ _ _ (read_unsigned 3 256 99 (omega arith) (omega arith) (omega arith))
          (read_absent Shape.bool _ _ read_no_more)))
      tt (omega arith) (refl, (refl, (refl, (refl, (refl, (refl, (refl, tt))))))) refl
      (
        refl,
        (
          refl,
          (
            refl,
            (
              refl,
              (refl, (refl, (refl, (refl, (refl, (refl, (refl, (refl, (refl, (refl, tt)))))))))),
            ),
          ),
        ),
      )
      refl refl
