-- ===== src/Derive/Resp.antt =====
-- What the derive macros write to read an answer: `AtatCmd::parse` of atat_derive/src/cmd.rs, for a response
-- of atat_derive/src/resp.rs.
use atat.Base.{
  ◌+◌, ◌≡◌, refl, sym, ap, ◌∙◌, Bool, [], ◌∷◌, ◌++◌, append-nil, Bytes, length, Result, ok, err,
}
use atat.Base.Outcome.{done}
use atat.Error.{InternalError, Error, error_from}
use atat.Extern.Heapless.{Heapless}
use atat.Extern.Texts.{Texts, IsTexts}
use atat.Extern.Nom.{Nom, IsNom}
use atat.Extern.Nom.Laws.{Absent}
use atat.Digest.{AtDigester, digest}
use atat.Digest.Echo.{OnlySpaces, NoSpaceFirst}
use atat.Digest.Parser.{crlf}
use atat.Digest.Types.{DigestResult, ParseError}
use atat.Digest.Answers.{ok_line, digest-ok}
use atat.SerdeAt.Ser.Value.{Value, Fields}
use atat.SerdeAt.Deserializer.Shape.{Shape, Shapes, deserialize}
use atat.SerdeAt.Deserializer.Slice.{from_slice}
use atat.SerdeAt.Deserializer.Listed.{all_shown}
use atat.SerdeAt.Deserializer.Trim.{digest-trim_lem}
use atat.SerdeAt.Deserializer.Answer.{NoColon, AreSpaces, FirstRead, answer}
use atat.SerdeAt.Deserializer.Lines.{answer-Ends, from_slice-answer}

module _ (h : Heapless) (custom_messages : Bool) where
  abbrev pub or_parse : {A E : Type 0} → Result A E → Result A Error
  or_parse (ok a) = ok a
  or_parse (err e) = err Error.parse

  -- `parse`, where `#parse` is given.
  unfoldable pub parse_with :
      {A E : Type 0} → (Bytes → Result A E) → Result Bytes InternalError → Result A Error
  parse_with parse (ok resp) = or_parse (parse resp)
  parse_with parse (err e) = err (error_from h custom_messages e)

  -- `parse`, where it is not.
  unfoldable pub derived_parse : Texts → Shape → Result Bytes InternalError → Result Value Error
  unfolding parse_with from_slice
  derived_parse x s res = parse_with (from_slice (deserialize x s)) res

-- The line of an answer, between line ends.
abbrev pub answer_line : Bytes → Bytes → Fields → Bytes
answer_line name gap vs = crlf ++ (answer name gap vs [] ++ crlf)

-- With a lawful `nom` and lawful texts, where a device answers a command with the line of a
-- response, its identifier without a colon, whitespace, and its fields with commas between them, and
-- then the line `OK`, and neither the URC parser nor the custom success parser matches, `digest`
-- returns a slice behind spaces and an echo, and the derived `parse` makes of this slice the struct
-- with these fields: an optional field that is absent is the empty text between commas, and is left
-- out at the end, but the first field is there. The fields are Booleans, plain ASCII characters,
-- numbers of their types, texts in quotes whose quotes are escaped, units of enums with an unsigned
-- `repr`, and options and newtypes of these.
pub derived_parse-digest :
    (n : Nom) (x : Texts) (h : Heapless) (custom_messages se : Bool) (d : AtDigester)
    (spaces e tail rest name gap : Bytes) (ss : Shapes) (vs : Fields)
    → IsNom n
    → IsTexts x
    → NoColon name
    → AreSpaces gap
    → FirstRead x ss vs
    → OnlySpaces spaces
    → NoSpaceFirst e
    → Absent crlf e (crlf ++ tail)
    → crlf ++ tail ≡ answer_line name gap vs ++ (ok_line ++ rest)
    → Absent ok_line (answer_line name gap vs) (ok_line ++ rest)
    → d.urc_parser (crlf ++ tail) ≡ err ParseError.no_match
    → d.custom_success (crlf ++ tail) ≡ err ParseError.no_match
    → (slice : Bytes) × (digest n se d (spaces ++ (e ++ (crlf ++ tail)))
        ≡ done (
          DigestResult.response (ok slice),
          length (answer_line name gap vs) + 6 + (length spaces + length e),
        ))
      × (derived_parse h custom_messages x (Shape.struct ss) (ok slice) ≡ ok (Value.struct vs))
unfolding derived_parse parse_with
derived_parse-digest n x h custom_messages se d spaces e tail rest name gap ss vs nom laws named
      gaps fine only no_space echo split first urc custom =
    (
      answer name gap vs [],
      digest-ok n se d spaces e tail (answer_line name gap vs) rest nom only no_space echo split
            first urc custom
          ∙ ap
              (λ t. done (
                DigestResult.response (ok t),
                length (answer_line name gap vs) + 6 + (length spaces + length e),
              ))
              (digest-trim_lem crlf b'+' (name ++ (b':' ∷ (gap ++ (all_shown vs ++ [])))) crlf
                (refl, (refl, tt)) (refl, (refl, tt)) refl (answer-Ends name gap ss vs fine)),
      ap (or_parse h custom_messages) (
          ap (from_slice (deserialize x (Shape.struct ss)))
            (sym (append-nil (answer name gap vs [])))
          ∙ from_slice-answer x laws name gap named gaps ss vs [] [] fine tt tt),
    )
