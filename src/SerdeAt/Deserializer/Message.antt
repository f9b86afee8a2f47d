-- ===== src/SerdeAt/Deserializer/Message.antt =====
-- Answers that are longer or shorter than their struct: serde_at/src/de/mod.rs.
use atat.Base.{
  ℕ, suc, ◌+◌, ◌-◌, ◌≤◌, ◌≡◌, refl, sym, ap, ◌∙◌, ◌⊎◌, inl, inr, true, false, List, [], ◌∷◌, ◌++◌,
  append-nil, ◌==◌, Bytes, length, Option, some, Result, ok, err, arith,
}
use atat.Extern.Texts.{Texts, IsTexts}
use atat.SerdeAt.De.{DeError, skip_whitespace}
use atat.SerdeAt.Ser.Value.{Value, Fields, no_more, field}
use atat.SerdeAt.Numbers.{NoDigitFirst}
use atat.SerdeAt.Deserializer.{Deserializer, Read, ◌>>!◌, at, new_deserializer}
use atat.SerdeAt.Deserializer.Text.{is_alphabetic}
use atat.SerdeAt.Deserializer.Seq.{SeqAccess, element, next_element, without_hint}
use atat.SerdeAt.Deserializer.Shape.{
  Shape, Shapes, no_shapes, shape, count_shapes, read_map, with_field, deserialize, visit_seq,
}
use atat.SerdeAt.Deserializer.Slice.{trim_ascii_whitespace, from_slice}
use atat.SerdeAt.Deserializer.Elements.{IsRead, shown}
use atat.SerdeAt.Deserializer.Trim.{Ends, append-Ends, trim_lem}
use atat.SerdeAt.Deserializer.Answer.{NoColon, AreSpaces, second_access}
use atat.SerdeAt.Deserializer.Heads.{
  separated, AreHeads, join_shapes, join_fields, advanced, answer_heads,
}
use atat.SerdeAt.Deserializer.Ending.{
  heads_answer, IsRequired, required-nothing, heads_answer-Ends, next-nothing, join-no_shapes,
  advanced-count, count-join, letter-IsPlain, next-trailing, trailing_text, finished,
}

module _ (x : Texts) (laws : IsTexts x) (name gap : Bytes) (named : NoColon name)
    (spaces : AreSpaces gap) where
  -- `from_slice` reads the fields, and then the types that are left.
  from_slice-heads :
      (s : Shape) (ss ts : Shapes) (v : Value) (vs : Fields) (behind : Bytes)
      → IsRead x s v
      → AreHeads x ss vs
      → NoDigitFirst behind
      → (behind ≡ []) ⊎ Ends behind
      → from_slice
          (deserialize x (Shape.struct (shape s (join_shapes ss ts))))
          (heads_answer name gap v vs behind)
        ≡ finished (
            read_map Value.struct (
              without_hint (
                read_map (join_fields (field v vs)) (
                  visit_seq x ts
                    (advanced ss (second_access (suc (count_shapes (join_shapes ss ts)))))
                    (at behind (record (new_deserializer (heads_answer name gap v vs behind)) {
                      struct_size_hint = some (suc (count_shapes (join_shapes ss ts)));
                    }))))))
  unfolding from_slice
  from_slice-heads s ss ts v vs behind fine others free rest =
      let text = heads_answer name gap v vs behind in
      let read : Deserializer → Read Value =
        deserialize x (Shape.struct (shape s (join_shapes ss ts))) in
      ap (λ t. finished (read (new_deserializer t)))
        (ap trim_ascii_whitespace (sym (append-nil text))
          ∙ trim_lem [] b'+' (name ++ (b':' ∷ (gap ++ (shown v ++ (separated vs ++ behind))))) [] tt
              tt refl (heads_answer-Ends name gap s ss v vs behind fine others rest))
      ∙ ap finished (
          answer_heads x laws ts behind free name gap s ss v vs (new_deserializer text) named spaces
            fine others refl)

  -- With lawful texts, `from_slice` of an answer with all fields of the struct, the last one there,
  -- a comma and any text that does not end with whitespace fails with `TrailingCharacters`. The
  -- fields are Booleans, plain ASCII characters, numbers of their types, texts in quotes whose
  -- quotes are escaped, units of enums with an unsigned `repr`, and options and newtypes of these.
  -- The first one is there.
  pub from_slice-longer :
      (s : Shape) (ss : Shapes) (v : Value) (vs : Fields) (more : Bytes)
      → IsRead x s v
      → AreHeads x ss vs
      → Ends (b',' ∷ more)
      → from_slice
          (deserialize x (Shape.struct (shape s ss)))
          (heads_answer name gap v vs (b',' ∷ more))
        ≡ err DeError.trailing_characters
  unfolding visit_seq skip_whitespace
  from_slice-longer s ss v vs more fine others ends =
      ap
        (λ ts.
          from_slice (deserialize x (Shape.struct (shape s ts)))
            (heads_answer name gap v vs (b',' ∷ more)))
        (sym (join-no_shapes ss))
      ∙ from_slice-heads s ss no_shapes v vs (b',' ∷ more) fine others refl (inr ends)

  -- With lawful texts, `from_slice` of an answer that ends in front of a field that is a Boolean, a
  -- character, a number, a text, an enum or a newtype of one of these fails with
  -- `EofWhileParsingValue`, whatever fields follow it in the struct. The fields in front of it are
  -- Booleans, plain ASCII characters, numbers of their types, texts in quotes whose quotes are
  -- escaped, units of enums with an unsigned `repr`, and options and newtypes of these. The first
  -- one and the last one of them are there.
  pub from_slice-shorter :
      (s t : Shape) (ss ts : Shapes) (v : Value) (vs : Fields)
      → IsRead x s v
      → AreHeads x ss vs
      → IsRequired t
      → from_slice
          (deserialize x (Shape.struct (shape s (join_shapes ss (shape t ts)))))
          (heads_answer name gap v vs [])
        ≡ err DeError.eof_while_parsing_value
  unfolding visit_seq
  from_slice-shorter s t ss ts v vs fine others required =
      let n = suc (count_shapes (join_shapes ss (shape t ts))) in
      let a = advanced ss (second_access n) in
      let e : Deserializer = record (new_deserializer (heads_answer name gap v vs [])) {
        struct_size_hint = some n;
      } in
      let read : Deserializer → Read Value = λ d. deserialize x t d in
      let go : Read (Option Value × SeqAccess) → Result Value DeError = λ r. finished (
        read_map Value.struct (
          without_hint (
            read_map (join_fields (field v vs))
              (r >>! λ found d. with_field d found.0 λ f. visit_seq x ts found.1 f)))) in
      from_slice-heads s ss (shape t ts) v vs [] fine others tt (inl refl)
      ∙ ap go (next-nothing read a e ∙ ap (element a) (required-nothing x t e required))

  -- With lawful texts, where the last field of a struct with at least two fields is a text, and
  -- stands behind a line break in place of a comma, unquoted, beginning with a letter and ending
  -- with no whitespace, it is read as the whole rest of the answer, with its commas and quotes, if
  -- that is UTF-8 and fits; the field in front of it is there, and so is the first one. The fields
  -- in front of the last one are Booleans, plain ASCII characters, numbers of their types, texts in
  -- quotes whose quotes are escaped, units of enums with an unsigned `repr`, and options and
  -- newtypes of these.
  pub from_slice-message :
      (s : Shape) (ss : Shapes) (v : Value) (vs : Fields) (n c : ℕ) (body : Bytes) (cs : List Bytes)
      → IsRead x s v
      → AreHeads x ss vs
      → is_alphabetic c ≡ true
      → Ends (c ∷ body)
      → x.from_utf8 (c ∷ body) ≡ some cs
      → length (c ∷ body) ≤ n
      → from_slice
          (deserialize x (Shape.struct (shape s (join_shapes ss (shape (Shape.str n) no_shapes)))))
          (heads_answer name gap v vs (b'\r' ∷ b'\n' ∷ c ∷ body))
        ≡ ok (Value.struct (field v (join_fields vs (field (Value.str cs) no_more))))
  unfolding visit_seq deserialize skip_whitespace
  from_slice-message s ss v vs n c body cs fine others letter ends utf8 fits =
      let ts = shape (Shape.str n) no_shapes in
      let text = heads_answer name gap v vs (b'\r' ∷ b'\n' ∷ c ∷ body) in
      let len = suc (count_shapes (join_shapes ss ts)) in
      let e : Deserializer = record (new_deserializer text) { struct_size_hint = some len } in
      let read : Deserializer → Read Value = λ d. deserialize x (Shape.str n) d in
      let a : SeqAccess = record { first = false; count = 1 + count_shapes ss; len = some len } in
      let last : (1 + count_shapes ss == len - 1) ≡ true =
        ground (arith, count-join ss (Shape.str n)) in
      let go : Read (Option Value × SeqAccess) → Result Value DeError = λ r. finished (
        read_map Value.struct (
          without_hint (
            read_map (join_fields (field v vs))
              (r >>! λ found d. with_field d found.0 λ f. visit_seq x no_shapes found.1 f)))) in
      from_slice-heads s ss ts v vs (b'\r' ∷ b'\n' ∷ c ∷ body) fine others refl
        (inr (append-Ends (b'\r' ∷ b'\n' ∷ []) (c ∷ body) ends))
      ∙ ap go (
          ap (λ a. next_element read a (at (b'\r' ∷ b'\n' ∷ c ∷ body) e))
            (advanced-count ss (second_access len))
          ∙ next-trailing read (1 + count_shapes ss) len c body e last (letter-IsPlain c letter)
          ∙ ap (λ r. element a (read_map Value.str r))
              (trailing_text x laws n c body cs e letter utf8 fits))
