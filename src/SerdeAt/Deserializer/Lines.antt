-- ===== src/SerdeAt/Deserializer/Lines.antt =====
-- Whole answers: a struct that `from_slice` of serde_at/src/de/mod.rs reads, and a sequence of structs, a
-- line for each, which serde_at/src/de/seq.rs hands to the visitor of a vector.
use atat.Base.{
  ◌<◌, ◌≡◌, refl, ap, ◌∙◌, Bool-cases, true, false, inl, inr, List, [], ◌∷◌, ◌++◌, append-nil, ◌==◌,
  ◌&&◌, Bytes, length, ltb, if_true, if_false, none, some, Result, ok, arith,
}
use atat.Extern.Texts.{Texts, IsTexts}
use atat.SerdeAt.De.{DeError, skip_whitespace}
use atat.SerdeAt.Ser.Value.{Value, Fields}
use atat.SerdeAt.Deserializer.{
  Deserializer, Read, ◌>>!◌, at, index, new_deserializer, end_at, end, plus_found, parse_at,
}
use atat.SerdeAt.Deserializer.Seq.{
  SeqAccess, counted, element, element_from, next_element, new_access, deserialize_struct,
}
use atat.SerdeAt.Deserializer.Shape.{Shape, Shapes, read_map, deserialize}
use atat.SerdeAt.Deserializer.Slice.{result_of, from_slice}
use atat.SerdeAt.Deserializer.Listed.{all_shown, IsBehind}
use atat.SerdeAt.Deserializer.Trim.{
  Ends, append-Ends, same-Ends, AreBlank, trim_lem, all_shown-Ends,
}
use atat.SerdeAt.Deserializer.Answer.{
  NoColon, AreSpaces, FirstRead, first_present, answer, answer_read,
}

nothing-IsBehind : IsBehind []
unfolding skip_whitespace
nothing-IsBehind = (tt, inl refl)

pub answer-Ends :
    {x : Texts} (name gap : Bytes) (ss : Shapes) (vs : Fields)
    → FirstRead x ss vs
    → Ends (answer name gap vs [])
answer-Ends name gap ss vs (first_present s ts v ws fine others) =
    append-Ends (b'+' ∷ []) (name ++ (b':' ∷ (gap ++ (all_shown vs ++ [])))) (
      append-Ends name (b':' ∷ (gap ++ (all_shown vs ++ []))) (
        append-Ends (b':' ∷ []) (gap ++ (all_shown vs ++ [])) (
          append-Ends gap (all_shown vs ++ []) (
            same-Ends (all_shown vs ++ []) (all_shown vs) (append-nil (all_shown vs))
              (all_shown-Ends s ts v ws fine others)))))

-- The calls of `next_element` hand out these elements, and then none.
pub data Yields {A : Type 0} (read : Deserializer → Read A)
    : SeqAccess → Deserializer → List A → Deserializer → Type 0 where
  yields_none :
      (a b : SeqAccess) (d e : Deserializer)
      → next_element read a d ≡ (ok (none, b), e)
      → Yields read a d [] e
  yields_some :
      (a b : SeqAccess) (d e f : Deserializer) (v : A) (vs : List A)
      → next_element read a d ≡ (ok (some v, b), e)
      → Yields read b e vs f
      → Yields read a d (v ∷ vs) f

abbrev pub next_line : Bytes → Bytes
next_line [] = []
next_line (c ∷ cs) = b'\r' ∷ b'\n' ∷ c ∷ cs

-- A line for each.
abbrev pub answers : Bytes → Bytes → List Fields → Bytes
answers name gap [] = []
answers name gap (vs ∷ vss) = answer name gap vs (next_line (answers name gap vss))

abbrev pub structs : List Fields → List Value
structs [] = []
structs (vs ∷ vss) = Value.struct vs ∷ structs vss

abbrev pub AreFirstRead : Texts → Shapes → List Fields → Type 0
AreFirstRead x ss [] = Unit
AreFirstRead x ss (vs ∷ vss) = FirstRead x ss vs × AreFirstRead x ss vss

skip-answers :
    (name gap : Bytes) (vss : List Fields)
    → skip_whitespace (next_line (answers name gap vss)) ≡ answers name gap vss
unfolding skip_whitespace
skip-answers name gap [] = refl
skip-answers name gap (vs ∷ vss) = refl

answers-IsBehind :
    (name gap : Bytes) (vss : List Fields) → IsBehind (next_line (answers name gap vss))
unfolding skip_whitespace
answers-IsBehind name gap [] = (tt, inl refl)
answers-IsBehind name gap (vs ∷ vss) =
    (refl, inr (name ++ (b':' ∷ (gap ++ (all_shown vs ++ next_line (answers name gap vss)))), refl))

finished :
    (d : Deserializer)
    → 0 < length d.slice
    → ((index (at [] d) == length d.slice) && ltb 0 (index (at [] d))) ≡ true
finished d filled = ground arith

module _ (x : Texts) (laws : IsTexts x) (name gap : Bytes) (free : NoColon name)
    (spaces : AreSpaces gap) where
  -- With lawful texts, `from_slice` of an answer, its identifier without a colon, whitespace and the
  -- fields with commas between them, with whitespace around it, returns the struct with these
  -- fields. The first field is there, an option that is absent is the empty text between commas, and
  -- those that are absent at the end are left out. The fields are Booleans, plain ASCII characters,
  -- numbers of their types, texts in quotes whose quotes are escaped, units of enums with an
  -- unsigned `repr`, and options and newtypes of these.
  pub from_slice-answer :
      (ss : Shapes) (vs : Fields) (before behind : Bytes)
      → FirstRead x ss vs
      → AreBlank before
      → AreBlank behind
      → from_slice (deserialize x (Shape.struct ss)) (before ++ (answer name gap vs [] ++ behind))
        ≡ ok (Value.struct vs)
  unfolding from_slice skip_whitespace
  from_slice-answer ss vs before behind fine blank blank' =
      let text = answer name gap vs [] in
      let y =
        answer_read x laws name gap free spaces ss vs (new_deserializer text) [] fine refl
          nothing-IsBehind in
      let go : Read Value → Result Value DeError =
        λ r. result_of (r >>! λ value d. end d >>! λ u e. (ok value, e)) in
      ap (λ t. go (deserialize x (Shape.struct ss) (new_deserializer t)))
        (trim_lem before b'+' (name ++ (b':' ∷ (gap ++ (all_shown vs ++ [])))) behind blank blank'
          refl (answer-Ends name gap ss vs fine))
      ∙ ap go y.reads
      ∙ ap
          (λ r.
            result_of
              (end_at r (at r (new_deserializer text)) >>! λ u e. (ok (Value.struct vs), e)))
          y.same

  -- A struct that begins at the end of the slice ends the sequence.
  next-finished :
      (ss : Shapes) (a : SeqAccess) (d : Deserializer) (left : Bytes)
      → skip_whitespace left ≡ []
      → 0 < length d.slice
      → next_element (deserialize x (Shape.struct ss)) a (at left d)
        ≡ (ok (none, counted a), at [] d)
  unfolding next_element deserialize deserialize_struct parse_at plus_found skip_whitespace
  next-finished ss a d left nothing filled =
      let read : Deserializer → Read Value = deserialize x (Shape.struct ss) in
      ap (λ r. element_from read a (at r d) r) nothing
      ∙ ap (λ r. element a (read_map Value.struct r)) (if_true _ _ _ (finished d filled))

  -- A struct that begins with its identifier is handed out.
  next-answer :
      (read : Deserializer → Read Value) (a : SeqAccess) (d e : Deserializer) (left text : Bytes)
      (v : Value)
      → skip_whitespace left ≡ b'+' ∷ text
      → read (at (b'+' ∷ text) d) ≡ (ok v, e)
      → (b : SeqAccess) × (next_element read a (at left d) ≡ (ok (some v, b), e))
  unfolding next_element
  next-answer read a d e left text v same reads =
      let start = ap (λ r. element_from read a (at r d) r) same in
      elim (Bool-cases a.first) [
        | inl first ↦ (
          counted (record a { first = false }),
          start ∙ if_true a.first _ _ first ∙ ap (element (record a { first = false })) reads,
        )
        | inr later ↦ (counted a, start ∙ if_false a.first _ _ later ∙ ap (element a) reads)
      ]

  lines_read :
      (ss : Shapes) (vss : List Fields) (a : SeqAccess) (d : Deserializer) (left : Bytes)
      → AreFirstRead x ss vss
      → skip_whitespace left ≡ answers name gap vss
      → d.is_trailing_parsing ≡ false
      → 0 < length d.slice
      → (f : Deserializer) × Yields (deserialize x (Shape.struct ss)) a (at left d) (structs vss) f
        × (f.rest ≡ [])
  lines_read ss [] a d left fine same line filled = (
    at [] d,
    yields_none a (counted a) (at left d) (at [] d) (next-finished ss a d left same filled),
    refl,
  )
  lines_read ss (vs ∷ vss) a d left (fine, others) same line filled =
      let read : Deserializer → Read Value = deserialize x (Shape.struct ss) in
      let behind = next_line (answers name gap vss) in
      let y =
        answer_read x laws name gap free spaces ss vs d behind fine line
          (answers-IsBehind name gap vss) in
      let e : Deserializer = record d { struct_size_hint = none } in
      let (b, next) = next-answer read a d (at y.left e) left _ (Value.struct vs) same y.reads in
      let (f, rest, ends) =
        lines_read ss vss b e y.left others (y.same ∙ skip-answers name gap vss) line filled in
      (
        f,
        yields_some a b (at left d) (at y.left e) f (Value.struct vs) (structs vss) next rest,
        ends,
      )

  -- With lawful texts, where an answer has a line for each of at least one struct, its identifier
  -- without a colon, whitespace and its fields, the sequence that a vector reads its elements from
  -- hands out these structs in order, and then none, and nothing is left; options may be absent in
  -- every place but the first. The fields are Booleans, plain ASCII characters, numbers of their
  -- types, texts in quotes whose quotes are escaped, units of enums with an unsigned `repr`, and
  -- options and newtypes of these.
  pub next_element-answers :
      (ss : Shapes) (vs : Fields) (vss : List Fields)
      → AreFirstRead x ss (vs ∷ vss)
      → (f : Deserializer) × Yields
          (deserialize x (Shape.struct ss))
          (new_access (new_deserializer (answers name gap (vs ∷ vss))))
          (new_deserializer (answers name gap (vs ∷ vss)))
          (structs (vs ∷ vss))
          f
        × (f.rest ≡ [])
  unfolding skip_whitespace
  next_element-answers ss vs vss fine =
      let d = new_deserializer (answers name gap (vs ∷ vss)) in
      lines_read ss (vs ∷ vss) (new_access d) d (answers name gap (vs ∷ vss)) fine refl refl
        (omega arith)
