-- ===== src/SerdeAt/Deserializer/Answer.antt =====
-- A struct that serde_at/src/de/mod.rs reads from an answer with an identifier, as `+CSQ: 2,99`.
use atat.Base.{
  ℕ, suc, ◌≡◌, refl, sym, ap, ◌∙◌, true, false, [], ◌∷◌, ◌++◌, append_assoc, ◌==◌, ◌&&◌, Bytes,
  length, ltb, if◌then◌else◌, if_true, if_false, Option, none, some, ok, err, arith,
}
use atat.Extern.Texts.{Texts, IsTexts}
use atat.SerdeAt.De.{DeError, is_space, skip_whitespace}
use atat.SerdeAt.Ser.Value.{Value, Fields, field}
use atat.SerdeAt.Numbers.{NoDigitFirst}
use atat.SerdeAt.Deserializer.{
  Deserializer, Read, ◌>>!◌, at, index, peek_in, colon_loop, colon_found, plus_found, parse_at,
}
use atat.SerdeAt.Deserializer.Seq.{
  SeqAccess, element, deserialize_seq, without_hint, deserialize_struct,
}
use atat.SerdeAt.Deserializer.Shape.{
  Shape, Shapes, shape, count_shapes, read_map, with_field, deserialize, visit_seq,
}
use atat.SerdeAt.Deserializer.Elements.{IsPlain, IsRead, shown, shown-Starts}
use atat.SerdeAt.Deserializer.Reads.{skip_plain, deserialize-shown}
use atat.SerdeAt.Deserializer.Listed.{
  listed, all_shown, AreRead, IsBehind, listed-NoDigitFirst, next-first,
}
use atat.SerdeAt.Deserializer.Others.{list_read}

abbrev pub NoColon : Bytes → Type 0
NoColon [] = Unit
NoColon (c ∷ cs) = ((c == b':') ≡ false) × NoColon cs

abbrev pub AreSpaces : Bytes → Type 0
AreSpaces [] = Unit
AreSpaces (c ∷ cs) = (is_space c ≡ true) × AreSpaces cs

-- Fields of the types, of which the first one is there.
pub data FirstRead (x : Texts) : Shapes → Fields → Type 0 where
  first_present :
      (s : Shape) (ss : Shapes) (v : Value) (vs : Fields)
      → IsRead x s v
      → AreRead x ss vs
      → FirstRead x (shape s ss) (field v vs)

-- The answer with what is behind it.
abbrev pub answer : Bytes → Bytes → Fields → Bytes → Bytes
answer name gap vs behind = b'+' ∷ (name ++ (b':' ∷ (gap ++ (all_shown vs ++ behind))))

colon_loop-name :
    (name rest : Bytes) → NoColon name → colon_loop (name ++ (b':' ∷ rest)) ≡ some rest
unfolding colon_loop
colon_loop-name [] rest h = refl
colon_loop-name (c ∷ cs) rest (other, others) =
    if_false (c == b':') _ _ other ∙ colon_loop-name cs rest others

pub skip_gap :
    (gap rest : Bytes) → AreSpaces gap → skip_whitespace (gap ++ rest) ≡ skip_whitespace rest
unfolding skip_whitespace
skip_gap [] rest h = refl
skip_gap (c ∷ cs) rest (space, spaces) = if_true (is_space c) _ _ space ∙ skip_gap cs rest spaces

-- `parse_at` leaves the identifier behind.
parse_at-identifier :
    (name gap : Bytes) (c : ℕ) (cs : Bytes) (d : Deserializer)
    → NoColon name
    → AreSpaces gap
    → IsPlain c
    → parse_at (at (b'+' ∷ (name ++ (b':' ∷ (gap ++ (c ∷ cs))))) d) ≡ (ok true, at (c ∷ cs) d)
unfolding parse_at plus_found colon_loop skip_whitespace
parse_at-identifier name gap c cs d free spaces plain =
    let whole = b'+' ∷ (name ++ (b':' ∷ (gap ++ (c ∷ cs)))) in
    ap (colon_found (at whole d)) (colon_loop-name name (gap ++ (c ∷ cs)) free)
    ∙ ap (λ r. peek_in r (at r d) λ k e. (ok true, e))
        (skip_gap gap (c ∷ cs) spaces ∙ skip_plain c cs plain)

-- There is more to read.
unfinished :
    (d : Deserializer) (c : ℕ) (cs : Bytes)
    → ((index (at (c ∷ cs) d) == length d.slice) && ltb 0 (index (at (c ∷ cs) d))) ≡ false
unfinished d c cs = ground arith

-- The calls of `next_element` behind the first one, which is some element.
abbrev pub second_access : ℕ → SeqAccess
second_access n = record { first = false; count = 1; len = some n }

module _ (x : Texts) (laws : IsTexts x) (name gap : Bytes) (free : NoColon name)
    (spaces : AreSpaces gap) where
  -- The first field is read behind the identifier.
  pub first_read :
      (s : Shape) (ts : Shapes) (v : Value) (d : Deserializer) (rest : Bytes)
      → IsRead x s v
      → NoDigitFirst rest
      → d.is_trailing_parsing ≡ false
      → deserialize x
          (Shape.struct (shape s ts))
          (at (b'+' ∷ (name ++ (b':' ∷ (gap ++ (shown v ++ rest))))) d)
        ≡ read_map Value.struct (
            without_hint (
              read_map (field v) (
                visit_seq x ts
                  (second_access (suc (count_shapes ts)))
                  (at rest (record d { struct_size_hint = some (suc (count_shapes ts)) })))))
  unfolding deserialize visit_seq deserialize_struct
  first_read s ts v d rest fine follows line =
      let y = shown-Starts s v fine in
      let n = count_shapes (shape s ts) in
      let e : Deserializer = record d { struct_size_hint = some n } in
      let a : SeqAccess = record { first = true; count = 0; len = some n } in
      let b : SeqAccess = record a { first = false } in
      let read : Deserializer → Read Value = λ f. deserialize x s f in
      let visit : SeqAccess → Deserializer → Read Fields = λ k f. visit_seq x (shape s ts) k f in
      let go : Read (Option Value × SeqAccess) → Read Fields =
        λ r. r >>! λ found f. with_field f found.0 λ g. visit_seq x ts found.1 g in
      ap
        (λ u.
          deserialize x (Shape.struct (shape s ts))
            (at (b'+' ∷ (name ++ (b':' ∷ (gap ++ (u ++ rest))))) d))
        y.parts
      ∙ ap
          (λ r. read_map Value.struct (
            r >>! λ found f.
            if (index f == length f.slice) && ltb 0 (index f)
            then (err DeError.eof_while_parsing_object, f)
            else without_hint (deserialize_seq visit (record f { struct_size_hint = some n }))))
          (parse_at-identifier name gap y.head (y.tail ++ rest) d free spaces y.plain)
      ∙ ap (read_map Value.struct) (if_false _ _ _ (unfinished d y.head (y.tail ++ rest)))
      ∙ ap (λ r. read_map Value.struct (without_hint (go r)))
          (next-first read a e y.head (y.tail ++ rest) refl y.plain
            ∙ ap (λ u. element b (read (at (u ++ rest) e))) (sym y.parts)
            ∙ ap (element b) (deserialize-shown x laws rest follows s v e fine line))

  -- What a struct is read to from an answer, and where that leaves the deserializer.
  pub record AnswerRead (ss : Shapes) (vs : Fields) (d : Deserializer) (behind : Bytes)
      : Type 0 where
    pub left : Bytes
    pub reads :
        deserialize x (Shape.struct ss) (at (answer name gap vs behind) d)
        ≡ (ok (Value.struct vs), at left (record d { struct_size_hint = none }))
    pub same : skip_whitespace left ≡ skip_whitespace behind

  pub answer_read :
      (ss : Shapes) (vs : Fields) (d : Deserializer) (behind : Bytes)
      → FirstRead x ss vs
      → d.is_trailing_parsing ≡ false
      → IsBehind behind
      → AnswerRead ss vs d behind
  answer_read ss vs d behind (first_present s ts v ws fine others) line end =
      let n = suc (count_shapes ts) in
      let e : Deserializer = record d { struct_size_hint = some n } in
      let later = list_read x laws ts ws (second_access n) e behind others refl line end in
      record {
        left = later.left;
        reads =
            ap
              (λ t.
                deserialize x (Shape.struct (shape s ts))
                  (at (b'+' ∷ (name ++ (b':' ∷ (gap ++ t)))) d))
              (append_assoc (shown v) (listed ws) behind)
            ∙ first_read s ts v d (listed ws ++ behind) fine
                (listed-NoDigitFirst ts ws behind others end.0) line
            ∙ ap (λ r. read_map Value.struct (without_hint (read_map (field v) r))) later.reads;
        same = later.same;
      }
