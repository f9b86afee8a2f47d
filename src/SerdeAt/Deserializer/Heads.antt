-- ===== src/SerdeAt/Deserializer/Heads.antt =====
-- Structs that begin with fields that are read, whatever is behind them: serde_at/src/de/mod.rs and
-- serde_at/src/de/seq.rs.
use atat.Base.{
  suc, ◌≡◌, refl, sym, ap, ◌∙◌, false, [], ◌∷◌, ◌++◌, append_assoc, Bytes, Option, some, ok, err,
}
use atat.Extern.Texts.{Texts, IsTexts}
use atat.SerdeAt.Ser.Value.{Value, Fields, no_more, field}
use atat.SerdeAt.Numbers.{NoDigitFirst}
use atat.SerdeAt.Deserializer.{Deserializer, Read, ◌>>!◌, at}
use atat.SerdeAt.Deserializer.Seq.{SeqAccess, counted, element, next_element, without_hint}
use atat.SerdeAt.Deserializer.Shape.{
  Shape, Shapes, no_shapes, shape, count_shapes, read_map, with_field, deserialize, visit_seq,
}
use atat.SerdeAt.Deserializer.Elements.{IsRead, shown, shown-Starts}
use atat.SerdeAt.Deserializer.Reads.{deserialize-shown}
use atat.SerdeAt.Deserializer.Listed.{next-comma, next-empty}
use atat.SerdeAt.Deserializer.Answer.{NoColon, AreSpaces, first_read, second_access}

-- Each of the fields behind its comma.
abbrev pub separated : Fields → Bytes
separated no_more = []
separated (field v vs) = b',' ∷ (shown v ++ separated vs)

-- Fields of the types, of which an absent one is not the last one.
pub data AreHeads (x : Texts) : Shapes → Fields → Type 0 where
  no_heads : AreHeads x no_shapes no_more
  present_head :
      (s : Shape) (ss : Shapes) (v : Value) (vs : Fields)
      → IsRead x s v
      → AreHeads x ss vs
      → AreHeads x (shape s ss) (field v vs)
  absent_head :
      (s t : Shape) (ss : Shapes) (v : Value) (vs : Fields)
      → AreHeads x (shape t ss) (field v vs)
      → AreHeads x (shape (Shape.option s) (shape t ss)) (field Value.none (field v vs))

abbrev pub join_shapes : Shapes → Shapes → Shapes
join_shapes no_shapes ts = ts
join_shapes (shape s ss) ts = shape s (join_shapes ss ts)

abbrev pub join_fields : Fields → Fields → Fields
join_fields no_more ws = ws
join_fields (field v vs) ws = field v (join_fields vs ws)

abbrev pub advanced : Shapes → SeqAccess → SeqAccess
advanced no_shapes a = a
advanced (shape s ss) a = advanced ss (counted a)

separated-NoDigitFirst :
    {x : Texts} (ss : Shapes) (vs : Fields) (behind : Bytes)
    → AreHeads x ss vs
    → NoDigitFirst behind
    → NoDigitFirst (separated vs ++ behind)
separated-NoDigitFirst ss vs behind no_heads free = free
separated-NoDigitFirst ss vs behind (present_head s ts v ws fine others) free = refl
separated-NoDigitFirst ss vs behind (absent_head s t ts v ws others) free = refl

read_map-join :
    (v : Value) (vs : Fields) (r : Read Fields)
    → read_map (field v) (read_map (join_fields vs) r) ≡ read_map (join_fields (field v vs)) r
read_map-join v vs (ok ws, d) = refl
read_map-join v vs (err e, d) = refl

read_map-same : (r : Read Fields) → read_map (join_fields no_more) r ≡ r
read_map-same (ok ws, d) = refl
read_map-same (err e, d) = refl

module _ (x : Texts) (laws : IsTexts x) (ts : Shapes) (behind : Bytes)
    (free : NoDigitFirst behind) where
  heads_read :
      (ss : Shapes) (vs : Fields) (a : SeqAccess) (d : Deserializer)
      → AreHeads x ss vs
      → d.is_trailing_parsing ≡ false
      → visit_seq x (join_shapes ss ts) a (at (separated vs ++ behind) d)
        ≡ read_map (join_fields vs) (visit_seq x ts (advanced ss a) (at behind d))
  unfolding visit_seq deserialize
  heads_read ss vs a d no_heads line = sym (read_map-same (visit_seq x ts a (at behind d)))
  heads_read ss vs a d (present_head s rs v ws fine others) line =
      let y = shown-Starts s v fine in
      let rest = separated ws ++ behind in
      let read : Deserializer → Read Value = λ e. deserialize x s e in
      let go : Read (Option Value × SeqAccess) → Read Fields =
        λ r. r >>! λ found e. with_field e found.0 λ f. visit_seq x (join_shapes rs ts) found.1 f in
      ap (λ t. visit_seq x (shape s (join_shapes rs ts)) a (at (b',' ∷ t) d))
        (append_assoc (shown v) (separated ws) behind)
      ∙ ap go (
          ap (λ u. next_element read a (at (b',' ∷ (u ++ rest)) d)) y.parts
          ∙ next-comma read a d y.head (y.tail ++ rest) y.plain
          ∙ ap (λ u. element a (read (at (u ++ rest) d))) (sym y.parts)
          ∙ ap (element a) (
              deserialize-shown x laws rest (separated-NoDigitFirst rs ws behind others free) s v d
                fine line))
      ∙ ap (read_map (field v)) (heads_read rs ws (counted a) d others line)
      ∙ read_map-join v ws _
  heads_read ss vs a d (absent_head s t rs v ws others) line =
      let read : Deserializer → Read Value = λ e. deserialize x s e in
      let more = shape t (join_shapes rs ts) in
      let go : Read (Option Value × SeqAccess) → Read Fields =
        λ r. r >>! λ found e. with_field e found.0 λ f. visit_seq x more found.1 f in
      ap go (next-empty read a d ((shown v ++ separated ws) ++ behind))
      ∙ ap (read_map (field Value.none))
          (heads_read (shape t rs) (field v ws) (counted a) d others line)
      ∙ read_map-join Value.none (field v ws) _

  -- The fields are read from an answer, and then the types that are left from what is behind them.
  pub answer_heads :
      (name gap : Bytes) (s : Shape) (ss : Shapes) (v : Value) (vs : Fields) (d : Deserializer)
      → NoColon name
      → AreSpaces gap
      → IsRead x s v
      → AreHeads x ss vs
      → d.is_trailing_parsing ≡ false
      → deserialize x
          (Shape.struct (shape s (join_shapes ss ts)))
          (at (b'+' ∷ (name ++ (b':' ∷ (gap ++ (shown v ++ (separated vs ++ behind)))))) d)
        ≡ read_map Value.struct (
            without_hint (
              read_map (join_fields (field v vs)) (
                visit_seq x ts
                  (advanced ss (second_access (suc (count_shapes (join_shapes ss ts)))))
                  (at behind (record d {
                    struct_size_hint = some (suc (count_shapes (join_shapes ss ts)));
                  })))))
  answer_heads name gap s ss v vs d named spaces fine others line =
      let n = suc (count_shapes (join_shapes ss ts)) in
      let e : Deserializer = record d { struct_size_hint = some n } in
      let finish : Read Fields → Read Value = λ r. read_map Value.struct (without_hint r) in
      first_read x laws name gap named spaces s (join_shapes ss ts) v d (separated vs ++ behind)
        fine (separated-NoDigitFirst ss vs behind others free) line
      ∙ ap (λ r. finish (read_map (field v) r)) (heads_read ss vs (second_access n) e others line)
      ∙ ap finish
          (read_map-join v vs (visit_seq x ts (advanced ss (second_access n)) (at behind e)))
