-- ===== src/SerdeAt/Deserializer/Others.antt =====
-- The fields behind the first one, as the derived `visit_seq` takes them out of serde_at/src/de/seq.rs.
use atat.Base.{◌≡◌, refl, sym, ap, ◌∙◌, inl, inr, false, ◌∷◌, ◌++◌, append_assoc, Bytes, Option, ok}
use atat.Extern.Texts.{Texts, IsTexts}
use atat.SerdeAt.De.{skip_whitespace}
use atat.SerdeAt.Ser.Value.{Value, Fields, field}
use atat.SerdeAt.Deserializer.{Deserializer, Read, ◌>>!◌, at}
use atat.SerdeAt.Deserializer.Seq.{SeqAccess, counted, element, next_element}
use atat.SerdeAt.Deserializer.Shape.{
  Shape, Shapes, shape, read_map, with_field, deserialize, visit_seq,
}
use atat.SerdeAt.Deserializer.Elements.{shown, shown-Starts}
use atat.SerdeAt.Deserializer.Reads.{deserialize-shown}
use atat.SerdeAt.Deserializer.Listed.{
  listed, behind_comma, AreRead, read_no_more, read_present, read_absent, IsBehind, present_text,
  listed-cases, listed-NoDigitFirst, next-comma, next-empty, next-behind,
}

module _ (x : Texts) (laws : IsTexts x) where
  -- What the fields behind the first one are read to, and where that leaves the deserializer.
  pub record ListRead (ss : Shapes) (vs : Fields) (a : SeqAccess) (d : Deserializer)
      (text behind : Bytes) : Type 0 where
    pub left : Bytes
    pub reads : visit_seq x ss a (at text d) ≡ (ok vs, at left d)
    pub same : skip_whitespace left ≡ skip_whitespace behind

  skip_again :
      (behind : Bytes)
      → IsBehind behind
      → skip_whitespace (skip_whitespace behind) ≡ skip_whitespace behind
  unfolding skip_whitespace
  skip_again behind (free, inl nothing) = ap skip_whitespace nothing ∙ sym nothing
  skip_again behind (free, inr (more, same)) = ap skip_whitespace same ∙ sym same

  skipped-IsBehind : (behind : Bytes) → IsBehind behind → IsBehind (skip_whitespace behind)
  skipped-IsBehind behind (free, inl nothing) =
      (rw nothing tt, inl (skip_again behind (free, inl nothing) ∙ nothing))
  skipped-IsBehind behind (free, inr (more, same)) =
      (rw same refl, inr (more, skip_again behind (free, inr (more, same)) ∙ same))

  pub list_read :
      (ss : Shapes) (vs : Fields) (a : SeqAccess) (d : Deserializer) (behind : Bytes)
      → AreRead x ss vs
      → a.first ≡ false
      → d.is_trailing_parsing ≡ false
      → IsBehind behind
      → ListRead ss vs a d (listed vs ++ behind) behind
  unfolding visit_seq deserialize
  list_read ss vs a d behind read_no_more first line end = record {
    left = behind;
    reads = refl;
    same = refl;
  }
  list_read ss vs a d behind (read_present s ts v ws fine others) first line end =
      let y = shown-Starts s v fine in
      let rest = listed ws ++ behind in
      let later = list_read ts ws (counted a) d behind others first line end in
      let read : Deserializer → Read Value = λ e. deserialize x s e in
      let go : Read (Option Value × SeqAccess) → Read Fields =
        λ r. r >>! λ found e. with_field e found.0 λ f. visit_seq x ts found.1 f in
      let text : listed (field v ws) ++ behind ≡ b',' ∷ (shown v ++ rest) =
        ap (λ t. t ++ behind) (present_text s v (listed ws) fine)
        ∙ ap (◌∷◌ b',') (append_assoc (shown v) (listed ws) behind) in
      record {
        left = later.left;
        reads =
            ap (λ t. visit_seq x (shape s ts) a (at t d)) text
            ∙ ap go (
                ap (λ u. next_element read a (at (b',' ∷ (u ++ rest)) d)) y.parts
                ∙ next-comma read a d y.head (y.tail ++ rest) y.plain
                ∙ ap (λ u. element a (read (at (u ++ rest) d))) (sym y.parts)
                ∙ ap (element a) (
                    deserialize-shown x laws rest (listed-NoDigitFirst ts ws behind others end.0) s
                      v d fine line))
            ∙ ap (read_map (field v)) later.reads;
        same = later.same;
      }
  list_read ss vs a d behind (read_absent s ts ws others) first line end =
      let read : Deserializer → Read Value = λ e. deserialize x s e in
      let go : Read (Option Value × SeqAccess) → Read Fields =
        λ r. r >>! λ found e. with_field e found.0 λ f. visit_seq x ts found.1 f in
      elim (listed-cases ts ws others) [
        | inl empty ↦
            let next = skip_whitespace behind in
            let later =
              list_read ts ws (counted a) d next others first line (skipped-IsBehind behind end) in
            record {
              left = later.left;
              reads =
                  ap
                    (λ t.
                      visit_seq x (shape (Shape.option s) ts) a
                        (at (behind_comma Value.none t ++ behind) d))
                    empty
                  ∙ ap go (next-behind read a d behind first end)
                  ∙ ap
                      (λ t.
                        read_map (field Value.none) (visit_seq x ts (counted a) (at (t ++ next) d)))
                      (sym empty)
                  ∙ ap (read_map (field Value.none)) later.reads;
              same = later.same ∙ skip_again behind end;
            }
        | inr (more, same) ↦
            let later = list_read ts ws (counted a) d behind others first line end in
            record {
              left = later.left;
              reads =
                  ap
                    (λ t.
                      visit_seq x (shape (Shape.option s) ts) a
                        (at (behind_comma Value.none t ++ behind) d))
                    same
                  ∙ ap go (next-empty read a d (more ++ behind))
                  ∙ ap
                      (λ t.
                        read_map (field Value.none)
                          (visit_seq x ts (counted a) (at (t ++ behind) d)))
                      (sym same)
                  ∙ ap (read_map (field Value.none)) later.reads;
              same = later.same;
            }
      ]
