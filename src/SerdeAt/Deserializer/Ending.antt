-- ===== src/SerdeAt/Deserializer/Ending.antt =====
-- What serde_at/src/de/mod.rs makes of the end of an answer.
use atat.Base.{
  ℕ, ◌+◌, ◌-◌, ◌≤◌, ◌≡◌, refl, sym, ap, ◌∙◌, ◌⊎◌, inl, inr, true, false, List, [], ◌∷◌, ◌++◌,
  append_assoc, ◌==◌, Bytes, length, if_true, if_false, some, Result, ok, err, arith,
}
use atat.Extern.Texts.{Texts, IsTexts}
use atat.SerdeAt.De.{
  DeError, skip_whitespace, deserialize_unsigned, deserialize_signed, number_from,
}
use atat.SerdeAt.Ser.Value.{Value, Fields, field}
use atat.SerdeAt.Deserializer.{
  Deserializer, Read, ◌>>!◌, at, end, parse_at, plus_found, deserialize_bool,
}
use atat.SerdeAt.Deserializer.Text.{
  is_alphabetic, parse_bytes, visited, str_from, deserialize_str, deserialize_char,
}
use atat.SerdeAt.Deserializer.Seq.{SeqAccess, counted, element, element_from, next_element}
use atat.SerdeAt.Deserializer.Shape.{
  Shape, Shapes, no_shapes, shape, Variants, count_shapes, read_map, deserialize_newtype_struct,
  deserialize_enum, deserialize,
}
use atat.SerdeAt.Deserializer.Slice.{result_of}
use atat.SerdeAt.Deserializer.Elements.{IsPlain, IsRead, shown}
use atat.SerdeAt.Deserializer.Reads.{skip_plain, parse_some-plain}
use atat.SerdeAt.Deserializer.Trim.{Ends, append-Ends, same-Ends, joined-Ends, shown-Ends}
use atat.SerdeAt.Deserializer.Heads.{
  separated, AreHeads, no_heads, present_head, absent_head, join_shapes, advanced,
}

-- An answer with its fields and what is behind them.
abbrev pub heads_answer : Bytes → Bytes → Value → Fields → Bytes → Bytes
heads_answer name gap v vs behind =
    b'+' ∷ (name ++ (b':' ∷ (gap ++ (shown v ++ (separated vs ++ behind)))))

-- A type that is not read from nothing.
pub data IsRequired : Shape → Type 0 where
  bool_required : IsRequired Shape.bool
  char_required : IsRequired Shape.char
  unsigned_required : (n bound : ℕ) → IsRequired (Shape.unsigned n bound)
  signed_required : (n half : ℕ) → IsRequired (Shape.signed n half)
  str_required : (n : ℕ) → IsRequired (Shape.str n)
  enumeration_required : (n bound : ℕ) (vs : Variants) → IsRequired (Shape.enumeration n bound vs)
  newtype_required : (s : Shape) → IsRequired s → IsRequired (Shape.newtype_struct s)

pub required-nothing :
    (x : Texts) (s : Shape) (d : Deserializer)
    → IsRequired s
    → deserialize x s (at [] d) ≡ (err DeError.eof_while_parsing_value, at [] d)
unfolding deserialize deserialize_bool deserialize_char deserialize_unsigned number_from
    skip_whitespace deserialize_signed deserialize_str deserialize_enum deserialize_newtype_struct
    parse_at plus_found
required-nothing x s d bool_required = refl
required-nothing x s d char_required = refl
required-nothing x s d (unsigned_required n bound) = refl
required-nothing x s d (signed_required n half) = refl
required-nothing x s d (str_required n) = refl
required-nothing x s d (enumeration_required n bound vs) = refl
required-nothing x s d (newtype_required t h) =
    ap (read_map Value.newtype_struct) (required-nothing x t d h)

separated-Ends :
    {x : Texts} (ss : Shapes) (vs : Fields)
    → AreHeads x ss vs
    → (separated vs ≡ []) ⊎ Ends (separated vs)
separated-Ends ss vs no_heads = inl refl
separated-Ends ss vs (present_head s ts v ws fine others) = inr (
    append-Ends (b',' ∷ []) (shown v ++ separated ws)
      (joined-Ends (shown v) (separated ws) (shown-Ends s v fine) (separated-Ends ts ws others)))
separated-Ends ss vs (absent_head s t ts v ws others) =
    elim (separated-Ends (shape t ts) (field v ws) others) [
      | inl empty ↦ absurd cc
      | inr y ↦ inr (append-Ends (b',' ∷ []) (separated (field v ws)) y)
    ]

pub heads_answer-Ends :
    {x : Texts} (name gap : Bytes) (s : Shape) (ss : Shapes) (v : Value) (vs : Fields)
    (behind : Bytes)
    → IsRead x s v
    → AreHeads x ss vs
    → (behind ≡ []) ⊎ Ends behind
    → Ends (heads_answer name gap v vs behind)
heads_answer-Ends name gap s ss v vs behind fine others rest =
    let fields =
      joined-Ends (shown v ++ separated vs) behind
        (joined-Ends (shown v) (separated vs) (shown-Ends s v fine) (separated-Ends ss vs others))
        rest in
    let tail =
      same-Ends (shown v ++ (separated vs ++ behind)) ((shown v ++ separated vs) ++ behind)
        (sym (append_assoc (shown v) (separated vs) behind)) fields in
    append-Ends (b'+' ∷ []) _
      (append-Ends name _ (append-Ends (b':' ∷ []) _ (append-Ends gap _ tail)))

pub next-nothing :
    (read : Deserializer → Read Value) (a : SeqAccess) (d : Deserializer)
    → next_element read a (at [] d) ≡ element a (read (at [] d))
unfolding next_element skip_whitespace
next-nothing read a d = refl

pub join-no_shapes : (ss : Shapes) → join_shapes ss no_shapes ≡ ss
join-no_shapes no_shapes = refl
join-no_shapes (shape s ss) = ap (shape s) (join-no_shapes ss)

pub advanced-count :
    (ss : Shapes) (a : SeqAccess) → advanced ss a ≡ record a { count = a.count + count_shapes ss }
advanced-count no_shapes a = ap (λ k. record a { count = k }) (omega arith)
advanced-count (shape s ss) a =
    advanced-count ss (counted a) ∙ ap (λ k. record a { count = k }) (omega arith)

pub count-join :
    (ss : Shapes) (s : Shape)
    → count_shapes (join_shapes ss (shape s no_shapes)) ≡ count_shapes ss + 1
count-join no_shapes s = omega arith
count-join (shape t ss) s = omega (arith, count-join ss s)

pub letter-IsPlain : (c : ℕ) → is_alphabetic c ≡ true → IsPlain c
letter-IsPlain c letter = record {
  no_space = ground arith;
  no_plus = ground arith;
  no_comma = ground arith;
}

-- The last field of a struct, without a comma, takes the rest.
pub next-trailing :
    (read : Deserializer → Read Value) (k len c : ℕ) (body : Bytes) (d : Deserializer)
    → (k == len - 1) ≡ true
    → IsPlain c
    → next_element read
        (record { first = false; count = k; len = some len })
        (at (b'\r' ∷ b'\n' ∷ c ∷ body) d)
      ≡ element
          (record { first = false; count = k; len = some len })
          (read (record (at (c ∷ body) d) { is_trailing_parsing = true }))
unfolding next_element skip_whitespace
next-trailing read k len c body d last plain =
    let a : SeqAccess = record { first = false; count = k; len = some len } in
    ap (λ r. element_from read a (at r d) r) (skip_plain c body plain)
    ∙ if_false (c == b',') _ _ plain.no_comma
    ∙ if_false (c == b'+') _ _ plain.no_plus
    ∙ if_true (k == len - 1) _ _ last

pub trailing_text :
    (x : Texts) (laws : IsTexts x) (n c : ℕ) (body : Bytes) (cs : List Bytes) (d : Deserializer)
    → is_alphabetic c ≡ true
    → x.from_utf8 (c ∷ body) ≡ some cs
    → length (c ∷ body) ≤ n
    → deserialize_str x n (record (at (c ∷ body) d) { is_trailing_parsing = true })
      ≡ (ok cs, record (at [] d) { is_trailing_parsing = true })
unfolding deserialize_str str_from parse_bytes
trailing_text x laws n c body cs d letter utf8 fits =
    let e : Deserializer = record d { is_trailing_parsing = true } in
    parse_some-plain c body e (str_from x n) (letter-IsPlain c letter)
    ∙ if_false (c == b'"') _ _ (ground arith)
    ∙ if_true (is_alphabetic c) _ _ letter
    ∙ ap (λ o. (visited o, at [] e)) (laws.visit_bytes-fits n (c ∷ body) cs utf8 fits)

-- What `from_slice` does when the struct is read.
abbrev pub finished : Read Value → Result Value DeError
finished r = result_of (r >>! λ value d. end d >>! λ u e. (ok value, e))
