-- ===== src/SerdeAt/Deserializer/Reads.antt =====
-- That serde_at/src/de/mod.rs reads the text of an element to the element.
use atat.Base.{
  ℕ, ◌^◌, ◌≤◌, ◌<◌, ◌≡◌, refl, sym, ap, ◌∙◌, true, false, inl, inr, Bool-cases, [], ◌∷◌, ◌++◌,
  append-nil, append_assoc, ◌==◌, ==_iff, ◌%◌, ◌||◌, Bytes, leb, le→leb, if_true, if_false, ok,
  arith,
}
use native.Mathlib.Nat.{mod-eq_of_lt}
use atat.Base.Int.{ℤ, pos}
use atat.Base.Outcome.{done}
use atat.Extern.Texts.{Texts, IsTexts, concat}
use atat.SerdeAt.De.{is_space, skip_whitespace, deserialize_unsigned}
use atat.SerdeAt.Ser.Value.{Value}
use atat.SerdeAt.Ser.Text.{decimal_text, unsigned_digits-decimal_text}
use atat.SerdeAt.Numbers.{NoDigitFirst, unsigned_RoundTrip}
use atat.SerdeAt.Signed.{signed_read, positive_read}
use atat.SerdeAt.Deserializer.{
  Deserializer, Read, ◌>>!◌, at, plus_found, parse_at, number_read, peek_in, parse_some,
  deserialize_bool,
}
use atat.SerdeAt.Deserializer.Text.{deserialize_char}
use atat.SerdeAt.Deserializer.Quoted.{quoted_read}
use atat.SerdeAt.Deserializer.Shape.{
  Shape, Variants, no_variants, variant, VariantFields, read_map, option_from, deserialize_option,
  deserialize_newtype_struct, read_i64, deserialize_enum, deserialize, visit_enum,
}
use atat.SerdeAt.Deserializer.Elements.{
  IsPlain, is_unit, IsRead, read_bool, read_char, read_unsigned, read_signed, read_str, read_option,
  read_newtype, read_unit, shown, shown-Starts, decimal_text-Starts,
}

pub skip_plain : (c : ℕ) (cs : Bytes) → IsPlain c → skip_whitespace (c ∷ cs) ≡ c ∷ cs
unfolding skip_whitespace
skip_plain c cs plain = if_false (is_space c) (skip_whitespace cs) (c ∷ cs) plain.no_space

pub parse_some-plain :
    {A : Type 0} (c : ℕ) (cs : Bytes) (d : Deserializer) (f : ℕ → Deserializer → Read A)
    → IsPlain c
    → parse_some (at (c ∷ cs) d) f ≡ f c (at (c ∷ cs) d)
parse_some-plain c cs d f plain = ap (λ r. peek_in r (at r d) f) (skip_plain c cs plain)

parse_at-plain :
    (c : ℕ) (cs : Bytes) (d : Deserializer)
    → IsPlain c
    → parse_at (at (c ∷ cs) d) ≡ (ok false, at (c ∷ cs) d)
unfolding parse_at plus_found
parse_at-plain c cs d plain =
    ap (λ r. plus_found r (at r d)) (skip_plain c cs plain) ∙ if_false (c == b'+') _ _ plain.no_plus

option-plain :
    (read : Deserializer → Read Value) (c : ℕ) (cs : Bytes) (d : Deserializer)
    → IsPlain c
    → deserialize_option read (at (c ∷ cs) d) ≡ read_map Value.some (read (at (c ∷ cs) d))
unfolding deserialize_option
option-plain read c cs d plain =
    let present : ((c == b'+') || (c == b',')) ≡ false = rw plain.no_plus plain.no_comma in
    ap (λ r. option_from read (at r d) r) (skip_plain c cs plain)
    ∙ if_false ((c == b'+') || (c == b',')) _ _ present

newtype-plain :
    (read : Deserializer → Read Value) (c : ℕ) (cs : Bytes) (d : Deserializer)
    → IsPlain c
    → deserialize_newtype_struct read (at (c ∷ cs) d)
      ≡ read_map Value.newtype_struct (read (at (c ∷ cs) d))
unfolding deserialize_newtype_struct
newtype-plain read c cs d plain =
    ap (λ r. r >>! λ found e. read_map Value.newtype_struct (read e)) (parse_at-plain c cs d plain)

unsigned_read :
    (n bound v : ℕ) (rest : Bytes)
    → 0 < n
    → v < bound
    → bound ≤ 10 ^ n
    → NoDigitFirst rest
    → deserialize_unsigned bound (decimal_text n v ++ rest) ≡ ok (v, rest)
unsigned_read n bound v rest places lt fits free =
    let (out, runs, short, back) = unsigned_RoundTrip n bound v rest places lt fits free in
    let both : done out ≡ done (decimal_text n v ++ []) =
      sym runs ∙ unsigned_digits-decimal_text n v [] places (omega arith) in
    let same : out ≡ decimal_text n v ++ [] = cc in
    ap (λ t. deserialize_unsigned bound (t ++ rest)) (sym (same ∙ append-nil (decimal_text n v)))
    ∙ back

enum_found :
    (x : Texts) (n bound val : ℕ) (vs : Variants) (d : Deserializer)
    → val < bound
    → is_unit val vs ≡ true
    → visit_enum x n bound vs (pos val) d ≡ (ok (Value.unsigned n val), d)
unfolding visit_enum
enum_found x n bound val no_variants d fits h = absurd cc
enum_found x n bound val (variant v VariantFields.unit vs) d fits h = elim (Bool-cases (val == v)) [
  | inl same ↦
      if_true (val == v) _ _ same
      ∙ ap (λ k. (ok (Value.unsigned n (k % bound)), d)) (sym ((==_iff val v).0 same))
      ∙ ap (λ k. (ok (Value.unsigned n k), d)) (mod-eq_of_lt fits)
  | inr other ↦
      if_false (val == v) _ _ other
      ∙ enum_found x n bound val vs d fits (sym (if_false (val == v) _ _ other) ∙ h)
]
enum_found x n bound val (variant v VariantFields.named vs) d fits h =
    elim (Bool-cases (val == v)) [
      | inl same ↦ absurd (ground (arith, if_true (val == v) false (is_unit val vs) same))
      | inr other ↦
          if_false (val == v) _ _ other
          ∙ enum_found x n bound val vs d fits (sym (if_false (val == v) _ _ other) ∙ h)
    ]
enum_found x n bound val (variant v (VariantFields.unnamed ss) vs) d fits h =
    elim (Bool-cases (val == v)) [
      | inl same ↦ absurd (ground (arith, if_true (val == v) false (is_unit val vs) same))
      | inr other ↦
          if_false (val == v) _ _ other
          ∙ enum_found x n bound val vs d fits (sym (if_false (val == v) _ _ other) ∙ h)
    ]

module _ (x : Texts) (laws : IsTexts x) (rest : Bytes) (free : NoDigitFirst rest) where
  -- The deserializer is left behind the text.
  pub deserialize-shown :
      (s : Shape) (v : Value) (d : Deserializer)
      → IsRead x s v
      → d.is_trailing_parsing ≡ false
      → deserialize x s (at (shown v ++ rest) d) ≡ (ok v, at rest d)
  unfolding deserialize deserialize_bool deserialize_char deserialize_enum
  deserialize-shown s v d (read_bool true) line = refl
  deserialize-shown s v d (read_bool false) line = refl
  deserialize-shown s v d (read_char c small plain no_feed) line = ap (read_map Value.char) (
      parse_some-plain c rest d _ plain
      ∙ ap (λ t. (ok t, at rest d)) (if_true (leb c 127) _ _ (le→leb _ _ small)))
  deserialize-shown s v d (read_unsigned n bound k places lt fits) line =
      ap (λ r. read_map (Value.unsigned n) (number_read (at (shown v ++ rest) d) r))
        (unsigned_read n bound k rest places lt fits free)
  deserialize-shown s v d (read_signed n half k fine) line =
      ap (λ r. read_map (Value.signed n half) (number_read (at (shown v ++ rest) d) r))
        (signed_read n half k rest fine free)
  deserialize-shown s v d (read_str n cs utf8 fits closed) line =
      let text : concat cs ++ (b'"' ∷ []) ++ rest ≡ concat cs ++ (b'"' ∷ rest) =
        append_assoc (concat cs) (b'"' ∷ []) rest in
      ap (λ t. deserialize x s (at (b'"' ∷ t) d)) text
      ∙ ap (read_map Value.str) (quoted_read x laws n cs d rest utf8 fits closed line)
  deserialize-shown s v d (read_option t w fine) line =
      let y = shown-Starts t w fine in
      let read : Deserializer → Read Value = λ e. deserialize x t e in
      ap (λ u. deserialize_option read (at (u ++ rest) d)) y.parts
      ∙ option-plain read y.head (y.tail ++ rest) d y.plain
      ∙ ap (λ u. read_map Value.some (read (at (u ++ rest) d))) (sym y.parts)
      ∙ ap (read_map Value.some) (deserialize-shown t w d fine line)
  deserialize-shown s v d (read_newtype t w fine) line =
      let y = shown-Starts t w fine in
      let read : Deserializer → Read Value = λ e. deserialize x t e in
      ap (λ u. deserialize_newtype_struct read (at (u ++ rest) d)) y.parts
      ∙ newtype-plain read y.head (y.tail ++ rest) d y.plain
      ∙ ap (λ u. read_map Value.newtype_struct (read (at (u ++ rest) d))) (sym y.parts)
      ∙ ap (read_map Value.newtype_struct) (deserialize-shown t w d fine line)
  deserialize-shown s v d (read_unit n bound val vs places few fits small unit) line =
      let y = decimal_text-Starts n val places few in
      let visit : ℤ → Deserializer → Read Value = λ i e. visit_enum x n bound vs i e in
      ap (λ u. deserialize_enum visit (at (u ++ rest) d)) y.parts
      ∙ parse_some-plain y.head (y.tail ++ rest) d (λ c e. read_i64 e >>! visit) y.plain
      ∙ ap (λ u. read_i64 (at (u ++ rest) d) >>! visit) (sym y.parts)
      ∙ ap (λ r. number_read (at (decimal_text n val ++ rest) d) r >>! visit)
          (positive_read (2 ^ 63) n val rest small few places free)
      ∙ enum_found x n bound val vs (at rest d) fits unit
