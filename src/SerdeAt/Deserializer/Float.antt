-- ===== src/SerdeAt/Deserializer/Float.antt =====
-- Floats in serde_at/src/de/mod.rs. `from_str` of the crate core is a parameter.
use atat.Base.{
  ℕ, ◌≡◌, refl, ap, ◌∙◌, Bool, true, false, [], ◌∷◌, ◌++◌, ◌==◌, ◌||◌, Bytes, Option, none, some,
  if◌then◌else◌, if_true, if_false, ok, err, arith,
}
use atat.SerdeAt.De.{DeError, is_space, in_range, skip_whitespace}
use atat.SerdeAt.Deserializer.{Deserializer, Read, at, peek_in, parse_some}

-- `b"0123456789+-.eE"`
abbrev pub is_float_char : ℕ → Bool
is_float_char c =
    in_range b'0' b'9' c
    || ((c == b'+') || ((c == b'-') || ((c == b'.') || ((c == b'e') || (c == b'E')))))

abbrev pub behind_digit : ℕ → Option (Bytes × Bytes) → Option (Bytes × Bytes)
behind_digit c (some (text, rest)) = some (c ∷ text, rest)
behind_digit c none = none

-- The loop of `deserialize_fromstr!`: the text up to a character of none of these.
unfoldable pub float_loop : Bytes → Option (Bytes × Bytes)
float_loop [] = none
float_loop (c ∷ cs) =
    let later = behind_digit c (float_loop cs) in
    if is_float_char c then later else some ([], c ∷ cs)

abbrev pub AreFloatChars : Bytes → Type 0
AreFloatChars [] = Unit
AreFloatChars (c ∷ cs) = (is_float_char c ≡ true) × AreFloatChars cs

module _ {A : Type 0} (from_str : Bytes → Option A) where
  abbrev pub float_parsed : Deserializer → Option A → Read A
  float_parsed d (some v) = (ok v, d)
  float_parsed d none = (err DeError.invalid_number, d)

  abbrev pub float_found : Deserializer → Option (Bytes × Bytes) → Read A
  float_found d (some (text, rest)) = float_parsed (at rest d) (from_str text)
  float_found d none = (err DeError.eof_while_parsing_number, at [] d)

  -- `deserialize_f32` and `deserialize_f64`
  unfoldable pub deserialize_float : Deserializer → Read A
  unfolding float_loop
  deserialize_float d = parse_some d (λ c e. float_found e (float_loop e.rest))

float_loop-all : (text : Bytes) → AreFloatChars text → float_loop text ≡ none
unfolding float_loop
float_loop-all [] h = refl
float_loop-all (c ∷ cs) (digit, digits) =
    if_true (is_float_char c) _ _ digit ∙ ap (behind_digit c) (float_loop-all cs digits)

float_loop-ends :
    (text : Bytes) (c : ℕ) (rest : Bytes)
    → AreFloatChars text
    → is_float_char c ≡ false
    → float_loop (text ++ (c ∷ rest)) ≡ some (text, c ∷ rest)
unfolding float_loop
float_loop-ends [] c rest h other = if_false (is_float_char c) _ _ other
float_loop-ends (b ∷ text) c rest (digit, digits) other =
    if_true (is_float_char b) _ _ digit
    ∙ ap (behind_digit b) (float_loop-ends text c rest digits other)

first_space : (c : ℕ) (cs : Bytes) → is_float_char c ≡ true → skip_whitespace (c ∷ cs) ≡ c ∷ cs
unfolding skip_whitespace
first_space c cs digit = if_false (is_space c) (skip_whitespace cs) (c ∷ cs) (ground arith)

-- Whatever a text of digits, signs, points and exponents means, where it is the end of the slice,
-- reading a float fails with `EofWhileParsingNumber` behind it; in front of any other character it
-- is what `from_str` makes of it, and that character is left.
pub deserialize_float-text :
    {A : Type 0} (from_str : Bytes → Option A) (d : Deserializer) (c b : ℕ) (cs rest : Bytes)
    → AreFloatChars (c ∷ cs)
    → is_float_char b ≡ false
    → (deserialize_float from_str (at (c ∷ cs) d) ≡ (err DeError.eof_while_parsing_number, at [] d))
      × (deserialize_float from_str (at ((c ∷ cs) ++ (b ∷ rest)) d)
          ≡ float_parsed from_str (at (b ∷ rest) d) (from_str (c ∷ cs)))
unfolding deserialize_float
deserialize_float-text {A} from_str d c b cs rest digits other =
    let go : Bytes → Read A =
      λ r. peek_in r (at r d) λ k e. float_found from_str e (float_loop e.rest) in
    (
      ap go (first_space c cs digits.0)
          ∙ ap (float_found from_str (at (c ∷ cs) d)) (float_loop-all (c ∷ cs) digits),
      ap go (first_space c (cs ++ (b ∷ rest)) digits.0)
          ∙ ap (float_found from_str (at ((c ∷ cs) ++ (b ∷ rest)) d))
              (float_loop-ends (c ∷ cs) b rest digits other),
    )
