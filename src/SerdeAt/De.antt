-- ===== src/SerdeAt/De.antt =====
-- Integers in serde_at/src/de/mod.rs. The deserializer's state is the slice from its index on.
use atat.Base.{
  ℕ, zero, suc, ◌+◌, ◌-◌, ◌*◌, Bool, true, false, [], ◌∷◌, ◌==◌, ◌&&◌, ◌||◌, Bytes, leb, ltb,
  if◌then◌else◌, Result, ok, err,
}
use atat.Base.Int.{ℤ, pos, negsuc}

pub data DeError : Type 0 where
  eof_while_parsing_object eof_while_parsing_string eof_while_parsing_number : DeError
  eof_while_parsing_value expected_some_ident expected_some_value invalid_number : DeError
  invalid_type invalid_unicode_code_point trailing_characters trailing_comma : DeError
  custom_error : DeError

abbrev pub is_space : ℕ → Bool
is_space c = (c == b' ') || ((c == b'\n') || ((c == b'\t') || (c == b'\r')))

abbrev pub in_range : ℕ → ℕ → ℕ → Bool
in_range low high c = leb low c && leb c high

-- The state in which `parse_whitespace` leaves the deserializer.
unfoldable pub skip_whitespace : Bytes → Bytes
skip_whitespace [] = []
skip_whitespace (c ∷ cs) = let rest = skip_whitespace cs in if is_space c then rest else c ∷ cs

-- The loop of `deserialize_unsigned!`, in a type of numbers below `bound`.
unfoldable pub number_loop : ℕ → ℕ → Bytes → Result (ℕ × Bytes) DeError
number_loop bound number [] = ok (number, [])
number_loop bound number (c ∷ cs) =
    let next = number * 10 + (c - b'0') in
    let rest = number_loop bound next cs in
    if in_range b'0' b'9' c
    then (if ltb (number * 10) bound
        then (if ltb next bound then rest else err invalid_number)
        else err invalid_number)
    else ok (number, c ∷ cs)

-- The `match` on the first character.
unfoldable pub number_from : ℕ → Bytes → Result (ℕ × Bytes) DeError
unfolding number_loop
number_from bound [] = err eof_while_parsing_value
number_from bound (c ∷ cs) =
    if c == b'-'
    then err invalid_number
    else if c == b'0'
    then ok (0, cs)
    else if in_range b'1' b'9' c
    then number_loop bound (c - b'0') cs
    else err invalid_type

-- `deserialize_unsigned!`
unfoldable pub deserialize_unsigned : ℕ → Bytes → Result (ℕ × Bytes) DeError
unfolding number_from skip_whitespace
deserialize_unsigned bound input = number_from bound (skip_whitespace input)

-- The sign of a number with its magnitude.
abbrev pub to_signed : Bool → ℕ → ℤ
to_signed true zero = pos zero
to_signed true (suc n) = negsuc n
to_signed false n = pos n

-- One more than the greatest magnitude, where `half` is one more than the greatest number.
abbrev pub magnitudes : Bool → ℕ → ℕ
magnitudes true half = half + 1
magnitudes false half = half

abbrev pub with_signed : Bool → Result (ℕ × Bytes) DeError → Result (ℤ × Bytes) DeError
with_signed negative (ok (n, rest)) = ok (to_signed negative n, rest)
with_signed negative (err e) = err e

-- The second `match` of `deserialize_signed!`. Its loop keeps the number with its sign, and here it is
-- kept as its magnitude.
unfoldable pub signed_from : Bool → ℕ → Bytes → Result (ℤ × Bytes) DeError
unfolding number_loop
signed_from negative half [] = err eof_while_parsing_value
signed_from negative half (c ∷ cs) =
    if c == b'0'
    then ok (pos 0, cs)
    else if in_range b'1' b'9' c
    then with_signed negative (number_loop (magnitudes negative half) (c - b'0') cs)
    else err invalid_type

abbrev pub sign_first : ℕ → Bytes → Result (ℤ × Bytes) DeError
sign_first half [] = err eof_while_parsing_value
sign_first half (c ∷ cs) =
    if c == b'-' then signed_from true half cs else signed_from false half (c ∷ cs)

-- `deserialize_signed!`
unfoldable pub deserialize_signed : ℕ → Bytes → Result (ℤ × Bytes) DeError
unfolding signed_from skip_whitespace
deserialize_signed half input = sign_first half (skip_whitespace input)
