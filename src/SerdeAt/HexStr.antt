-- ===== src/SerdeAt/HexStr.antt =====
-- serde_at/src/de/hex_str.rs: `visit_bytes` of the unsigned integers, and what it reads.
pub mod Write
pub mod Digits
pub mod Groups
pub mod Written
pub mod Back
mod Tests
use atat.Base.{
  ℕ, zero, suc, ◌+◌, ◌-◌, ◌*◌, ◌/◌, ◌%◌, ◌^◌, ◌≤◌, ◌<◌, ◌≡◌, refl, sym, ap, ◌∙◌, Bool, true, false,
  Option, none, some, [], ◌∷◌, ◌==◌, ◌&&◌, ◌||◌, Option-cases, inl, inr, Bytes, length, ltb, lt→ltb,
  if◌then◌else◌, if_true, Result, ok, err, arith,
}
use native.Mathlib.Nat.{
  mul-add-mod_self_left, mod-eq_of_lt, mod-lt, div-add-mod, mul_assoc, mul_comm, add-mul, zero-mod,
}
use atat.SerdeAt.De.{DeError, in_range}

-- The `match` on a character.
unfoldable pub nibble : ℕ → Option ℕ
nibble c =
    if in_range b'0' b'9' c
    then some (c - b'0')
    else if in_range b'A' b'F' c
    then some (10 + (c - b'A'))
    else if in_range b'a' b'f' c
    then some (10 + (c - b'a'))
    else none

-- `s.starts_with("0x") || s.starts_with("0X")`, where the two characters are then left out.
unfoldable pub skip_0x : Bytes → Bytes
skip_0x [] = []
skip_0x (c ∷ []) = c ∷ []
skip_0x (c ∷ (d ∷ cs)) = if (c == b'0') && ((d == b'x') || (d == b'X')) then cs else c ∷ (d ∷ cs)

-- `ret.shl(4).checked_add(v)` in an integer of so many bits. The shift drops what does not fit.
unfoldable pub add_nibble : ℕ → ℕ → ℕ → Result ℕ DeError
add_nibble bits ret v =
    let shifted = ret * 16 % 2 ^ bits in
    if ltb (shifted + v) (2 ^ bits) then ok (shifted + v) else err DeError.custom_error

abbrev pub or_fail : Result ℕ DeError → (ℕ → Result ℕ DeError) → Result ℕ DeError
or_fail (ok n) f = f n
or_fail (err e) f = err e

-- The loop over the characters. Any character that is no digit is left out.
unfoldable pub hex_loop : ℕ → ℕ → Bytes → Result ℕ DeError
unfolding nibble add_nibble
hex_loop bits ret [] = ok ret
hex_loop bits ret (c ∷ cs) = elim (nibble c) [
  | some v ↦ or_fail (add_nibble bits ret v) λ next. hex_loop bits next cs
  | none ↦ hex_loop bits ret cs
]

-- `visit_bytes`, where `from_utf8` gives the characters of a text.
unfoldable pub visit_hex : (Bytes → Option Bytes) → ℕ → Bytes → Result ℕ DeError
unfolding hex_loop skip_0x
visit_hex from_utf8 bits v = elim (from_utf8 v) [
  | some s ↦ hex_loop bits 0 (skip_0x s)
  | none ↦ err DeError.custom_error
]

-- The digits in a text, and the number that digits are the places of, the most significant one first.
unfoldable pub nibbles : Bytes → Bytes
unfolding nibble
nibbles [] = []
nibbles (c ∷ cs) = elim (nibble c) [ some v ↦ v ∷ nibbles cs | none ↦ nibbles cs ]

abbrev pub value : Bytes → ℕ
value [] = 0
value (d ∷ ds) = d * 16 ^ length ds + value ds

shift_mod : (n v m : ℕ) → v < 16 → 0 < m → (n * 16 + v) % (16 * m) ≡ n % m * 16 + v
shift_mod n v m small pos =
    let whole : n * 16 + v ≡ 16 * m * (n / m) + (n % m * 16 + v) =
      omega (arith, div-add-mod n m, mul_assoc 16 m (n / m)) in
    ap (λ x. x % (16 * m)) whole
    ∙ mul-add-mod_self_left (16 * m) (n / m) (n % m * 16 + v)
    ∙ mod-eq_of_lt (omega (arith, mod-lt n pos))

mod_mod : (n m : ℕ) → n % (16 * m) % m ≡ n % m
mod_mod n m =
    let q = n / (16 * m) in
    let whole : n ≡ m * (16 * q) + n % (16 * m) =
      omega (arith, div-add-mod n (16 * m), mul_assoc m 16 q, ap (λ x. x * q) (mul_comm 16 m)) in
    sym (ap (λ x. x % m) whole ∙ mul-add-mod_self_left m (16 * q) (n % (16 * m)))

nibble-small : (c v : ℕ) → nibble c ≡ some v → v < 16
unfolding nibble
nibble-small c v h = ground arith

-- No digit makes the addition overflow.
add_nibble_lem :
    (bits m n v : ℕ)
    → 2 ^ bits ≡ 16 * m
    → 0 < m
    → v < 16
    → add_nibble bits (n % 2 ^ bits) v ≡ ok ((n * 16 + v) % 2 ^ bits)
unfolding add_nibble
add_nibble_lem bits m n v e pos small =
    let r = n % (16 * m) in
    let shifted : r * 16 % (16 * m) ≡ r % m * 16 =
      ap (λ x. x % (16 * m)) (omega arith) ∙ shift_mod r 0 m (omega arith) pos ∙ omega arith in
    let same : r * 16 % (16 * m) + v ≡ (n * 16 + v) % (16 * m) =
      omega (arith, shifted, mod_mod n m, shift_mod n v m small pos) in
    rw e (
      if_true (ltb (r * 16 % (16 * m) + v) (16 * m)) _ _
        (lt→ltb _ _ (omega (arith, shifted, mod_mod n m, mod-lt n pos)))
      ∙ ap ok same)

-- A digit in front of the others.
digit_in_front : (n v p q : ℕ) → (n * 16 + v) * p + q ≡ n * (16 * p) + (v * p + q)
digit_in_front n v p q = omega (arith, add-mul (n * 16) v p, mul_assoc n 16 p)

sixteen : (k : ℕ) → 16 * 16 ^ k ≡ 16 ^ suc k
sixteen k = omega arith

power_pos : (k : ℕ) → 0 < 2 ^ k
power_pos zero = omega arith
power_pos (suc k) = omega (arith, power_pos k)

-- A type of at least four bits has room for some number of digits.
room_lem : (bits : ℕ) → 4 ≤ bits → (m : ℕ) × (2 ^ bits ≡ 16 * m) × (0 < m)
room_lem zero wide = absurd (omega arith)
room_lem (suc zero) wide = absurd (omega arith)
room_lem (suc (suc zero)) wide = absurd (omega arith)
room_lem (suc (suc (suc zero))) wide = absurd (omega arith)
room_lem (suc (suc (suc (suc k)))) wide = (2 ^ k, omega arith, power_pos k)

hex_loop_digit :
    (bits m n : ℕ) (c v : ℕ) (cs : Bytes)
    → 2 ^ bits ≡ 16 * m
    → 0 < m
    → nibble c ≡ some v
    → hex_loop bits (n % 2 ^ bits) (c ∷ cs) ≡ hex_loop bits ((n * 16 + v) % 2 ^ bits) cs
unfolding hex_loop
hex_loop_digit bits m n c v cs e pos digit =
    rw (digit, hex_loop)
      (ap (λ x. or_fail x λ next. hex_loop bits next cs)
        (add_nibble_lem bits m n v e pos (nibble-small c v digit)))

pub nibbles-digit : (c v : ℕ) (cs : Bytes) → nibble c ≡ some v → nibbles (c ∷ cs) ≡ v ∷ nibbles cs
unfolding nibbles
nibbles-digit c v cs digit = rw (digit, nibbles) refl

pub nibbles-other : (c : ℕ) (cs : Bytes) → nibble c ≡ none → nibbles (c ∷ cs) ≡ nibbles cs
unfolding nibbles
nibbles-other c cs other = rw (other, nibbles) refl

hex_loop-other :
    (bits n c : ℕ) (cs : Bytes) → nibble c ≡ none → hex_loop bits n (c ∷ cs) ≡ hex_loop bits n cs
unfolding hex_loop
hex_loop-other bits n c cs other = rw (other, hex_loop) refl

hex_loop-value :
    (bits m n : ℕ) (cs : Bytes)
    → 2 ^ bits ≡ 16 * m
    → 0 < m
    → hex_loop bits (n % 2 ^ bits) cs
      ≡ ok ((n * 16 ^ length (nibbles cs) + value (nibbles cs)) % 2 ^ bits)
unfolding hex_loop nibbles
hex_loop-value bits m n [] e pos = ap (λ k. ok (k % 2 ^ bits)) (omega arith)
hex_loop-value bits m n (c ∷ cs) e pos = elim (Option-cases (nibble c)) [
  | inl other ↦
      hex_loop-other bits (n % 2 ^ bits) c cs other
      ∙ hex_loop-value bits m n cs e pos
      ∙ ap (λ ds. ok ((n * 16 ^ length ds + value ds) % 2 ^ bits)) (sym (nibbles-other c cs other))
  | inr (v, digit) ↦
      hex_loop_digit bits m n c v cs e pos digit
      ∙ hex_loop-value bits m (n * 16 + v) cs e pos
      ∙ ap (λ k. ok (k % 2 ^ bits))
          (digit_in_front n v (16 ^ length (nibbles cs)) (value (nibbles cs))
            ∙ ap (λ p. n * p + (v * 16 ^ length (nibbles cs) + value (nibbles cs)))
                (sixteen (length (nibbles cs))))
      ∙ ap (λ ds. ok ((n * 16 ^ length ds + value ds) % 2 ^ bits))
          (sym (nibbles-digit c v cs digit))
]

-- On bytes that are a text, `visit_bytes` of a hex string of at least four bits never fails: it
-- gives the number whose hexadecimal digits stand in the text behind `0x` or `0X`, where every other
-- character is left out, and of which the bits that the type has no room for are dropped.
pub visit_hex-value :
    (from_utf8 : Bytes → Option Bytes) (bits : ℕ) (v s : Bytes)
    → from_utf8 v ≡ some s
    → 4 ≤ bits
    → visit_hex from_utf8 bits v ≡ ok (value (nibbles (skip_0x s)) % 2 ^ bits)
unfolding visit_hex
visit_hex-value from_utf8 bits v s valid wide =
    let (m, e, pos) = room_lem bits wide in
    let s' = skip_0x s in
    rw (valid, visit_hex)
      (ap (λ n. hex_loop bits n s') (sym (zero-mod (2 ^ bits)))
        ∙ hex_loop-value bits m 0 s' e pos
        ∙ ap (λ k. ok (k % 2 ^ bits)) (omega arith))
