-- ===== src/SerdeAt/HexStr/Digits.antt =====
-- The hexadecimal digits in the texts of serde_at/src/ser/hex_str.rs, and the numbers that they are.
use mathlib.Core.List.{reverse, reverse-append}
use native.Mathlib.Nat.{mul_assoc, mul_comm, add-mul}
use atat.Base.{
  ℕ, zero, suc, ◌+◌, ◌*◌, ◌/◌, ◌%◌, ◌^◌, ◌<◌, ◌≡◌, refl, sym, ap, ◌∙◌, Bool, true, false, inl, inr,
  Bool-cases, Option-cases, [], ◌∷◌, ◌++◌, append-nil, ◌==◌, ==_iff, ◌&&◌, ◌||◌, Bytes, length,
  length-append, if◌then◌else◌, if_true, if_false, none, some, arith,
}
use atat.SerdeAt.HexStr.{nibble, nibbles, nibbles-digit, nibbles-other, value, skip_0x}
use atat.SerdeAt.HexStr.Write.{hex_digit, hex_digits, zeros}

pub nibbles-append : (a b : Bytes) → nibbles (a ++ b) ≡ nibbles a ++ nibbles b
unfolding nibbles
nibbles-append [] b = refl
nibbles-append (c ∷ cs) b = elim (Option-cases (nibble c)) [
  | inl other ↦
      nibbles-other c (cs ++ b) other
      ∙ nibbles-append cs b
      ∙ ap (λ ds. ds ++ nibbles b) (sym (nibbles-other c cs other))
  | inr (v, digit) ↦
      nibbles-digit c v (cs ++ b) digit
      ∙ ap (◌∷◌ v) (nibbles-append cs b)
      ∙ ap (λ ds. ds ++ nibbles b) (sym (nibbles-digit c v cs digit))
]

reverse-cons : (c : ℕ) (cs : Bytes) → reverse (c ∷ cs) ≡ reverse cs ++ (c ∷ [])
reverse-cons c cs = reverse-append (c ∷ []) cs

pub nibbles-reverse : (s : Bytes) → nibbles (reverse s) ≡ reverse (nibbles s)
unfolding nibbles
nibbles-reverse [] = refl
nibbles-reverse (c ∷ cs) = elim (Option-cases (nibble c)) [
  | inl other ↦
      ap nibbles (reverse-cons c cs)
      ∙ nibbles-append (reverse cs) (c ∷ [])
      ∙ ap (λ ds. nibbles (reverse cs) ++ ds) (nibbles-other c [] other)
      ∙ append-nil (nibbles (reverse cs))
      ∙ nibbles-reverse cs
      ∙ ap reverse (sym (nibbles-other c cs other))
  | inr (v, digit) ↦
      ap nibbles (reverse-cons c cs)
      ∙ nibbles-append (reverse cs) (c ∷ [])
      ∙ ap (λ ds. nibbles (reverse cs) ++ ds) (nibbles-digit c v [] digit)
      ∙ ap (λ ds. ds ++ (v ∷ [])) (nibbles-reverse cs)
      ∙ sym (reverse-cons v (nibbles cs))
      ∙ ap reverse (sym (nibbles-digit c v cs digit))
]

shifted : (x p q d : ℕ) → x * (16 * p) + (q * 16 + d) ≡ (x * p + q) * 16 + d
shifted x p q d =
    omega (arith, ap (λ k. x * k) (mul_comm 16 p), mul_assoc x p 16, add-mul (x * p) q 16)

value-snoc : (ds : Bytes) (d : ℕ) → value (ds ++ (d ∷ [])) ≡ value ds * 16 + d
value-snoc [] d = omega arith
value-snoc (x ∷ ds) d =
    let size : length (ds ++ (d ∷ [])) ≡ suc (length ds) =
      omega (arith, length-append ds (d ∷ [])) in
    let power : 16 ^ suc (length ds) ≡ 16 * 16 ^ length ds = omega arith in
    let places : 16 ^ length (ds ++ (d ∷ [])) ≡ 16 * 16 ^ length ds =
      ap (λ k. 16 ^ k) size ∙ power in
    ap (λ k. x * k + value (ds ++ (d ∷ []))) places
    ∙ ap (λ k. x * (16 * 16 ^ length ds) + k) (value-snoc ds d)
    ∙ shifted x (16 ^ length ds) (value ds) d

pub value_zero : (ds : Bytes) → value (0 ∷ ds) ≡ value ds
value_zero ds = omega arith

pub value-zeros : (k : ℕ) (ds : Bytes) → value (nibbles (zeros k) ++ ds) ≡ value ds
unfolding nibbles nibble
value-zeros zero ds = refl
value-zeros (suc k) ds = value_zero (nibbles (zeros k) ++ ds) ∙ value-zeros k ds

zeros-snoc : (k : ℕ) → zeros k ++ (b'0' ∷ []) ≡ b'0' ∷ zeros k
zeros-snoc zero = refl
zeros-snoc (suc k) = ap (◌∷◌ b'0') (zeros-snoc k)

pub reverse-zeros : (k : ℕ) → reverse (zeros k) ≡ zeros k
reverse-zeros zero = refl
reverse-zeros (suc k) =
    reverse-cons b'0' (zeros k) ∙ ap (λ t. t ++ (b'0' ∷ [])) (reverse-zeros k) ∙ zeros-snoc k

nibble-hex_digit : (caps : Bool) (d : ℕ) → d < 16 → nibble (hex_digit caps d) ≡ some d
unfolding nibble
nibble-hex_digit true d small = ground arith
nibble-hex_digit false d small = ground arith

some_digit : (i v : ℕ) → (v == 0) ≡ false → v < 16 ^ i → 0 < i
some_digit zero v h lt = ground arith
some_digit (suc i) v h lt = omega arith

-- The digits of a number are those of the number.
pub value-hex_digits :
    (caps : Bool) (i v : ℕ) → 0 < i → v < 16 ^ i → value (nibbles (hex_digits caps i v)) ≡ v
unfolding hex_digits nibbles
value-hex_digits caps zero v places lt = absurd (omega arith)
value-hex_digits caps (suc i) v places lt =
    let last = hex_digit caps (v % 16) in
    let digit : nibble last ≡ some (v % 16) = nibble-hex_digit caps (v % 16) (omega arith) in
    let before = hex_digits caps i (v / 16) in
    let pre : Bytes = if v / 16 == 0 then [] else before in
    let rest : value (nibbles pre) ≡ v / 16 = elim (Bool-cases (v / 16 == 0)) [
      | inl small ↦
          ap (λ t. value (nibbles t)) (if_true (v / 16 == 0) [] before small)
          ∙ sym ((==_iff (v / 16) 0).0 small)
      | inr more ↦
          ap (λ t. value (nibbles t)) (if_false (v / 16 == 0) [] before more)
          ∙ value-hex_digits caps i (v / 16) (some_digit i (v / 16) more (omega arith))
              (omega arith)
    ] in
    ap value (nibbles-append pre (last ∷ []))
    ∙ ap (λ ds. value (nibbles pre ++ ds)) (nibbles-digit last (v % 16) [] digit)
    ∙ value-snoc (nibbles pre) (v % 16)
    ∙ omega (arith, rest)

and_first : (a b : Bool) → (a && b) ≡ true → a ≡ true
and_first true b h = refl
and_first false b h = absurd cc

and_second : (a b : Bool) → (a && b) ≡ true → b ≡ true
and_second true b h = h
and_second false b h = absurd cc

nibble_zero : (c : ℕ) → (c == b'0') ≡ true → nibble c ≡ some 0
unfolding nibble
nibble_zero c h = ap nibble ((==_iff c b'0').0 h)

nibble_x : (d : ℕ) → ((d == b'x') || (d == b'X')) ≡ true → nibble d ≡ none
unfolding nibble
nibble_x d h = ground arith

-- A leading `0x` is the digit zero.
pub value-skip_0x : (s : Bytes) → value (nibbles (skip_0x s)) ≡ value (nibbles s)
unfolding skip_0x
value-skip_0x [] = refl
value-skip_0x (c ∷ []) = refl
value-skip_0x (c ∷ (d ∷ cs)) = elim (Bool-cases ((c == b'0') && ((d == b'x') || (d == b'X')))) [
  | inl start ↦
      let zero_first : nibble c ≡ some 0 = nibble_zero c (and_first (c == b'0') _ start) in
      let other : nibble d ≡ none = nibble_x d (and_second (c == b'0') _ start) in
      ap (λ t. value (nibbles t)) (if_true _ cs (c ∷ (d ∷ cs)) start)
      ∙ sym (value_zero (nibbles cs))
      ∙ ap (λ ds. value (0 ∷ ds)) (sym (nibbles-other d cs other))
      ∙ ap value (sym (nibbles-digit c 0 (d ∷ cs) zero_first))
  | inr rest ↦ ap (λ t. value (nibbles t)) (if_false _ cs (c ∷ (d ∷ cs)) rest)
]
