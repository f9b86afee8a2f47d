-- ===== src/SerdeAt/Ser/Text.antt =====
-- The text of a number, apart from the loops of serde_at/src/ser/mod.rs, and that the loops write it.
use atat.Base.{
  ℕ, zero, suc, ◌+◌, ◌/◌, ◌%◌, ◌^◌, ◌≤◌, ◌<◌, ◌==◌, ◌≡◌, refl, sym, ap, ◌∙◌, false, Bool-cases, inl,
  inr, [], ◌∷◌, ◌++◌, append_assoc, Bytes, length, length-append, if◌then◌else◌, if_true, if_false,
  arith,
}
use atat.Base.Outcome.{Outcome, done}
use atat.SerdeAt.Ser.{unless_zero, unsigned_digits, signed_digits}

-- A number in decimal, of at most so many places.
unfoldable pub decimal_text : ℕ → ℕ → Bytes
decimal_text zero v = []
decimal_text (suc i) v =
    let before = decimal_text i (v / 10) in
    (if v / 10 == 0 then [] else before) ++ ((v % 10 + b'0') ∷ [])

pub length-decimal_text : (n v : ℕ) → length (decimal_text n v) ≤ n
unfolding decimal_text
length-decimal_text zero v = omega arith
length-decimal_text (suc i) v = elim (Bool-cases (v / 10 == 0)) [
  | inl last ↦ omega (
    arith,
    length-append (if v / 10 == 0 then [] else decimal_text i (v / 10)) ((v % 10 + b'0') ∷ []),
    ap length (if_true (v / 10 == 0) [] (decimal_text i (v / 10)) last),
  )
  | inr more ↦ omega (
    arith,
    length-append (if v / 10 == 0 then [] else decimal_text i (v / 10)) ((v % 10 + b'0') ∷ []),
    ap length (if_false (v / 10 == 0) [] (decimal_text i (v / 10)) more),
    length-decimal_text i (v / 10),
  )
]

some_place : (i v : ℕ) → (v == 0) ≡ false → v < 10 ^ i → 0 < i
some_place zero v h lt = ground arith
some_place (suc i) v h lt = omega arith

-- A number has as many places at most as its power of ten.
pub length-decimal_text_below : (n v k : ℕ) → 0 < k → v < 10 ^ k → length (decimal_text n v) ≤ k
unfolding decimal_text
length-decimal_text_below zero v k some lt = omega arith
length-decimal_text_below (suc i) v zero some lt = absurd (omega arith)
length-decimal_text_below (suc i) v (suc k) some lt = elim (Bool-cases (v / 10 == 0)) [
  | inl last ↦ omega (
    arith,
    length-append (if v / 10 == 0 then [] else decimal_text i (v / 10)) ((v % 10 + b'0') ∷ []),
    ap length (if_true (v / 10 == 0) [] (decimal_text i (v / 10)) last),
  )
  | inr more ↦ omega (
    arith,
    length-append (if v / 10 == 0 then [] else decimal_text i (v / 10)) ((v % 10 + b'0') ∷ []),
    ap length (if_false (v / 10 == 0) [] (decimal_text i (v / 10)) more),
    length-decimal_text_below i (v / 10) k (some_place k (v / 10) more (omega arith)) (omega arith),
  )
]

pub unsigned_digits-decimal_text :
    (n v : ℕ) (out : Bytes)
    → 0 < n
    → v < 10 ^ n
    → unsigned_digits n v out ≡ done (decimal_text n v ++ out)
unfolding unsigned_digits decimal_text
unsigned_digits-decimal_text zero v out pos lt = absurd (omega arith)
unsigned_digits-decimal_text (suc i) v out pos lt =
    let next : Bytes = (v % 10 + b'0') ∷ out in
    let rest : Outcome Bytes = unsigned_digits i (v / 10) next in
    let before : Bytes = decimal_text i (v / 10) in
    elim (Bool-cases (v / 10 == 0)) [
      | inl last ↦
          ap (λ b. unless_zero b next rest) last
          ∙ sym (
              ap (λ xs. done ((xs ++ ((v % 10 + b'0') ∷ [])) ++ out))
                (if_true (v / 10 == 0) [] before last))
      | inr more ↦
          ap (λ b. unless_zero b next rest) more
          ∙ unsigned_digits-decimal_text i (v / 10) next (some_place i (v / 10) more (omega arith))
              (omega arith)
          ∙ ap done (sym (append_assoc before ((v % 10 + b'0') ∷ []) out))
          ∙ sym (
              ap (λ xs. done ((xs ++ ((v % 10 + b'0') ∷ [])) ++ out))
                (if_false (v / 10 == 0) [] before more))
    ]

-- The place that is left for the sign is one place less for the digits.
pub signed_digits_lem :
    (i v : ℕ) (out : Bytes) → signed_digits (suc i) v out ≡ unsigned_digits i v out
unfolding unsigned_digits signed_digits
signed_digits_lem zero v out = refl
signed_digits_lem (suc i) v out =
    ap (unless_zero (v / 10 == 0) ((v % 10 + b'0') ∷ out))
      (signed_digits_lem i (v / 10) ((v % 10 + b'0') ∷ out))
