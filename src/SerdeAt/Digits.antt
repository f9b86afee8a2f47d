-- ===== src/SerdeAt/Digits.antt =====
-- The digits that `serialize_unsigned!` of serde_at/src/ser/mod.rs writes.
use atat.Base.{
  ℕ, zero, suc, ◌+◌, ◌-◌, ◌*◌, ◌/◌, ◌%◌, ◌^◌, ◌≤◌, ◌<◌, ◌≡◌, refl, ap, ◌∙◌, Bool, true, false, ◌∷◌,
  ◌++◌, ◌==◌, ==_iff, Bool-cases, inl, inr, Bytes, length, ltb, lt→ltb, if◌then◌else◌, arith,
}
use atat.Base.Outcome.{Outcome, done, ◌>>=◌}
use atat.SerdeAt.De.{number_loop, in_range}
use atat.SerdeAt.Ser.{unless_zero, unsigned_digits}

-- The digits of `v` in front of `out`: the first one is not zero, and reading the others behind it
-- comes to reading `out` behind `v`.
pub record Digits (bound v : ℕ) (out : Bytes) (run : Outcome Bytes) : Type 0 where
  pub first : ℕ
  pub others : Bytes
  pub runs : run ≡ done (first ∷ others)
  pub low : b'1' ≤ first
  pub high : first ≤ b'9'
  pub reads : number_loop bound (first - b'0') others ≡ number_loop bound v out

all_passed :
    {A : Type 0} (a b c : Bool) (x y y' z : A)
    → a ≡ true
    → b ≡ true
    → c ≡ true
    → (if a then (if b then (if c then x else y) else y') else z) ≡ x
all_passed true true true x y y' z ha hb hc = refl
all_passed false b c x y y' z ha hb hc = absurd cc
all_passed true false c x y y' z ha hb hc = absurd cc
all_passed true true false x y y' z ha hb hc = absurd cc

is_digit : (d : ℕ) → d < 10 → in_range b'0' b'9' (d + b'0') ≡ true
is_digit d lt = ground arith

loop_digit :
    (bound v : ℕ) (out : Bytes)
    → v < bound
    → number_loop bound (v / 10) ((v % 10 + b'0') ∷ out) ≡ number_loop bound v out
unfolding number_loop
loop_digit bound v out lt =
    let same : v / 10 * 10 + (v % 10 + b'0' - b'0') ≡ v = omega arith in
    all_passed (in_range b'0' b'9' (v % 10 + b'0')) (ltb (v / 10 * 10) bound)
      (ltb (v / 10 * 10 + (v % 10 + b'0' - b'0')) bound)
      (number_loop bound (v / 10 * 10 + (v % 10 + b'0' - b'0')) out) _ _ _
      (is_digit (v % 10) (omega arith)) (lt→ltb _ bound (omega arith))
      (lt→ltb _ bound (omega arith))
    ∙ ap (λ n. number_loop bound n out) same

pub digits_lem :
    (i bound v : ℕ) (out : Bytes)
    → v < bound
    → 0 < v
    → v < 10 ^ i
    → Digits bound v out (unsigned_digits i v out)
unfolding unsigned_digits
digits_lem zero bound v out lt pos few = absurd (omega arith)
digits_lem (suc i) bound v out lt pos few = elim (Bool-cases (v / 10 == 0)) [
  | inl last ↦
      let small : v / 10 ≡ 0 = (==_iff (v / 10) 0).0 last in
      record {
        first = v % 10 + b'0';
        others = out;
        runs =
            ap
              (λ b.
                unless_zero b ((v % 10 + b'0') ∷ out)
                  (unsigned_digits i (v / 10) ((v % 10 + b'0') ∷ out)))
              last;
        low = omega arith;
        high = omega arith;
        reads = ap (λ n. number_loop bound n out) (omega arith);
      }
  | inr more ↦
      let x =
        digits_lem i bound (v / 10) ((v % 10 + b'0') ∷ out) (omega arith) (ground arith)
          (omega arith) in
      record {
        first = x.first;
        others = x.others;
        runs =
            ap
              (λ b.
                unless_zero b ((v % 10 + b'0') ∷ out)
                  (unsigned_digits i (v / 10) ((v % 10 + b'0') ∷ out)))
              more
            ∙ x.runs;
        low = x.low;
        high = x.high;
        reads = x.reads ∙ loop_digit bound v out lt;
      }
]

-- The digits do not depend on what they are put in front of.
pub digits-append :
    (i v : ℕ) (a o r : Bytes)
    → unsigned_digits i v a ≡ done o
    → unsigned_digits i v (a ++ r) ≡ done (o ++ r)
unfolding unsigned_digits
digits-append zero v a o r e = absurd cc
digits-append (suc i) v a o r e = elim (Bool-cases (v / 10 == 0)) [
  | inl last ↦
      let whole : done ((v % 10 + b'0') ∷ a) ≡ done o = rw last at e in
      ap
        (λ b.
          unless_zero b ((v % 10 + b'0') ∷ (a ++ r))
            (unsigned_digits i (v / 10) ((v % 10 + b'0') ∷ (a ++ r))))
        last
      ∙ ap (λ x. x >>= λ y. done (y ++ r)) whole
  | inr more ↦
      let later : unsigned_digits i (v / 10) ((v % 10 + b'0') ∷ a) ≡ done o = rw more at e in
      ap
        (λ b.
          unless_zero b ((v % 10 + b'0') ∷ (a ++ r))
            (unsigned_digits i (v / 10) ((v % 10 + b'0') ∷ (a ++ r))))
        more
      ∙ digits-append i (v / 10) ((v % 10 + b'0') ∷ a) o r later
]

pub digits-length :
    (i v : ℕ) (a o : Bytes) → unsigned_digits i v a ≡ done o → length o ≤ i + length a
unfolding unsigned_digits
digits-length zero v a o e = absurd cc
digits-length (suc i) v a o e = elim (Bool-cases (v / 10 == 0)) [
  | inl last ↦
      let whole : done ((v % 10 + b'0') ∷ a) ≡ done o = rw last at e in
      let same : (v % 10 + b'0') ∷ a ≡ o = cc in omega (arith, ap length same)
  | inr more ↦
      let later : unsigned_digits i (v / 10) ((v % 10 + b'0') ∷ a) ≡ done o = rw more at e in
      omega (arith, digits-length i (v / 10) ((v % 10 + b'0') ∷ a) o later)
]
