-- ===== src/Base/Lists.antt =====
-- Lists over the native numbers: lengths, slices, and the searches of Rust's slice iterators.
use Prim.Native.Nat.{ℕ, zero, suc, ◌+◌, ◌-◌, ◌≤◌, min}
use mathlib.Core.Path.{◌≡◌, refl, sym, ap, ◌∙◌}
use mathlib.Core.Bool.{Bool}
use mathlib.Core.Option
use mathlib.Core.Option.{Option, none, some}
use mathlib.Core.List.{List, [], ◌∷◌, ◌++◌}
use native.Mathlib.Omega.{arith}
use atat.Base.Tests.{if◌then◌else◌}

pub suc_plus : (j k : ℕ) → suc j + k ≡ suc (j + k)
suc_plus j k = omega arith

module _ {ℓ} {A : Type ℓ} where
  abbrev pub length : List A → ℕ
  length [] = 0
  length (x ∷ xs) = suc (length xs)

  abbrev pub take : ℕ → List A → List A
  take zero whole = []
  take (suc k) [] = []
  take (suc k) (a ∷ whole) = a ∷ take k whole

  abbrev pub drop : ℕ → List A → List A
  drop zero whole = whole
  drop (suc k) [] = []
  drop (suc k) (a ∷ whole) = drop k whole

  abbrev pub get_elem? : List A → ℕ → Option A
  get_elem? [] i = none
  get_elem? (x ∷ xs) zero = some x
  get_elem? (x ∷ xs) (suc i) = get_elem? xs i

  -- `iter().position(p)`: the index of the first element that passes.
  abbrev pub position : (A → Bool) → List A → Option ℕ
  position p [] = none
  position p (x ∷ xs) = let rest = Option.map suc (position p xs) in if p x then some 0 else rest

  -- `iter().rposition(p)`: the index of the last element that passes.
  abbrev pub rposition : (A → Bool) → List A → Option ℕ
  rposition p [] = none
  rposition p (x ∷ xs) = elim (rposition p xs) [
    | some i ↦ some (suc i)
    | none ↦ if p x then some 0 else none
  ]

  pub length-append : (xs ys : List A) → length (xs ++ ys) ≡ length xs + length ys
  length-append [] ys = omega arith
  length-append (x ∷ xs) ys = omega (arith, length-append xs ys)

  pub take-append-drop : (n : ℕ) (xs : List A) → take n xs ++ drop n xs ≡ xs
  take-append-drop zero xs = refl
  take-append-drop (suc n) [] = refl
  take-append-drop (suc n) (x ∷ xs) = ap (◌∷◌ x) (take-append-drop n xs)

  pub length-take : (n : ℕ) (xs : List A) → length (take n xs) ≡ min n (length xs)
  length-take zero xs = omega arith
  length-take (suc n) [] = omega arith
  length-take (suc n) (x ∷ xs) = omega (arith, length-take n xs)

  pub length-drop : (n : ℕ) (xs : List A) → length (drop n xs) ≡ length xs - n
  length-drop zero xs = omega arith
  length-drop (suc n) [] = omega arith
  length-drop (suc n) (x ∷ xs) = omega (arith, length-drop n xs)

  pub drop-append : (xs ys : List A) → drop (length xs) (xs ++ ys) ≡ ys
  drop-append [] ys = refl
  drop-append (x ∷ xs) ys = drop-append xs ys

  pub take-append : (xs ys : List A) → take (length xs) (xs ++ ys) ≡ xs
  take-append [] ys = refl
  take-append (x ∷ xs) ys = ap (◌∷◌ x) (take-append xs ys)

  pub take_all : (n : ℕ) (xs : List A) → length xs ≤ n → take n xs ≡ xs
  take_all zero [] h = refl
  take_all zero (x ∷ xs) h = absurd (omega arith)
  take_all (suc n) [] h = refl
  take_all (suc n) (x ∷ xs) h = ap (◌∷◌ x) (take_all n xs (omega arith))

  pub kept : (k : ℕ) (a b : List A) → length a ≡ k → take k (a ++ b) ≡ a
  kept k a b size = ap (λ j. take j (a ++ b)) (sym size) ∙ take-append a b

  middle_lem : (a o b : List A) → drop (length a) (take (length a + length o) (a ++ (o ++ b))) ≡ o
  middle_lem [] o b = ap (λ j. take j (o ++ b)) (omega arith) ∙ take-append o b
  middle_lem (x ∷ a) o b =
      ap (λ j. drop (length (x ∷ a)) (take j (x ∷ (a ++ (o ++ b)))))
        (suc_plus (length a) (length o))
      ∙ middle_lem a o b

  pub middle :
      (k : ℕ) (a o b : List A) → length a ≡ k → drop k (take (k + length o) (a ++ (o ++ b))) ≡ o
  middle k a o b size =
      ap (λ j. drop j (take (j + length o) (a ++ (o ++ b)))) (sym size) ∙ middle_lem a o b
