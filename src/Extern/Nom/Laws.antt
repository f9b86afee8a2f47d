-- ===== src/Extern/Nom/Laws.antt =====
-- What the documented parsers consume.
use atat.Base.{
  ℕ, ◌≡◌, refl, Bool, true, false, some, none, [], ◌∷◌, ◌++◌, Bytes, length, drop, Option-cases,
  inl, inr, arith,
}
use atat.Extern.Nom.Spec.{Comparison, compare_by, is_prefix, split_at, span}

-- A prefix compares equal, whatever letters are identified.
pub compare_by-is_prefix :
    (f : ℕ → ℕ) (t i : Bytes) → is_prefix t i ≡ true → compare_by f t i ≡ Comparison.match
unfolding compare_by is_prefix
compare_by-is_prefix f [] i h = refl
compare_by-is_prefix f (t ∷ ts) [] h = cc
compare_by-is_prefix f (t ∷ ts) (c ∷ cs) h = ground (arith, compare_by-is_prefix f ts cs)

pub is_prefix-append : (t i : Bytes) → is_prefix t (t ++ i) ≡ true
unfolding is_prefix
is_prefix-append [] i = refl
is_prefix-append (t ∷ ts) i = ground (arith, is_prefix-append ts i)

pub is_prefix-eq : (t i : Bytes) → is_prefix t i ≡ true → i ≡ t ++ drop (length t) i
unfolding is_prefix
is_prefix-eq [] i h = refl
is_prefix-eq (t ∷ ts) [] h = cc
is_prefix-eq (t ∷ ts) (c ∷ cs) h = ground (arith, is_prefix-eq ts cs)

pub split_at-some :
    (t i : Bytes) {a b : Bytes} → split_at t i ≡ some (a, b) → (i ≡ a ++ b) × (is_prefix t b ≡ true)
unfolding split_at
split_at-some t [] h = ground arith
split_at-some t (c ∷ cs) h = elim (Option-cases (split_at t cs)) [
  | inl e ↦ ground arith
  | inr ((a, b), e) ↦ ground (arith, split_at-some t cs e)
]

-- The tag does not begin at any byte of `a` in `a ++ b`.
abbrev pub Absent : Bytes → Bytes → Bytes → Type 0
Absent t [] b = Unit
Absent t (c ∷ cs) b = (is_prefix t (c ∷ (cs ++ b)) ≡ false) × Absent t cs b

pub split_at-first :
    (t a b : Bytes) → Absent t a (t ++ b) → split_at t (a ++ (t ++ b)) ≡ some (a, t ++ b)
unfolding split_at
split_at-first [] [] [] h = refl
split_at-first [] [] (c ∷ b) h = refl
split_at-first (t ∷ ts) [] b h = rw (is_prefix-append (t ∷ ts) b)
split_at-first t (c ∷ cs) b (p, q) = rw (p, split_at-first t cs b q)

-- The tag stands nowhere in `i`.
abbrev pub Missing : Bytes → Bytes → Type 0
Missing t [] = is_prefix t [] ≡ false
Missing t (c ∷ cs) = (is_prefix t (c ∷ cs) ≡ false) × Missing t cs

pub split_at-Missing : (t i : Bytes) → Missing t i → split_at t i ≡ none
unfolding split_at
split_at-Missing t [] h = rw h
split_at-Missing t (c ∷ cs) (p, q) = rw (p, split_at-Missing t cs q)

pub span-append : (p : ℕ → Bool) (i : Bytes) → i ≡ (span p i).0 ++ (span p i).1
unfolding span
span-append p [] = refl
span-append p (c ∷ cs) = ground (arith, span-append p cs)
