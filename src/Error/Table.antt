-- ===== src/Error/Table.antt =====
-- A `match` with one arm for each number or text, and a last arm `_`, as a search of the list of arms.
use atat.Base.{
  ℕ, ◌≡◌, refl, sym, ◌∙◌, ◌⊎◌, inl, inr, List, [], ◌∷◌, ◌==◌, ==_iff, if◌then◌else◌, Bool-cases,
  Bytes, equal_bytes, equal_bytes→path,
}

module _ {ℓ} {E : Type ℓ} where
  unfoldable pub find_code : E → List (ℕ × E) → ℕ → E
  find_code other [] v = other
  find_code other ((k, e) ∷ arms) v = if v == k then e else find_code other arms v

  unfoldable pub find_text : E → List (Bytes × E) → Bytes → E
  find_text other [] v = other
  find_text other ((k, e) ∷ arms) v = if equal_bytes v k then e else find_text other arms v

  abbrev pub MatchesCodes : (E → ℕ) → List (ℕ × E) → Type 0
  MatchesCodes number [] = Unit
  MatchesCodes number ((k, e) ∷ arms) = (number e ≡ k) × MatchesCodes number arms

  abbrev pub MatchesTexts : (E → Bytes) → List (Bytes × E) → Type 0
  MatchesTexts text [] = Unit
  MatchesTexts text ((k, e) ∷ arms) = (text e ≡ k) × MatchesTexts text arms

  pub find_code-MatchesCodes :
      (other : E) (number : E → ℕ) (arms : List (ℕ × E))
      → MatchesCodes number arms
      → (v : ℕ) → (number (find_code other arms v) ≡ v) ⊎ (find_code other arms v ≡ other)
  unfolding find_code
  find_code-MatchesCodes other number [] h v = inr refl
  find_code-MatchesCodes other number ((k, e) ∷ arms) (h, t) v = elim (Bool-cases (v == k)) [
    | inl same ↦ rw same (inl (h ∙ sym ((==_iff v k).0 same)))
    | inr differ ↦ rw differ (find_code-MatchesCodes other number arms t v)
  ]

  pub find_text-MatchesTexts :
      (other : E) (text : E → Bytes) (arms : List (Bytes × E))
      → MatchesTexts text arms
      → (v : Bytes) → (text (find_text other arms v) ≡ v) ⊎ (find_text other arms v ≡ other)
  unfolding find_text
  find_text-MatchesTexts other text [] h v = inr refl
  find_text-MatchesTexts other text ((k, e) ∷ arms) (h, t) v = elim (Bool-cases (equal_bytes v k)) [
    | inl same ↦ rw same (inl (h ∙ sym (equal_bytes→path v k same)))
    | inr differ ↦ rw differ (find_text-MatchesTexts other text arms t v)
  ]
