-- ===== src/Extern/Texts.antt =====
-- The texts of the crates core, heapless and heapless_bytes: `str::from_utf8`, and the visitors of
-- `String<N>` and `Bytes<N>`.
use atat.Base.{
  ℕ, ◌≤◌, ◌≡◌, ◌∙◌, List, [], ◌∷◌, ◌++◌, Bytes, length, Option, none, some, leb, le→leb,
  if◌then◌else◌, if_true,
}

-- The bytes of characters that are in UTF-8.
abbrev pub concat : List Bytes → Bytes
concat [] = []
concat (c ∷ cs) = c ++ concat cs

-- A text is its characters, in UTF-8.
pub record Texts : Type 0 where
  -- `str::from_utf8(s).ok()`
  pub from_utf8 : Bytes → Option (List Bytes)
  -- `visit_str` of the visitor of `String<N>`, where an error is none.
  pub visit_str : ℕ → List Bytes → Option (List Bytes)
  -- Its `visit_bytes`.
  pub visit_bytes : ℕ → Bytes → Option (List Bytes)
  -- `visit_bytes` of the visitor of `Bytes<N>` of heapless_bytes.
  pub visit_payload : ℕ → Bytes → Option Bytes

-- A text that fits the capacity is copied, also when it comes as its bytes, and so are bytes.
pub record IsTexts (x : Texts) : Type 0 where
  pub visit_str-fits :
      (n : ℕ) (cs : List Bytes) → length (concat cs) ≤ n → x.visit_str n cs ≡ some cs
  pub visit_bytes-fits :
      (n : ℕ) (bytes : Bytes) (cs : List Bytes)
      → x.from_utf8 bytes ≡ some cs
      → length bytes ≤ n
      → x.visit_bytes n bytes ≡ some cs
  pub visit_payload-fits :
      (n : ℕ) (bytes : Bytes) → length bytes ≤ n → x.visit_payload n bytes ≡ some bytes

-- Texts in ASCII.
abbrev pub ascii_chars : Bytes → Option (List Bytes)
ascii_chars [] = some []
ascii_chars (c ∷ cs) = elim (ascii_chars cs) [
  | some rest ↦ if leb c 127 then some ((c ∷ []) ∷ rest) else none
  | none ↦ none
]

abbrev pub ascii : Texts
ascii = record {
  from_utf8 = ascii_chars;
  visit_str = λ n cs. if leb (length (concat cs)) n then some cs else none;
  visit_bytes = λ n bytes. if leb (length bytes) n then ascii_chars bytes else none;
  visit_payload = λ n bytes. if leb (length bytes) n then some bytes else none;
}

pub ascii-IsTexts : IsTexts ascii
ascii-IsTexts = record {
  visit_str-fits = λ n cs fits. if_true (leb (length (concat cs)) n) _ _ (le→leb _ _ fits);
  visit_bytes-fits =
      λ n bytes cs same fits. if_true (leb (length bytes) n) _ _ (le→leb _ _ fits) ∙ same;
  visit_payload-fits = λ n bytes fits. if_true (leb (length bytes) n) _ _ (le→leb _ _ fits);
}
