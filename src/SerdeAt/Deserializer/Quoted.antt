-- ===== src/SerdeAt/Deserializer/Quoted.antt =====
-- Texts in quotes, which serde_at/src/de/mod.rs reads with `parse_str`.
use atat.Base.{
  ℕ, suc, ◌%◌, ◌≤◌, ◌≡◌, refl, sym, ap, ◌∙◌, Bool, true, false, not, inl, inr, Bool-cases, List, [],
  ◌∷◌, ◌++◌, ◌==◌, ==_iff, Bytes, length, some, if◌then◌else◌, if_true, if_false, ok, arith,
}
use atat.Extern.Texts.{Texts, IsTexts, concat}
use atat.SerdeAt.De.{skip_whitespace}
use atat.SerdeAt.Deserializer.{Deserializer, Read, ◌>>!◌, at}
use atat.SerdeAt.Deserializer.Text.{
  leading_backslashes, is_escaped, behind_char, str_loop, utf8_read, visited, str_found, parse_str,
  str_from, deserialize_str,
}

-- Whether a quote behind the text ends it, and none in it does, where the flag is whether what is
-- before the text escapes its first character.
unfoldable pub closes : Bool → Bytes → Bool
closes escaped [] = not escaped
closes escaped (c ∷ cs) =
    let plain = closes false cs in
    let turned = closes (not escaped) cs in
    if c == b'"' then (if escaped then plain else false) else if c == b'\\' then turned else plain

escaped-quote : (c : ℕ) (before : Bytes) → (c == b'\\') ≡ false → is_escaped (c ∷ before) ≡ false
unfolding is_escaped leading_backslashes
escaped-quote c before other =
    ap (λ k. k % 2 == 1) (if_false (c == b'\\') (suc (leading_backslashes before)) 0 other)

parity : (k : ℕ) → (suc k % 2 == 1) ≡ not (k % 2 == 1)
parity k = ground arith

escaped-backslash :
    (c : ℕ) (before : Bytes)
    → (c == b'\\') ≡ true
    → is_escaped (c ∷ before) ≡ not (is_escaped before)
unfolding is_escaped leading_backslashes
escaped-backslash c before same =
    ap (λ k. k % 2 == 1) (if_true (c == b'\\') (suc (leading_backslashes before)) 0 same)
    ∙ parity (leading_backslashes before)

first_closes : (e a : Bool) → (if e then a else false) ≡ true → (e ≡ true) × (a ≡ true)
first_closes true a h = (refl, h)
first_closes false a h = absurd cc

not_escaped : (e : Bool) → not e ≡ true → e ≡ false
not_escaped true h = absurd cc
not_escaped false h = refl

pub str_loop-closes :
    (before text rest : Bytes)
    → closes (is_escaped before) text ≡ true
    → str_loop before (text ++ (b'"' ∷ rest)) ≡ some (text, rest)
unfolding closes str_loop
str_loop-closes before [] rest h =
    if_false (is_escaped before) _ _ (not_escaped (is_escaped before) h)
str_loop-closes before (c ∷ cs) rest h =
    let e = is_escaped before in
    let later = str_loop (c ∷ before) (cs ++ (b'"' ∷ rest)) in
    elim (Bool-cases (c == b'"')) [
      | inl quote ↦
          let both : (if e then closes false cs else false) ≡ true =
            sym (if_true (c == b'"') _ _ quote) ∙ h in
          let (escaped, others) = first_closes e (closes false cs) both in
          let other : (c == b'\\') ≡ false = ground (arith, (==_iff c b'"').0 quote) in
          if_true (c == b'"') _ _ quote
          ∙ if_true e _ _ escaped
          ∙ ap (behind_char c) (
              str_loop-closes (c ∷ before) cs rest
                (ap (λ b. closes b cs) (escaped-quote c before other) ∙ others))
      | inr plain ↦
          let tail : (if c == b'\\' then closes (not e) cs else closes false cs) ≡ true =
            sym (if_false (c == b'"') _ _ plain) ∙ h in
          if_false (c == b'"') _ _ plain
          ∙ ap (behind_char c) (
              str_loop-closes (c ∷ before) cs rest (elim (Bool-cases (c == b'\\')) [
                | inl turns ↦
                    ap (λ b. closes b cs) (escaped-backslash c before turns)
                    ∙ sym (if_true (c == b'\\') _ _ turns)
                    ∙ tail
                | inr other ↦
                    ap (λ b. closes b cs) (escaped-quote c before other)
                    ∙ sym (if_false (c == b'\\') _ _ other)
                    ∙ tail
              ]))
    ]

-- A text in quotes is read up to its last quote.
pub quoted_read :
    (x : Texts) (laws : IsTexts x) (n : ℕ) (cs : List Bytes) (d : Deserializer) (rest : Bytes)
    → x.from_utf8 (concat cs) ≡ some cs
    → length (concat cs) ≤ n
    → closes false (concat cs) ≡ true
    → d.is_trailing_parsing ≡ false
    → deserialize_str x n (at (b'"' ∷ (concat cs ++ (b'"' ∷ rest))) d) ≡ (ok cs, at rest d)
unfolding deserialize_str str_from parse_str skip_whitespace
quoted_read x laws n cs d rest utf8 fits closed line =
    let visit : List Bytes → Deserializer → Read (List Bytes) =
      λ v e. (visited (x.visit_str n v), e) in
    ap (λ r. r >>! visit)
      (if_false d.is_trailing_parsing _ _ line
        ∙ ap (str_found x (at (concat cs ++ (b'"' ∷ rest)) d))
            (str_loop-closes [] (concat cs) rest closed)
        ∙ ap (utf8_read (at rest d)) utf8)
    ∙ ap (λ o. (visited o, at rest d)) (laws.visit_str-fits n cs fits)
