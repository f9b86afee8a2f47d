-- ===== src/SerdeAt/HexStr/Groups.antt =====
-- The loops of serde_at/src/ser/hex_str.rs, and the room that they take.
use mathlib.Core.List.{reverse, reverse-append}
use native.Mathlib.Nat.{add-mul}
use atat.Base.{
  ℕ, zero, suc, ◌+◌, ◌*◌, ◌/◌, ◌%◌, ◌≤◌, ◌<◌, ◌≡◌, refl, sym, ap, ◌∙◌, Bool, true, false, not, inl,
  inr, Bool-cases, [], ◌∷◌, ◌++◌, append_assoc, append-nil, ◌==◌, ◌&&◌, Bytes, length,
  length-append, if◌then◌else◌, none, arith,
}
use atat.Base.Outcome.{Outcome, done, ◌>>=◌, unwrap}
use atat.Extern.Heapless.{Growing, IsGrowing, char_size, text_size}
use atat.SerdeAt.HexStr.{nibble, nibbles, nibbles-other}
use atat.SerdeAt.HexStr.Write.{hex_digit, hex_digits, zeros, push, push_all, push_groups}
use atat.SerdeAt.HexStr.Digits.{nibbles-append}

pub text_size-append : (a b : Bytes) → text_size (a ++ b) ≡ text_size a + text_size b
text_size-append [] b = omega arith
text_size-append (c ∷ cs) b = omega (arith, text_size-append cs b)

pub text_size-reverse : (s : Bytes) → text_size (reverse s) ≡ text_size s
text_size-reverse [] = refl
text_size-reverse (c ∷ cs) =
    ap text_size (reverse-append (c ∷ []) cs)
    ∙ text_size-append (reverse cs) (c ∷ [])
    ∙ omega (arith, text_size-reverse cs)

pub length-reverse : (s : Bytes) → length (reverse s) ≡ length s
length-reverse [] = refl
length-reverse (c ∷ cs) =
    ap length (reverse-append (c ∷ []) cs)
    ∙ length-append (reverse cs) (c ∷ [])
    ∙ omega (arith, length-reverse cs)

pub size-zeros : (k : ℕ) → (text_size (zeros k) ≡ k) × (length (zeros k) ≡ k)
size-zeros zero = (refl, refl)
size-zeros (suc k) = (omega (arith, size-zeros k), omega (arith, size-zeros k))

char_size-hex_digit : (caps : Bool) (d : ℕ) → d < 16 → char_size (hex_digit caps d) ≡ 1
char_size-hex_digit true d small = ground arith
char_size-hex_digit false d small = ground arith

-- The digits have at most so many places, each of one byte.
pub size-hex_digits :
    (caps : Bool) (i v : ℕ)
    → (text_size (hex_digits caps i v) ≤ i)
      × (length (hex_digits caps i v) ≡ text_size (hex_digits caps i v))
unfolding hex_digits
size-hex_digits caps zero v = (omega arith, refl)
size-hex_digits caps (suc i) v =
    let last = hex_digit caps (v % 16) in
    let before = hex_digits caps i (v / 16) in
    let pre : Bytes = if v / 16 == 0 then [] else before in
    let one = char_size-hex_digit caps (v % 16) (omega arith) in
    let rest : (text_size pre ≤ i) × (length pre ≡ text_size pre) =
      elim (Bool-cases (v / 16 == 0)) [
        | inl small ↦ rw small (omega arith, refl)
        | inr more ↦ rw more (size-hex_digits caps i (v / 16))
      ] in
    (
      omega (arith, text_size-append pre (last ∷ []), one, rest.0),
      omega (arith, text_size-append pre (last ∷ []), length-append pre (last ∷ []), one, rest.1),
    )

module _ (g : Growing) (laws : IsGrowing g) (n : ℕ) where
  push-fits :
      (s : Bytes) (c : ℕ) → text_size s + char_size c ≤ n → push g n s c ≡ done (s ++ (c ∷ []))
  push-fits s c fits = ap unwrap (laws.push_str-fits n s (c ∷ []) (omega arith))

  pub push_all-fits :
      (s cs : Bytes) → text_size s + text_size cs ≤ n → push_all g n s cs ≡ done (s ++ cs)
  unfolding push_all
  push_all-fits s [] fits = ap done (sym (append-nil s))
  push_all-fits s (c ∷ cs) fits =
      ap (λ r. r >>= λ t. push_all g n t cs) (push-fits s c (omega arith))
      ∙ push_all-fits (s ++ (c ∷ [])) cs (omega (arith, text_size-append s (c ∷ [])))
      ∙ ap done (append_assoc s (c ∷ []) cs)

  -- The characters are put behind the text, with delimiters, which are no digits.
  pub record Grouped (delimiter : ℕ) (s cs : Bytes) (run : Outcome Bytes) : Type 0 where
    pub out : Bytes
    pub runs : run ≡ done out
    pub same : nibbles out ≡ nibbles s ++ nibbles cs
    pub size : text_size out ≤ text_size s + text_size cs + length cs * char_size delimiter

  delimited :
      (b : Bool) (delimiter : ℕ) (s : Bytes)
      → nibble delimiter ≡ none
      → text_size s + char_size delimiter ≤ n
      → (t : Bytes) × ((if b then push g n s delimiter else done s) ≡ done t)
        × (nibbles t ≡ nibbles s)
        × (text_size t ≤ text_size s + char_size delimiter)
  unfolding nibbles
  delimited true delimiter s other fits = (
    s ++ (delimiter ∷ []),
    push-fits s delimiter fits,
    nibbles-append s (delimiter ∷ [])
        ∙ ap (λ ds. nibbles s ++ ds) (nibbles-other delimiter [] other)
        ∙ append-nil (nibbles s),
    omega (arith, text_size-append s (delimiter ∷ [])),
  )
  delimited false delimiter s other fits = (s, refl, refl, omega arith)

  pub push_groups-Grouped :
      (count delimiter index : ℕ) (s cs : Bytes)
      → nibble delimiter ≡ none
      → text_size s + text_size cs + length cs * char_size delimiter ≤ n
      → Grouped delimiter s cs (push_groups g n count delimiter index s cs)
  unfolding push_groups nibbles
  push_groups-Grouped count delimiter index s [] other fits = record {
    out = s;
    runs = refl;
    same = sym (append-nil (nibbles s));
    size = omega arith;
  }
  push_groups-Grouped count delimiter index s (c ∷ cs) other fits =
      let w = char_size delimiter in
      let step : length (c ∷ cs) * w ≡ w + length cs * w = omega (arith, add-mul 1 (length cs) w) in
      let (t, first, kept, grown) =
        delimited (not (index == 0) && (index % count == 0)) delimiter s other
          (omega (arith, step)) in
      let u = t ++ (c ∷ []) in
      let wide = text_size-append t (c ∷ []) in
      let later =
        push_groups-Grouped count delimiter (index + 1) u cs other (omega (arith, step, wide)) in
      record {
        out = later.out;
        runs =
            ap
              (λ r.
                r >>= (λ k. push g n k c) >>= λ k. push_groups g n count delimiter (index + 1) k cs)
              first
            ∙ ap (λ r. r >>= λ k. push_groups g n count delimiter (index + 1) k cs)
                (push-fits t c (omega (arith, step)))
            ∙ later.runs;
        same =
            later.same
            ∙ ap (λ ds. ds ++ nibbles cs)
                (nibbles-append t (c ∷ []) ∙ ap (λ ds. ds ++ nibbles (c ∷ [])) kept)
            ∙ append_assoc (nibbles s) (nibbles (c ∷ [])) (nibbles cs)
            ∙ ap (λ ds. nibbles s ++ ds) (sym (nibbles-append (c ∷ []) cs));
        size = omega (arith, later.size, step, wide);
      }
