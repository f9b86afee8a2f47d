-- ===== src/SerdeAt/HexStr/Back.antt =====
-- Hex strings that serde_at/src/ser/hex_str.rs writes and serde_at/src/de/hex_str.rs reads.
use native.Mathlib.Nat.{mod-eq_of_lt}
use atat.Base.{
  ℕ, zero, suc, ◌+◌, ◌*◌, ◌%◌, ◌^◌, ◌≤◌, ◌<◌, ◌≡◌, refl, ap, ◌∙◌, inl, inr, Bool-cases, [], ◌∷◌,
  ◌++◌, append-nil, Bytes, ltb, if_true, if_false, none, some, ok, arith,
}
use atat.Base.Outcome.{done}
use atat.Extern.Heapless.{Growing, IsGrowing, char_size}
use atat.SerdeAt.HexStr.{nibble, nibbles, value, visit_hex, visit_hex-value}
use atat.SerdeAt.HexStr.Write.{HexStr, hex_string}
use atat.SerdeAt.HexStr.Digits.{nibbles-append, value-skip_0x}
use atat.SerdeAt.HexStr.Written.{plain_hex-Written, delimited_hex-Written}

sixteen_power : (k : ℕ) → 2 ^ (4 * k) ≡ 16 ^ k
sixteen_power zero = refl
sixteen_power (suc k) =
    let four : 4 * suc k ≡ suc (suc (suc (suc (4 * k)))) = omega arith in
    ap (λ m. 2 ^ m) four ∙ omega (arith, sixteen_power k)

read_back :
    (size v : ℕ) (s : Bytes)
    → 0 < size
    → v < 16 ^ size
    → value (nibbles s) ≡ v
    → visit_hex some (4 * size) s ≡ ok v
read_back size v s places lt means =
    let small : v < 2 ^ (4 * size) = omega (arith, sixteen_power size) in
    visit_hex-value some (4 * size) s s refl (omega arith)
    ∙ ap (λ k. ok (k % 2 ^ (4 * size))) (value-skip_0x s ∙ means)
    ∙ ap ok (mod-eq_of_lt small)

nibbles_quoted : (s : Bytes) → nibbles (b'"' ∷ (s ++ (b'"' ∷ []))) ≡ nibbles s
unfolding nibbles nibble
nibbles_quoted s = nibbles-append s (b'"' ∷ []) ∙ append-nil (nibbles s)

-- With a lawful growing text, a hex string of a type of some number of hexadecimal digits, whose
-- delimiter is no hexadecimal digit, is written without a panic, with every setting of its flags,
-- where the one capacity has room for the digits and `0x` and the other also for a delimiter at
-- every digit; from what is written, with or without quotes around it, the visitor of the
-- deserializer reads the same number.
pub visit_hex-hex_string :
    (g : Growing) (len len_delimited size : ℕ) (x : HexStr)
    → IsGrowing g
    → nibble x.delimiter ≡ none
    → 0 < size
    → x.val < 16 ^ size
    → 2 + size ≤ len
    → 2 + (size + size * char_size x.delimiter) ≤ len_delimited
    → (s : Bytes) × (hex_string g len len_delimited size x ≡ done s)
      × (visit_hex some (4 * size) s ≡ ok x.val)
      × (visit_hex some (4 * size) (b'"' ∷ (s ++ (b'"' ∷ []))) ≡ ok x.val)
unfolding hex_string
visit_hex-hex_string g len len_delimited size x laws other places lt room room' =
    let back : (y : Bytes)
        → value (nibbles y) ≡ x.val
        → (visit_hex some (4 * size) y ≡ ok x.val)
          × (visit_hex some (4 * size) (b'"' ∷ (y ++ (b'"' ∷ []))) ≡ ok x.val) =
      λ y means. (
        read_back size x.val y places lt means,
        read_back size x.val _ places lt (ap value (nibbles_quoted y) ∙ means),
      ) in
    elim (Bool-cases (ltb 0 x.delimiter_after_nibble_count)) [
      | inl delimited ↦
          let y = delimited_hex-Written g laws size x places lt len_delimited other room' in
          (
            y.text,
            if_true _ _ _ delimited ∙ y.runs,
            (back y.text y.means).0,
            (back y.text y.means).1,
          )
      | inr plain ↦
          let y = plain_hex-Written g laws size x places lt len room in
          (y.text, if_false _ _ _ plain ∙ y.runs, (back y.text y.means).0, (back y.text y.means).1)
    ]
