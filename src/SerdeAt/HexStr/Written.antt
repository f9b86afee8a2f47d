-- ===== src/SerdeAt/HexStr/Written.antt =====
-- That the texts of serde_at/src/ser/hex_str.rs have the digits of their numbers.
use mathlib.Core.List.{reverse, reverse-append, reverse-reverse}
use native.Mathlib.Nat.{add-mul}
use atat.Base.{
  ℕ, ◌+◌, ◌-◌, ◌*◌, ◌^◌, ◌≤◌, ◌<◌, ◌≡◌, refl, sym, ap, ◌∙◌, Bool, true, false, inl, inr, Bool-cases,
  [], ◌++◌, append_assoc, append-nil, Bytes, length, if◌then◌else◌, if_true, if_false, none, arith,
}
use atat.Base.Outcome.{Outcome, done, ◌>>=◌, unwrap}
use atat.Extern.Heapless.{Growing, IsGrowing, char_size, text_size}
use atat.SerdeAt.HexStr.{nibble, nibbles, value}
use atat.SerdeAt.HexStr.Write.{
  HexStr, hex_digits, prefix_0x, zeros, push_all, push_groups, delimited_hex, plain_hex,
}
use atat.SerdeAt.HexStr.Groups.{
  text_size-append, text_size-reverse, length-reverse, size-zeros, size-hex_digits, push_all-fits,
  push_groups-Grouped,
}
use atat.SerdeAt.HexStr.Digits.{
  nibbles-append, nibbles-reverse, value_zero, value-zeros, reverse-zeros, value-hex_digits,
}

prefix-value : (b : Bool) (r : Bytes) → value (nibbles (prefix_0x b ++ r)) ≡ value (nibbles r)
unfolding nibbles nibble
prefix-value true r = value_zero (nibbles r)
prefix-value false r = refl

prefix-size : (b : Bool) → text_size (prefix_0x b) ≤ 2
prefix-size true = omega arith
prefix-size false = omega arith

zeros-value : (k : ℕ) (r : Bytes) → value (nibbles (zeros k ++ r)) ≡ value (nibbles r)
zeros-value k r = ap value (nibbles-append (zeros k) r) ∙ value-zeros k (nibbles r)

-- The digits, from the last one on, with zeros behind them, the other way round.
turned :
    (p hex : Bytes) (k : ℕ)
    → nibbles p ≡ nibbles (reverse hex ++ zeros k)
    → value (nibbles (reverse p)) ≡ value (nibbles hex)
turned p hex k same =
    ap value (
      nibbles-reverse p
      ∙ ap reverse same
      ∙ sym (nibbles-reverse (reverse hex ++ zeros k))
      ∙ ap nibbles (reverse-append (reverse hex) (zeros k))
      ∙ ap (λ t. nibbles (t ++ reverse (reverse hex))) (reverse-zeros k)
      ∙ ap (λ t. nibbles (zeros k ++ t)) (reverse-reverse hex))
    ∙ zeros-value k hex

-- A text of this number.
pub record Written (x : HexStr) (run : Outcome Bytes) : Type 0 where
  pub text : Bytes
  pub runs : run ≡ done text
  pub means : value (nibbles text) ≡ x.val

module _ (g : Growing) (laws : IsGrowing g) (size : ℕ) (x : HexStr) (places : 0 < size)
    (lt : x.val < 16 ^ size) where
  pub plain_hex-Written : (len : ℕ) → 2 + size ≤ len → Written x (plain_hex g len size x)
  unfolding plain_hex
  plain_hex-Written len room =
      let hex = hex_digits x.hex_in_caps size x.val in
      let (short, same) = size-hex_digits x.hex_in_caps size x.val in
      let means = value-hex_digits x.hex_in_caps size x.val places lt in
      let start = prefix_0x x.add_0x_with_encoding in
      let small = prefix-size x.add_0x_with_encoding in
      let k = size - text_size hex in
      let (ks, kl) = size-zeros k in
      elim (Bool-cases x.skip_last_0_values) [
        | inl skips ↦ record {
          text = start ++ hex;
          runs =
              if_true x.skip_last_0_values _ _ skips
              ∙ ap unwrap (
                  laws.push_str-fits len [] (start ++ hex)
                    (omega (arith, text_size-append start hex, small, short)));
          means = prefix-value x.add_0x_with_encoding hex ∙ means;
        }
        | inr keeps ↦ record {
          text = (start ++ zeros k) ++ hex;
          runs =
              if_false x.skip_last_0_values _ _ keeps
              ∙ ap
                  (λ r. r >>= λ digits. push_all g len [] start >>= λ t.
                    push_all g len t (zeros (size - text_size digits)) >>= λ u.
                    push_all g len u digits)
                  (ap unwrap (laws.push_str-fits len [] hex (omega (arith, short))))
              ∙ ap (λ r. r >>= λ t. push_all g len t (zeros k) >>= λ u. push_all g len u hex)
                  (push_all-fits g laws len [] start (omega (arith, small)))
              ∙ ap (λ r. r >>= λ u. push_all g len u hex)
                  (push_all-fits g laws len start (zeros k) (omega (arith, small, ks)))
              ∙ push_all-fits g laws len (start ++ zeros k) hex
                  (omega (arith, text_size-append start (zeros k), small, ks, short));
          means =
              ap (λ t. value (nibbles t)) (append_assoc start (zeros k) hex)
              ∙ prefix-value x.add_0x_with_encoding (zeros k ++ hex)
              ∙ zeros-value k hex
              ∙ means;
        }
      ]

  -- What the loops have put together is turned round behind the prefix.
  turn :
      (n : ℕ) (p : Bytes) (k : ℕ)
      → nibbles p ≡ nibbles (reverse (hex_digits x.hex_in_caps size x.val) ++ zeros k)
      → 2 + text_size p ≤ n
      → Written x (
          push_all g n [] (prefix_0x x.add_0x_with_encoding) >>= λ start.
          push_all g n start (reverse p))
  turn n p k same room =
      let start = prefix_0x x.add_0x_with_encoding in
      let small = prefix-size x.add_0x_with_encoding in
      record {
        text = start ++ reverse p;
        runs =
            ap (λ r. r >>= λ t. push_all g n t (reverse p))
              (push_all-fits g laws n [] start (omega (arith, small)))
            ∙ push_all-fits g laws n start (reverse p) (omega (arith, small, text_size-reverse p));
        means =
            prefix-value x.add_0x_with_encoding (reverse p)
            ∙ turned p (hex_digits x.hex_in_caps size x.val) k same
            ∙ value-hex_digits x.hex_in_caps size x.val places lt;
      }

  pub delimited_hex-Written :
      (n : ℕ)
      → nibble x.delimiter ≡ none
      → 2 + (size + size * char_size x.delimiter) ≤ n
      → Written x (delimited_hex g n size x)
  unfolding delimited_hex nibbles
  delimited_hex-Written n other room =
      let hex = hex_digits x.hex_in_caps size x.val in
      let w = char_size x.delimiter in
      let count = x.delimiter_after_nibble_count in
      let (short, same) = size-hex_digits x.hex_in_caps size x.val in
      let k = size - text_size hex in
      let (ks, kl) = size-zeros k in
      let rs = text_size-reverse hex in
      let rl = length-reverse hex ∙ same in
      let all : size ≡ text_size hex + k = omega (arith, short) in
      let product : size * w ≡ text_size hex * w + k * w =
        ap (λ m. m * w) all ∙ add-mul (text_size hex) k w in
      let used : length (reverse hex) * w ≡ text_size hex * w = ap (λ m. m * w) rl in
      let more : length (zeros k) * w ≡ k * w = ap (λ m. m * w) kl in
      let y =
        push_groups-Grouped g laws n count x.delimiter 0 [] (reverse hex) other
          (omega (arith, rs, used, product, short)) in
      let z =
        push_groups-Grouped g laws n count x.delimiter (text_size hex) y.out (zeros k) other
          (omega (arith, y.size, rs, used, more, product, ks, all)) in
      let finish : Bytes → Outcome Bytes = λ p.
        push_all g n [] (prefix_0x x.add_0x_with_encoding) >>= λ start.
        push_all g n start (reverse p) in
      let behind : Bytes → Bytes → Outcome Bytes = λ string digits.
        (if x.skip_last_0_values
          then done digits
          else push_groups g n count x.delimiter (text_size string) digits
              (zeros (size - text_size string)))
        >>= finish in
      let begins : delimited_hex g n size x ≡ behind hex y.out =
        ap
          (λ r. r >>= λ string.
            push_groups g n count x.delimiter 0 [] (reverse string) >>= λ digits.
            behind string digits)
          (ap unwrap (laws.push_str-fits n [] hex (omega (arith, short))))
        ∙ ap (λ r. r >>= λ digits. behind hex digits) y.runs in
      elim (Bool-cases x.skip_last_0_values) [
        | inl skips ↦
            let last =
              turn n y.out 0 (y.same ∙ ap nibbles (sym (append-nil (reverse hex))))
                (omega (arith, y.size, rs, used, product, short)) in
            record {
              text = last.text;
              runs =
                  begins
                  ∙ ap (λ r. r >>= finish) (if_true x.skip_last_0_values _ _ skips)
                  ∙ last.runs;
              means = last.means;
            }
        | inr keeps ↦
            let last =
              turn n z.out k
                (z.same
                  ∙ ap (λ ds. ds ++ nibbles (zeros k)) y.same
                  ∙ sym (nibbles-append (reverse hex) (zeros k)))
                (omega (arith, z.size, y.size, rs, used, more, product, ks, all)) in
            record {
              text = last.text;
              runs =
                  begins
                  ∙ ap (λ r. r >>= finish) (if_false x.skip_last_0_values _ _ keeps ∙ z.runs)
                  ∙ last.runs;
              means = last.means;
            }
      ]
