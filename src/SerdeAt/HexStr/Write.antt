-- ===== src/SerdeAt/HexStr/Write.antt =====
-- serde_at/src/ser/hex_str.rs: the text that `Serialize` of a hex string of an unsigned integer makes.
use mathlib.Core.List.{reverse}
use atat.Base.{
  ℕ, zero, suc, ◌+◌, ◌-◌, ◌/◌, ◌%◌, Bool, true, false, not, ◌&&◌, [], ◌∷◌, ◌++◌, ◌==◌, Bytes, codes,
  ltb, if◌then◌else◌,
}
use atat.Base.Outcome.{Outcome, done, ◌>>=◌, unwrap}
use atat.Extern.Heapless.{Growing, text_size}

-- `HexStr<T>`
pub record HexStr : Type 0 where
  pub val : ℕ
  pub add_0x_with_encoding : Bool
  pub hex_in_caps : Bool
  pub delimiter_after_nibble_count : ℕ
  pub delimiter : ℕ
  pub skip_last_0_values : Bool

abbrev pub hex_digit : Bool → ℕ → ℕ
hex_digit caps d = if ltb d 10 then b'0' + d else (if caps then b'A' else b'a') + (d - 10)

-- `{val:X}` or `{val:x}` of the crate core, of a number of at most so many digits.
unfoldable pub hex_digits : Bool → ℕ → ℕ → Bytes
hex_digits caps zero v = []
hex_digits caps (suc i) v =
    let before = hex_digits caps i (v / 16) in
    (if v / 16 == 0 then [] else before) ++ (hex_digit caps (v % 16) ∷ [])

abbrev pub prefix_0x : Bool → Bytes
prefix_0x true = codes "0x"
prefix_0x false = []

abbrev pub zeros : ℕ → Bytes
zeros zero = []
zeros (suc n) = b'0' ∷ zeros n

module _ (g : Growing) where
  abbrev pub push : ℕ → Bytes → ℕ → Outcome Bytes
  push n s c = unwrap (g.push_str n s (c ∷ []))

  -- `for c in … { string.push(c).unwrap() }`
  unfoldable pub push_all : ℕ → Bytes → Bytes → Outcome Bytes
  push_all n s [] = done s
  push_all n s (c ∷ cs) = push n s c >>= λ t. push_all n t cs

  -- The loops over the digits, and over the zeros behind them, from an index on.
  unfoldable pub push_groups : ℕ → ℕ → ℕ → ℕ → Bytes → Bytes → Outcome Bytes
  push_groups n count delimiter index s [] = done s
  push_groups n count delimiter index s (c ∷ cs) =
      (if not (index == 0) && (index % count == 0) then push n s delimiter else done s)
      >>= (λ t. push n t c)
      >>= λ u. push_groups n count delimiter (index + 1) u cs

  -- The branch with a delimiter, where the type has `size` digits.
  unfoldable pub delimited_hex : ℕ → ℕ → HexStr → Outcome Bytes
  unfolding hex_digits push_groups push_all
  delimited_hex n size x =
      unwrap (g.push_str n [] (hex_digits x.hex_in_caps size x.val)) >>= λ string.
      push_groups n x.delimiter_after_nibble_count x.delimiter 0 [] (reverse string) >>= λ digits.
      (if x.skip_last_0_values
        then done digits
        else push_groups n x.delimiter_after_nibble_count x.delimiter (text_size string) digits
            (zeros (size - text_size string)))
      >>= λ placeholder. push_all n [] (prefix_0x x.add_0x_with_encoding) >>= λ start.
          push_all n start (reverse placeholder)

  -- The branch without one.
  unfoldable pub plain_hex : ℕ → ℕ → HexStr → Outcome Bytes
  unfolding hex_digits push_all
  plain_hex n size x =
      let hex = hex_digits x.hex_in_caps size x.val in
      if x.skip_last_0_values
      then unwrap (g.push_str n [] (prefix_0x x.add_0x_with_encoding ++ hex))
      else unwrap (g.push_str n [] hex) >>= λ digits.
          push_all n [] (prefix_0x x.add_0x_with_encoding) >>= λ start.
          push_all n start (zeros (size - text_size digits)) >>= λ string. push_all n string digits

  -- What is handed to `serialize_str`. The capacities are `$len` and `$len_delimited`.
  unfoldable pub hex_string : ℕ → ℕ → ℕ → HexStr → Outcome Bytes
  unfolding delimited_hex plain_hex
  hex_string len len_delimited size x =
      if ltb 0 x.delimiter_after_nibble_count
      then delimited_hex len_delimited size x
      else plain_hex len size x
