-- ===== src/SerdeAt/Signed.antt =====
-- Signed numbers that serde_at/src/ser/mod.rs writes and serde_at/src/de/mod.rs reads.
use atat.Base.{
  ℕ, zero, suc, ◌+◌, ◌-◌, ◌^◌, ◌≤◌, ◌<◌, ◌≡◌, refl, sym, ap, ◌∙◌, Bool, true, false, [], ◌∷◌, ◌++◌,
  append-nil, ◌==◌, Bytes, length, take, drop, length-take, kept, middle, leb, le→leb, if_true,
  if_false, ok, arith,
}
use atat.Base.Int.{ℤ, pos, negsuc}
use atat.Base.Outcome.{done}
use atat.SerdeAt.De.{
  is_space, in_range, skip_whitespace, number_loop, to_signed, magnitudes, with_signed, signed_from,
  sign_first, deserialize_signed,
}
use atat.SerdeAt.Ser.{Serializer, serialize_signed, extend_from_slice}
use atat.SerdeAt.Ser.Text.{decimal_text, length-decimal_text, unsigned_digits-decimal_text}
use atat.SerdeAt.Ser.Fields.{IsSigned, signed_text}
use atat.SerdeAt.Ser.Writes.{signed_runs}
use atat.SerdeAt.Digits.{digits_lem}
use atat.SerdeAt.Numbers.{NoDigitFirst, loop_ends}

-- The text of a number is a digit other than zero, and digits that are read behind it.
record Magnitude (bound i v : ℕ) (rest : Bytes) : Type 0 where
  first : ℕ
  others : Bytes
  text : decimal_text i v ≡ first ∷ others
  low : b'1' ≤ first
  high : first ≤ b'9'
  reads : number_loop bound (first - b'0') (others ++ rest) ≡ ok (v, rest)

magnitude_lem :
    (bound i v : ℕ) (rest : Bytes)
    → v < bound
    → 0 < v
    → v < 10 ^ i
    → 0 < i
    → NoDigitFirst rest
    → Magnitude bound i v rest
magnitude_lem bound i v rest lt some few places free =
    let x = digits_lem i bound v rest lt some few in
    let y = digits_lem i bound v [] lt some few in
    let alone : done (y.first ∷ y.others) ≡ done (decimal_text i v ++ []) =
      sym y.runs ∙ unsigned_digits-decimal_text i v [] places few in
    let whole : done (x.first ∷ x.others) ≡ done (decimal_text i v ++ rest) =
      sym x.runs ∙ unsigned_digits-decimal_text i v rest places few in
    let bare : decimal_text i v ++ [] ≡ y.first ∷ y.others = cc in
    let joined : x.first ∷ x.others ≡ decimal_text i v ++ rest = cc in
    let text : decimal_text i v ≡ y.first ∷ y.others = sym (append-nil (decimal_text i v)) ∙ bare in
    let same : x.first ∷ x.others ≡ y.first ∷ (y.others ++ rest) =
      joined ∙ ap (λ xs. xs ++ rest) text in
    let head : x.first ≡ y.first = cc in
    let tail : x.others ≡ y.others ++ rest = cc in
    record {
      first = y.first;
      others = y.others;
      text = text;
      low = y.low;
      high = y.high;
      reads =
          ap (λ c. number_loop bound (c - b'0') (y.others ++ rest)) (sym head)
          ∙ ap (number_loop bound (x.first - b'0')) (sym tail)
          ∙ x.reads
          ∙ loop_ends bound v rest free;
    }

-- A magnitude other than zero is read with its sign.
magnitude_read :
    (negative : Bool) (half i v : ℕ) (rest : Bytes)
    → v < magnitudes negative half
    → 0 < v
    → v < 10 ^ i
    → 0 < i
    → NoDigitFirst rest
    → signed_from negative half (decimal_text i v ++ rest) ≡ ok (to_signed negative v, rest)
unfolding signed_from
magnitude_read negative half i v rest lt some few places free =
    let x = magnitude_lem (magnitudes negative half) i v rest lt some few places free in
    ap (λ xs. signed_from negative half (xs ++ rest)) x.text
    ∙ if_false (x.first == b'0') _ _ (ground (arith, x.low))
    ∙ if_true (in_range b'1' b'9' x.first) _ _ (ground (arith, x.low, x.high))
    ∙ ap (with_signed negative) x.reads

-- A digit in front is no sign.
unsigned_read :
    (half c : ℕ) (cs : Bytes)
    → b'0' ≤ c
    → c ≤ b'9'
    → deserialize_signed half (c ∷ cs) ≡ signed_from false half (c ∷ cs)
unfolding deserialize_signed skip_whitespace
unsigned_read half c cs low high =
    ap (sign_first half) (if_false (is_space c) (skip_whitespace cs) (c ∷ cs) (ground arith))
    ∙ if_false (c == b'-') _ _ (ground arith)

pub positive_read :
    (half i v : ℕ) (rest : Bytes)
    → v < half
    → v < 10 ^ i
    → 0 < i
    → NoDigitFirst rest
    → deserialize_signed half (decimal_text i v ++ rest) ≡ ok (pos v, rest)
unfolding decimal_text deserialize_signed signed_from skip_whitespace
positive_read half zero v rest lt few places free = absurd (omega arith)
positive_read half (suc i) zero rest lt few places free = refl
positive_read half (suc i) (suc v) rest lt few places free =
    let x = magnitude_lem half (suc i) (suc v) rest lt (omega arith) few places free in
    ap (λ xs. deserialize_signed half (xs ++ rest)) x.text
    ∙ unsigned_read half x.first (x.others ++ rest) (omega (arith, x.low)) x.high
    ∙ ap (λ xs. signed_from false half (xs ++ rest)) (sym x.text)
    ∙ magnitude_read false half (suc i) (suc v) rest lt (omega arith) few places free

pub signed_read :
    (n half : ℕ) (v : ℤ) (rest : Bytes)
    → IsSigned n half v
    → NoDigitFirst rest
    → deserialize_signed half (signed_text n v ++ rest) ≡ ok (v, rest)
unfolding deserialize_signed skip_whitespace
signed_read n half (pos v) rest (places, lt, fits) free =
    positive_read half (n - 1) v rest lt (omega arith) (omega arith) free
signed_read n half (negsuc v) rest (places, lt, fits) free =
    let next : v + 1 ≡ suc v = omega arith in
    magnitude_read true half (n - 1) (v + 1) rest (omega arith) (omega arith) (omega arith)
      (omega arith) free
    ∙ ap (λ k. ok (to_signed true k, rest)) next

signed_text-length : (n half : ℕ) (v : ℤ) → IsSigned n half v → length (signed_text n v) ≤ n
signed_text-length n half (pos v) (places, lt, fits) = omega (arith, length-decimal_text (n - 1) v)
signed_text-length n half (negsuc v) (places, lt, fits) =
    omega (arith, length-decimal_text (n - 1) (v + 1))

-- A number of a signed type, whose places have room for its digits and a sign, which is serialized
-- with room for those places, is written without a panic or an error behind what was written before,
-- and deserialized to the same number from the bytes that were written, whatever stands behind them
-- that is no digit, which is left.
pub deserialize_signed-serialize_signed :
    (n half : ℕ) (v : ℤ) (s : Serializer) (rest : Bytes)
    → IsSigned n half v
    → s.written + n ≤ length s.buf
    → NoDigitFirst rest
    → (t : Serializer) × (serialize_signed n half v s ≡ done (ok t))
      × (take s.written t.buf ≡ take s.written s.buf)
      × (deserialize_signed half (drop s.written (take t.written t.buf) ++ rest) ≡ ok (v, rest))
unfolding extend_from_slice
deserialize_signed-serialize_signed n half v s rest fine room free =
    let out = signed_text n v in
    let front = take s.written s.buf in
    let behind = drop (s.written + length out) s.buf in
    let size : length front ≡ s.written = omega (arith, length-take s.written s.buf) in
    (
      record s { buf = front ++ (out ++ behind); written = s.written + length out },
      signed_runs n half v s fine
          ∙ ap done (
              if_true (leb (s.written + length out) (length s.buf)) _ _
                (le→leb _ _ (omega (arith, signed_text-length n half v fine)))),
      kept s.written front (out ++ behind) size,
      ap (λ x. deserialize_signed half (x ++ rest)) (middle s.written front out behind size)
          ∙ signed_read n half v rest fine free,
    )
