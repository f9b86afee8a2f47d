-- ===== src/SerdeAt/Numbers.antt =====
-- Unsigned numbers that serde_at/src/ser/mod.rs writes and serde_at/src/de/mod.rs reads.
use atat.Base.{
  ℕ, zero, suc, ◌+◌, ◌-◌, ◌^◌, ◌≤◌, ◌<◌, ◌≡◌, refl, sym, ap, ◌∙◌, false, [], ◌∷◌, ◌++◌, ◌==◌, Bytes,
  length, take, drop, length-take, kept, middle, leb, le→leb, if_true, if_false, ok, arith,
}
use atat.Base.Outcome.{done}
use atat.SerdeAt.De.{
  is_space, number_loop, number_from, skip_whitespace, deserialize_unsigned, in_range,
}
use atat.SerdeAt.Ser.{Serializer, serialize_unsigned, extend_from_slice, unsigned_digits}
use atat.SerdeAt.Digits.{digits_lem, digits-append, digits-length}

-- What follows the number does not go on with a digit.
abbrev pub NoDigitFirst : Bytes → Type 0
NoDigitFirst [] = Unit
NoDigitFirst (c ∷ cs) = in_range b'0' b'9' c ≡ false

pub loop_ends :
    (bound v : ℕ) (rest : Bytes) → NoDigitFirst rest → number_loop bound v rest ≡ ok (v, rest)
unfolding number_loop
loop_ends bound v [] h = refl
loop_ends bound v (c ∷ cs) h = if_false (in_range b'0' b'9' c) _ _ h

read_digits :
    (bound c : ℕ) (cs : Bytes)
    → b'1' ≤ c
    → c ≤ b'9'
    → deserialize_unsigned bound (c ∷ cs) ≡ number_loop bound (c - b'0') cs
unfolding deserialize_unsigned number_from skip_whitespace
read_digits bound c cs low high =
    ap (number_from bound) (if_false (is_space c) (skip_whitespace cs) (c ∷ cs) (ground arith))
    ∙ if_false (c == b'-') _ _ (ground arith)
    ∙ if_false (c == b'0') _ _ (ground arith)
    ∙ if_true (in_range b'1' b'9' c) _ _ (ground arith)

pub unsigned_RoundTrip :
    (n bound v : ℕ) (rest : Bytes)
    → 0 < n
    → v < bound
    → bound ≤ 10 ^ n
    → NoDigitFirst rest
    → (out : Bytes) × (unsigned_digits n v [] ≡ done out)
      × (length out ≤ n)
      × (deserialize_unsigned bound (out ++ rest) ≡ ok (v, rest))
unfolding unsigned_digits deserialize_unsigned number_from skip_whitespace
unsigned_RoundTrip zero bound v rest pos lt fits free = absurd (omega arith)
unsigned_RoundTrip (suc n) bound zero rest pos lt fits free = (b'0' ∷ [], refl, omega arith, refl)
unsigned_RoundTrip (suc n) bound (suc v) rest pos lt fits free =
    let x = digits_lem (suc n) bound (suc v) rest lt (omega arith) (omega arith) in
    let y = digits_lem (suc n) bound (suc v) [] lt (omega arith) (omega arith) in
    let out = y.first ∷ y.others in
    let whole : done (out ++ rest) ≡ done (x.first ∷ x.others) =
      sym (digits-append (suc n) (suc v) [] out rest y.runs) ∙ x.runs in
    let same : out ++ rest ≡ x.first ∷ x.others = cc in
    (
      out,
      y.runs,
      omega (arith, digits-length (suc n) (suc v) [] out y.runs),
      ap (deserialize_unsigned bound) same
          ∙ read_digits bound x.first x.others x.low x.high
          ∙ x.reads
          ∙ loop_ends bound (suc v) rest free,
    )

-- A number of an unsigned type whose numbers have at most `n` digits, which is serialized with room
-- for `n` digits, is written without a panic or an error behind what was written before, and
-- deserialized to the same number from the bytes that were written, whatever stands behind them that
-- is no digit, which is left.
pub deserialize_unsigned-serialize_unsigned :
    (n bound v : ℕ) (s : Serializer) (rest : Bytes)
    → 0 < n
    → v < bound
    → bound ≤ 10 ^ n
    → s.written + n ≤ length s.buf
    → NoDigitFirst rest
    → (t : Serializer) × (serialize_unsigned n v s ≡ done (ok t))
      × (take s.written t.buf ≡ take s.written s.buf)
      × (deserialize_unsigned bound (drop s.written (take t.written t.buf) ++ rest) ≡ ok (v, rest))
unfolding serialize_unsigned extend_from_slice
deserialize_unsigned-serialize_unsigned n bound v s rest pos lt fits room free =
    let (out, runs, short, back) = unsigned_RoundTrip n bound v rest pos lt fits free in
    let front = take s.written s.buf in
    let behind = drop (s.written + length out) s.buf in
    let size : length front ≡ s.written = omega (arith, length-take s.written s.buf) in
    (
      record s { buf = front ++ (out ++ behind); written = s.written + length out },
      rw runs (
          ap done
            (if_true (leb (s.written + length out) (length s.buf)) _ _ (le→leb _ _ (omega arith)))),
      kept s.written front (out ++ behind) size,
      ap (λ x. deserialize_unsigned bound (x ++ rest)) (middle s.written front out behind size)
          ∙ back,
    )
