-- ===== src/SerdeAt/LengthDelimited.antt =====
-- serde_at/src/de/length_delimited.rs: bytes behind their length.
pub mod Payload
mod Tests
use atat.Base.{
  ℕ, zero, suc, ◌+◌, ◌≤◌, ◌<◌, ◌≡◌, refl, sym, ap, ◌∙◌, Bool, true, false, ◌&&◌, Option, none, some,
  [], ◌∷◌, ◌++◌, append_assoc, ◌==◌, Bytes, length, take, drop, get_elem?, position, length-append,
  take-append, middle, leb, le→leb, if◌then◌else◌, if_true, if_false, Result, ok, err, arith,
}
use atat.Base.Outcome.{Outcome, done, panic, ◌>>=◌}
use atat.Extern.Heapless.{Heapless, IsHeapless}
use atat.SerdeAt.De.{DeError}

-- `LengthDelimited`: the length and the bytes.
pub record LengthDelimited : Type 0 where
  pub len : ℕ
  pub bytes : Bytes

abbrev pub Visited : Type 0
Visited = Outcome (Result LengthDelimited DeError)

-- `v[i] == b'"'`, where the index is in range.
abbrev pub is_quote : Option ℕ → Bool
is_quote (some c) = c == b'"'
is_quote none = false

abbrev pub in_quotes : ℕ → ℕ → Bytes → Bool
in_quotes start end v =
    leb (end + 2) (length v) && (is_quote (get_elem? v start) && is_quote (get_elem? v (end + 1)))

-- The parameters are `Bytes::from_slice`, the capacity `N`, and `from_utf8` with `parse` of the crate core.
module _ (h : Heapless) (n : ℕ) (parse_len : Bytes → Option ℕ) where
  abbrev pub to_delimited : ℕ → Option Bytes → Result LengthDelimited DeError
  to_delimited len (some bytes) = ok (record { len = len; bytes = bytes })
  to_delimited len none = err DeError.custom_error

  -- `Bytes::from_slice(&v[start..end])`
  unfoldable pub copy : ℕ → ℕ → ℕ → Bytes → Visited
  copy len start end v =
      if leb end (length v)
      then done (to_delimited len (h.from_slice n (drop start (take end v))))
      else panic

  unfoldable pub visit_payload : ℕ → ℕ → Bytes → Visited
  unfolding copy
  visit_payload len start v =
      if in_quotes start (start + len) v
      then copy len (start + 1) (start + len + 1) v
      else copy len start (start + len) v

  abbrev pub visit_len : ℕ → Bytes → Option ℕ → Visited
  visit_len pos v (some len) = visit_payload len (pos + 1) v
  visit_len pos v none = done (err DeError.custom_error)

  abbrev pub visit_behind : Bytes → Option ℕ → Visited
  visit_behind v (some pos) = visit_len pos v (parse_len (take pos v))
  visit_behind v none = done (err DeError.custom_error)

  unfoldable pub visit_delimited : Bytes → Visited
  unfolding visit_payload
  visit_delimited v = visit_behind v (position (λ c. c == b',') v)
