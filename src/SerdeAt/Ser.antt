-- ===== src/SerdeAt/Ser.antt =====
-- The serializer's buffer, and what it writes for numbers, texts and options: serde_at/src/ser/mod.rs.
pub mod Value
pub mod Emits
pub mod Text
pub mod Fields
pub mod Writes
pub mod Arguments
pub mod Command
pub mod Slice
use atat.Base.{
  ℕ, zero, suc, ◌+◌, ◌-◌, ◌/◌, ◌%◌, Bool, true, false, List, [], ◌∷◌, ◌++◌, ◌==◌, Bytes, codes,
  length, take, drop, leb, ltb, if◌then◌else◌, Result, ok, err,
}
use atat.Base.Int.{ℤ, pos, negsuc}
use atat.Base.Outcome.{Outcome, done, panic, out_of_fuel, ◌>>=◌}

pub data SerError : Type 0 where
  buffer_full : SerError

pub record SerializeOptions : Type 0 where
  pub value_sep : Bool
  pub cmd_prefix : Bytes
  pub termination : Bytes
  pub quote_escape_strings : Bool

abbrev pub default_options : SerializeOptions
default_options = record {
  value_sep = true;
  cmd_prefix = codes "AT";
  termination = codes "\r\n";
  quote_escape_strings = true;
}

pub record Serializer : Type 0 where
  pub buf : Bytes
  pub written : ℕ
  pub nested_struct : Bool
  pub cmd : Bytes
  pub options : SerializeOptions

abbrev pub new_serializer : Bytes → Bytes → SerializeOptions → Serializer
new_serializer buf cmd options = record {
  buf = buf;
  written = 0;
  nested_struct = false;
  cmd = cmd;
  options = options;
}

-- A method of the serializer: it may panic, and it may find the buffer full.
abbrev pub Ser : Type 0
Ser = Outcome (Result Serializer SerError)

-- The operator `?`.
infixl 5 ◌>>?◌
abbrev pub ◌>>?◌ : Ser → (Serializer → Ser) → Ser
done (ok s) >>? f = f s
done (err e) >>? f = done (err e)
panic >>? f = panic
out_of_fuel >>? f = out_of_fuel

unfoldable pub extend_from_slice : Bytes → Serializer → Result Serializer SerError
extend_from_slice other s =
    if leb (s.written + length other) (length s.buf)
    then ok (record s {
      buf = take s.written s.buf ++ (other ++ drop (s.written + length other) s.buf);
      written = s.written + length other;
    })
    else err buffer_full

unfoldable pub push : ℕ → Serializer → Result Serializer SerError
push c s =
    if ltb s.written (length s.buf)
    then ok (record s {
      buf = take s.written s.buf ++ (c ∷ drop (s.written + 1) s.buf);
      written = s.written + 1;
    })
    else err buffer_full

unfoldable pub commit : ℕ → Serializer → Result Serializer SerError
commit amount s =
    if leb (s.written + amount) (length s.buf)
    then ok (record s { written = s.written + amount })
    else err buffer_full

-- `if v == 0 { break; }`
abbrev pub unless_zero : Bool → Bytes → Outcome Bytes → Outcome Bytes
unless_zero true out rest = done out
unless_zero false out rest = rest

-- The loop of `serialize_unsigned!`, which fills an array from its end; the first number is that of the
-- places left. Where it has none, the index is out of range.
unfoldable pub unsigned_digits : ℕ → ℕ → Bytes → Outcome Bytes
unsigned_digits zero v out = panic
unsigned_digits (suc i) v out =
    let next = (v % 10 + b'0') ∷ out in
    let rest = unsigned_digits i (v / 10) next in unless_zero (v / 10 == 0) next rest

-- `serialize_unsigned!(self, n, v)`
unfoldable pub serialize_unsigned : ℕ → ℕ → Serializer → Ser
unfolding unsigned_digits
serialize_unsigned n v s = unsigned_digits n v [] >>= λ out. done (extend_from_slice out s)

-- The loop of `serialize_signed!`, in which the index is moved on before the test, so that the last
-- place is left for the sign.
unfoldable pub signed_digits : ℕ → ℕ → Bytes → Outcome Bytes
signed_digits zero v out = panic
signed_digits (suc zero) v out = panic
signed_digits (suc (suc i)) v out =
    let next = (v % 10 + b'0') ∷ out in
    let rest = signed_digits (suc i) (v / 10) next in unless_zero (v / 10 == 0) next rest

-- The sign and the magnitude, where `half` is one more than the greatest number of the type.
unfoldable pub signed_parts : ℕ → ℤ → Bool × ℕ
signed_parts half (pos n) = (false, n)
signed_parts half (negsuc n) = if n + 1 == half then (true, half - 1 + 1) else (true, n + 1)

abbrev pub with_sign : Bool → Bytes → Bytes
with_sign true out = b'-' ∷ out
with_sign false out = out

-- `serialize_signed!(self, n, v, …)`
unfoldable pub serialize_signed : ℕ → ℕ → ℤ → Serializer → Ser
unfolding signed_digits signed_parts
serialize_signed n half v s = signed_digits n (signed_parts half v).1 [] >>= λ out.
    done (extend_from_slice (with_sign (signed_parts half v).0 out) s)

unfoldable pub serialize_bool : Bool → Serializer → Ser
serialize_bool true s = done (extend_from_slice (codes "true") s)
serialize_bool false s = done (extend_from_slice (codes "false") s)

unfoldable pub push_if : Bool → ℕ → Serializer → Ser
unfolding push
push_if true c s = done (push c s)
push_if false c s = done (ok s)

-- The loop over the characters of a text, each in UTF-8.
unfoldable pub write_chars : List Bytes → Serializer → Ser
unfolding extend_from_slice
write_chars [] s = done (ok s)
write_chars (c ∷ cs) s = done (extend_from_slice c s) >>? write_chars cs

unfoldable pub serialize_str : List Bytes → Serializer → Ser
unfolding push_if write_chars
serialize_str v s = push_if s.options.quote_escape_strings b'"' s >>? write_chars v >>? λ t.
    push_if t.options.quote_escape_strings b'"' t

-- The separator in front of the field is taken back. At 0 the subtraction overflows.
abbrev pub one_less : ℕ → Serializer → Ser
one_less zero s = panic
one_less (suc n) s = done (ok (record s { written = n }))

unfoldable pub serialize_none : Serializer → Ser
serialize_none s = one_less s.written s

unfoldable pub serialize_unit_struct : Serializer → Ser
unfolding extend_from_slice
serialize_unit_struct s =
    done (extend_from_slice s.options.cmd_prefix s)
    >>? (λ t. done (extend_from_slice t.cmd t))
    >>? λ u. done (extend_from_slice u.options.termination u)
