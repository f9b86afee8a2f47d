-- ===== src/SerdeAt/Deserializer.antt =====
-- The deserializer of serde_at/src/de/mod.rs: its state, and what it does to read a value.
use atat.Base.{
  ℕ, ◌-◌, ◌<◌, Bool, true, false, [], ◌∷◌, ◌==◌, ◌&&◌, Bytes, codes, length, ltb, Option, none,
  some, if◌then◌else◌, Result, ok, err,
}
use atat.SerdeAt.De.{DeError, skip_whitespace}
pub mod Text
pub mod Quoted
pub mod Seq
pub mod Shape
pub mod Slice
pub mod Elements
pub mod Reads
pub mod Listed
pub mod Others
pub mod Answer
pub mod Trim
pub mod Lines
pub mod Heads
pub mod Ending
pub mod Message
pub mod Float
mod Tests

-- `Deserializer`, where `rest` is the slice from `index` on.
pub record Deserializer : Type 0 where
  pub slice : Bytes
  pub rest : Bytes
  pub struct_size_hint : Option ℕ
  pub is_trailing_parsing : Bool

-- `Deserializer::new`
abbrev pub new_deserializer : Bytes → Deserializer
new_deserializer s = record {
  slice = s;
  rest = s;
  struct_size_hint = none;
  is_trailing_parsing = false;
}

abbrev pub index : Deserializer → ℕ
index d = length d.slice - length d.rest

-- The index moves to where the given bytes are left.
abbrev pub at : Bytes → Deserializer → Deserializer
at rest d = record d { rest = rest }

-- A result with the state after it. Where a number is no number, the state is that before it.
abbrev pub Read : Type 0 → Type 0
Read A = Result A DeError × Deserializer

infixl 5 ◌>>!◌
abbrev pub ◌>>!◌ : {A B : Type 0} → Read A → (A → Deserializer → Read B) → Read B
(ok a, d) >>! f = f a d
(err e, d) >>! f = (err e, d)

-- After `parse_whitespace`
abbrev pub white : Deserializer → Deserializer
white d = at (skip_whitespace d.rest) d

-- `peek().ok_or(Error::EofWhileParsingValue)?`
abbrev pub peek_in : {A : Type 0} → Bytes → Deserializer → (ℕ → Deserializer → Read A) → Read A
peek_in [] d f = (err DeError.eof_while_parsing_value, d)
peek_in (c ∷ cs) d f = f c d

-- `parse_whitespace().ok_or(Error::EofWhileParsingValue)?`
abbrev pub parse_some : {A : Type 0} → Deserializer → (ℕ → Deserializer → Read A) → Read A
parse_some d f = peek_in (skip_whitespace d.rest) (white d) f

abbrev pub eat : Bytes → Bytes
eat [] = []
eat (c ∷ cs) = cs

-- `eat_char`, which is called behind a character.
abbrev pub eat_char : Deserializer → Deserializer
eat_char d = at (eat d.rest) d

abbrev pub end_at : Bytes → Deserializer → Read Unit
end_at [] d = (ok tt, d)
end_at (c ∷ cs) d = (err DeError.trailing_characters, d)

abbrev pub end : Deserializer → Read Unit
end d = end_at (skip_whitespace d.rest) (white d)

-- The bytes behind the identifier, where they begin with it.
abbrev pub ident_loop : Bytes → Bytes → Option Bytes
ident_loop [] rest = some rest
ident_loop (c ∷ ident) [] = none
ident_loop (c ∷ ident) (x ∷ rest) =
    let later = ident_loop ident rest in if x == c then later else none

abbrev pub ident_found : Deserializer → Option Bytes → Read Unit
ident_found d (some rest) = (ok tt, at rest d)
ident_found d none = (err DeError.expected_some_ident, d)

abbrev pub parse_ident : Bytes → Deserializer → Read Unit
parse_ident ident d = ident_found d (ident_loop ident d.rest)

-- The loop of `parse_at`: the bytes behind the next colon.
unfoldable pub colon_loop : Bytes → Option Bytes
colon_loop [] = none
colon_loop (c ∷ cs) = let later = colon_loop cs in if c == b':' then some cs else later

abbrev pub colon_found : Deserializer → Option Bytes → Read Bool
colon_found d (some cs) = parse_some (at cs d) (λ c e. (ok true, e))
colon_found d none = (ok false, d)

unfoldable pub plus_found : Bytes → Deserializer → Read Bool
unfolding colon_loop
plus_found [] d = (ok false, d)
plus_found (c ∷ cs) d = if c == b'+' then colon_found d (colon_loop (c ∷ cs)) else (ok false, d)

-- `parse_at`, where true is `Some(())`.
unfoldable pub parse_at : Deserializer → Read Bool
unfolding plus_found skip_whitespace
parse_at d = plus_found (skip_whitespace d.rest) (white d)

abbrev pub number_read : {A : Type 0} → Deserializer → Result (A × Bytes) DeError → Read A
number_read d (ok (n, rest)) = (ok n, at rest d)
number_read d (err e) = (err e, d)

abbrev pub bool_from : ℕ → Deserializer → Read Bool
bool_from c d =
    if c == b't'
    then parse_ident (codes "rue") (eat_char d) >>! (λ u e. (ok true, e))
    else if c == b'f'
    then parse_ident (codes "alse") (eat_char d) >>! (λ u e. (ok false, e))
    else (err DeError.invalid_type, d)

unfoldable pub deserialize_bool : Deserializer → Read Bool
deserialize_bool d = parse_some d bool_from
