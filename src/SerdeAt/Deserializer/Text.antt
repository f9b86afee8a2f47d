-- ===== src/SerdeAt/Deserializer/Text.antt =====
-- Texts and bytes in serde_at/src/de/mod.rs.
use atat.Base.{
  ℕ, suc, ◌+◌, ◌/◌, ◌%◌, Bool, true, false, List, [], ◌∷◌, ◌==◌, ◌||◌, Bytes, length, take, drop,
  position, leb, Option, none, some, if◌then◌else◌, Result, ok, err,
}
use atat.Extern.Texts.{Texts}
use atat.SerdeAt.De.{DeError, in_range}
use atat.SerdeAt.Deserializer.{Deserializer, Read, ◌>>!◌, at, eat_char, parse_some, parse_at}

-- `leading_backslashes`, in the bytes before the index, the last one first. They end behind the quote
-- that begins the text.
unfoldable pub leading_backslashes : Bytes → ℕ
leading_backslashes [] = 0
leading_backslashes (c ∷ before) =
    let more = suc (leading_backslashes before) in if c == b'\\' then more else 0

unfoldable pub is_escaped : Bytes → Bool
unfolding leading_backslashes
is_escaped before = leading_backslashes before % 2 == 1

abbrev pub behind_char : ℕ → Option (Bytes × Bytes) → Option (Bytes × Bytes)
behind_char c (some (text, rest)) = some (c ∷ text, rest)
behind_char c none = none

-- The loop of `parse_str`: the text up to the quote that ends it, and what is behind the quote.
unfoldable pub str_loop : Bytes → Bytes → Option (Bytes × Bytes)
unfolding is_escaped
str_loop before [] = none
str_loop before (c ∷ cs) =
    let later = behind_char c (str_loop (c ∷ before) cs) in
    if c == b'"' then (if is_escaped before then later else some ([], cs)) else later

abbrev pub utf8_read : Deserializer → Option (List Bytes) → Read (List Bytes)
utf8_read d (some cs) = (ok cs, d)
utf8_read d none = (err DeError.invalid_unicode_code_point, d)

abbrev pub visited : {A : Type 0} → Option A → Result A DeError
visited (some a) = ok a
visited none = err DeError.custom_error

-- `is_alphabetic`, `is_numeric` and `is_whitespace` of the crate core, of a byte as a `char`.
abbrev pub is_alphabetic : ℕ → Bool
is_alphabetic c =
    in_range b'A' b'Z' c
    || (in_range b'a' b'z' c
        || ((c == 170)
            || ((c == 181)
                || ((c == 186)
                    || (in_range 192 214 c || (in_range 216 246 c || in_range 248 255 c))))))

abbrev pub is_numeric : ℕ → Bool
is_numeric c = in_range b'0' b'9' c || (in_range 178 179 c || ((c == 185) || in_range 188 190 c))

abbrev pub is_whitespace : ℕ → Bool
is_whitespace c = in_range 9 13 c || ((c == b' ') || ((c == 133) || (c == 160)))

-- The loop of `parse_bytes`: whether it comes to the end.
unfoldable pub are_words : Bytes → Bool
are_words [] = true
are_words (c ∷ cs) =
    let later = are_words cs in
    if (is_alphabetic c || is_numeric c) || is_whitespace c then later else false

unfoldable pub parse_bytes : Deserializer → Read Bytes
unfolding are_words
parse_bytes d =
    if d.is_trailing_parsing
    then (ok d.rest, at [] d)
    else if are_words d.rest
    then (ok d.rest, at [] d)
    else (err DeError.eof_while_parsing_string, d)

-- `peek as char`, in UTF-8.
abbrev pub char_of : ℕ → Bytes
char_of c = if leb c 127 then c ∷ [] else (192 + c / 64) ∷ (128 + c % 64) ∷ []

unfoldable pub deserialize_char : Deserializer → Read Bytes
deserialize_char d = parse_some d (λ c e. (ok (char_of c), eat_char e))

-- How many bytes there are before the next comma.
abbrev pub comma_index : Bytes → Option ℕ → ℕ
comma_index rest (some i) = i
comma_index rest none = length rest

abbrev pub bytes_visited : {A : Type 0} → ℕ → Deserializer → Result A DeError → Read A
bytes_visited idx d (ok a) = (ok a, at (drop idx d.rest) d)
bytes_visited idx d (err e) = (err e, d)

-- `deserialize_bytes`, with the visitor's `visit_bytes`.
unfoldable pub deserialize_bytes : {A : Type 0} → (Bytes → Result A DeError) → Deserializer → Read A
unfolding parse_at
deserialize_bytes visit d = parse_at d >>! λ found e.
    let idx = comma_index e.rest (position (λ c. c == b',') e.rest) in
    bytes_visited idx e (visit (take idx e.rest))

-- `deserialize_tuple`
unfoldable pub deserialize_tuple : {A : Type 0} → (Bytes → Result A DeError) → Deserializer → Read A
deserialize_tuple visit d = bytes_visited (length d.rest) d (visit d.rest)

module _ (x : Texts) where
  abbrev pub str_found : Deserializer → Option (Bytes × Bytes) → Read (List Bytes)
  str_found d (some (text, rest)) = utf8_read (at rest d) (x.from_utf8 text)
  str_found d none = (err DeError.eof_while_parsing_string, at [] d)

  unfoldable pub parse_str : Deserializer → Read (List Bytes)
  unfolding str_loop
  parse_str d =
      if d.is_trailing_parsing
      then utf8_read (at [] d) (x.from_utf8 d.rest)
      else str_found d (str_loop [] d.rest)

  unfoldable pub str_from : ℕ → ℕ → Deserializer → Read (List Bytes)
  unfolding parse_str parse_bytes
  str_from n c d =
      if c == b'"'
      then parse_str (eat_char d) >>! (λ cs e. (visited (x.visit_str n cs), e))
      else if is_alphabetic c
      then parse_bytes d >>! (λ bytes e. (visited (x.visit_bytes n bytes), e))
      else (err DeError.invalid_type, d)

  -- `deserialize_str`, with the visitor of `String<N>`.
  unfoldable pub deserialize_str : ℕ → Deserializer → Read (List Bytes)
  unfolding str_from
  deserialize_str n d = parse_some d (str_from n)
