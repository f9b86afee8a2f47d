-- ===== src/SerdeAt/Deserializer/Seq.antt =====
-- The elements of a sequence: serde_at/src/de/seq.rs, and `deserialize_seq` and `deserialize_struct` of
-- serde_at/src/de/mod.rs.
use atat.Base.{
  ℕ, ◌+◌, ◌-◌, Bool, true, false, [], ◌∷◌, ◌==◌, ◌&&◌, Bytes, length, ltb, Option, none, some,
  if◌then◌else◌, ok, err,
}
use atat.SerdeAt.De.{DeError, skip_whitespace}
use atat.SerdeAt.Deserializer.{
  Deserializer, Read, ◌>>!◌, white, eat_char, parse_some, parse_at, index,
}

-- `SeqAccess`; its deserializer is the state.
pub record SeqAccess : Type 0 where
  pub first : Bool
  pub count : ℕ
  pub len : Option ℕ

-- `SeqAccess::new`
abbrev pub new_access : Deserializer → SeqAccess
new_access d = record { first = true; count = 0; len = d.struct_size_hint }

abbrev pub counted : SeqAccess → SeqAccess
counted a = record a { count = a.count + 1 }

-- The result of `seed.deserialize`.
abbrev pub element : {A : Type 0} → SeqAccess → Read A → Read (Option A × SeqAccess)
element a (ok v, d) = (ok (some v, counted a), d)
element a (err DeError.eof_while_parsing_object, d) = (ok (none, counted a), d)
element a (err e, d) = (err e, d)

module _ {A : Type 0} (read : Deserializer → Read A) where
  -- Without a comma, behind the first element: the last field of a struct takes the rest.
  abbrev pub element_unseparated : SeqAccess → Deserializer → Option ℕ → Read (Option A × SeqAccess)
  element_unseparated a d (some len) =
      if a.count == len - 1
      then element a (read (record d { is_trailing_parsing = true }))
      else (ok (none, a), d)
  element_unseparated a d none = (ok (none, a), d)

  -- The `match` on the character after whitespace.
  abbrev pub element_from : SeqAccess → Deserializer → Bytes → Read (Option A × SeqAccess)
  element_from a d [] = element a (read d)
  element_from a d (c ∷ cs) =
      if c == b','
      then parse_some (eat_char d) (λ c e. element a (read e))
      else if a.first
      then element (record a { first = false }) (read d)
      else if c == b'+'
      then element a (read d)
      else element_unseparated a d a.len

  -- `next_element_seed`
  unfoldable pub next_element : SeqAccess → Deserializer → Read (Option A × SeqAccess)
  next_element a d = element_from a (white d) (skip_whitespace d.rest)

-- `deserialize_seq`, with the visitor's `visit_seq`.
abbrev pub deserialize_seq :
    {A : Type 0} → (SeqAccess → Deserializer → Read A) → Deserializer → Read A
deserialize_seq visit d = visit (new_access d) d

abbrev pub without_hint : {A : Type 0} → Read A → Read A
without_hint (r, d) = (r, record d { struct_size_hint = none })

-- `deserialize_struct` of so many fields, with the visitor's `visit_seq`.
unfoldable pub deserialize_struct :
    {A : Type 0} → ℕ → (SeqAccess → Deserializer → Read A) → Deserializer → Read A
unfolding parse_at
deserialize_struct fields visit d = parse_at d >>! λ found e.
    if (index e == length e.slice) && ltb 0 (index e)
    then (err DeError.eof_while_parsing_object, e)
    else without_hint (deserialize_seq visit (record e { struct_size_hint = some fields }))
