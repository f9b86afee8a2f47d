-- ===== src/SerdeAt/Deserializer/Shape.antt =====
-- How the types that are derived read themselves: `deserialize_struct` of atat_derive/src/helpers.rs,
-- atat_derive/src/enum_.rs, and what serde_at/src/de/mod.rs and enum_.rs call for them.
use atat.Base.{
  ℕ, suc, ◌%◌, ◌^◌, Bool, false, [], ◌∷◌, ◌==◌, ◌||◌, Bytes, Option, none, some, if◌then◌else◌, ok,
  err,
}
use atat.Base.Int.{ℤ, pos, negsuc}
use atat.Extern.Texts.{Texts}
use atat.SerdeAt.De.{DeError, skip_whitespace, deserialize_unsigned, deserialize_signed}
use atat.SerdeAt.Ser.Value.{Value, Fields, no_more, field}
use atat.SerdeAt.Deserializer.{
  Deserializer, Read, ◌>>!◌, white, parse_some, parse_at, number_read, deserialize_bool,
}
use atat.SerdeAt.Deserializer.Text.{deserialize_char, deserialize_str, deserialize_bytes, visited}
use atat.SerdeAt.Deserializer.Seq.{SeqAccess, next_element, deserialize_seq, deserialize_struct}

mutual
  -- A type, as it reads itself. Numbers come as in `Value`, and unsigned ones also with one more than the
  -- greatest one; texts and bytes with their capacity.
  pub data Shape : Type 0 where
    bool char : Shape
    unsigned signed : ℕ → ℕ → Shape
    str bytes : ℕ → Shape
    option newtype_struct : Shape → Shape
    -- An unsigned `repr`, with its places and the number of its values.
    enumeration : ℕ → ℕ → Variants → Shape
    struct : Shapes → Shape

  pub data Shapes : Type 0 where
    no_shapes : Shapes
    shape : Shape → Shapes → Shapes

  -- The variants of an enum with their values, which are below 2^63.
  pub data Variants : Type 0 where
    no_variants : Variants
    variant : ℕ → VariantFields → Variants → Variants

  pub data VariantFields : Type 0 where
    unit named : VariantFields
    unnamed : Shapes → VariantFields

abbrev pub count_shapes : Shapes → ℕ
count_shapes no_shapes = 0
count_shapes (shape s ss) = suc (count_shapes ss)

-- `a == #val as i64`
abbrev pub is_value : ℤ → ℕ → Bool
is_value (pos n) val = n == val
is_value (negsuc n) val = false

-- What a visitor makes of the value that it is given.
abbrev pub read_map : {A B : Type 0} → (A → B) → Read A → Read B
read_map f x = x >>! λ a d. (ok (f a), d)

abbrev pub option_from : (Deserializer → Read Value) → Deserializer → Bytes → Read Value
option_from read d [] = (ok Value.none, d)
option_from read d (c ∷ cs) =
    if (c == b'+') || (c == b',') then (ok Value.none, d) else read_map Value.some (read d)

-- `deserialize_option`
unfoldable pub deserialize_option : (Deserializer → Read Value) → Deserializer → Read Value
deserialize_option read d = option_from read (white d) (skip_whitespace d.rest)

-- `deserialize_newtype_struct`
unfoldable pub deserialize_newtype_struct : (Deserializer → Read Value) → Deserializer → Read Value
unfolding parse_at
deserialize_newtype_struct read d = parse_at d >>! λ found e. read_map Value.newtype_struct (read e)

-- `deserialize_i64`
abbrev pub read_i64 : Deserializer → Read ℤ
unfolding deserialize_signed
read_i64 d = number_read d (deserialize_signed (2 ^ 63) d.rest)

-- `deserialize_enum`, with the visitor's `visit_enum`.
unfoldable pub deserialize_enum : (ℤ → Deserializer → Read Value) → Deserializer → Read Value
unfolding deserialize_signed
deserialize_enum visit d = parse_some d (λ c e. read_i64 e >>! visit)

-- `next_element()?.ok_or_else(…)?`, and the fields behind it.
abbrev pub with_field : Deserializer → Option Value → (Deserializer → Read Fields) → Read Fields
with_field d (some v) others = read_map (field v) (others d)
with_field d none others = (err DeError.custom_error, d)

module _ (x : Texts) where
  unfoldable mutual
    -- `Deserialize::deserialize`. A variant with fields that have names is not read.
    pub deserialize : Shape → Deserializer → Read Value
    deserialize Shape.bool d = read_map Value.bool (deserialize_bool d)
    deserialize Shape.char d = read_map Value.char (deserialize_char d)
    deserialize (Shape.unsigned n bound) d =
        read_map (Value.unsigned n) (number_read d (deserialize_unsigned bound d.rest))
    deserialize (Shape.signed n half) d =
        read_map (Value.signed n half) (number_read d (deserialize_signed half d.rest))
    deserialize (Shape.str n) d = read_map Value.str (deserialize_str x n d)
    deserialize (Shape.bytes n) d =
        read_map Value.bytes (deserialize_bytes (λ v. visited (x.visit_payload n v)) d)
    deserialize (Shape.option s) d = deserialize_option (λ e. deserialize s e) d
    deserialize (Shape.newtype_struct s) d = deserialize_newtype_struct (λ e. deserialize s e) d
    deserialize (Shape.enumeration n bound vs) d =
        deserialize_enum (λ i e. visit_enum n bound vs i e) d
    deserialize (Shape.struct ss) d =
        read_map Value.struct (deserialize_struct (count_shapes ss) (λ a e. visit_seq ss a e) d)

    -- The derived `visit_seq`.
    pub visit_seq : Shapes → SeqAccess → Deserializer → Read Fields
    visit_seq no_shapes a d = (ok no_more, d)
    visit_seq (shape s ss) a d = next_element (λ e. deserialize s e) a d >>! λ found e.
        with_field e found.0 (λ f. visit_seq ss found.1 f)

    -- The derived `visit_i64` and `visit_enum`.
    pub visit_enum : ℕ → ℕ → Variants → ℤ → Deserializer → Read Value
    visit_enum n bound no_variants i d = (err DeError.custom_error, d)
    visit_enum n bound (variant val fields vs) i d =
        let this = visit_variant n bound val fields d in
        let later = visit_enum n bound vs i d in if is_value i val then this else later

    pub visit_variant : ℕ → ℕ → ℕ → VariantFields → Deserializer → Read Value
    visit_variant n bound val VariantFields.unit d = (ok (Value.unsigned n (val % bound)), d)
    visit_variant n bound val VariantFields.named d = (err DeError.custom_error, d)
    visit_variant n bound val (VariantFields.unnamed ss) d =
        read_map (Value.tuple_variant (val % 2 ^ 32)) (deserialize_seq (λ a e. visit_seq ss a e) d)
