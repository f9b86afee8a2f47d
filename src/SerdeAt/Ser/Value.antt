-- ===== src/SerdeAt/Ser/Value.antt =====
-- What `Serialize` implementations hand to the serializer of serde_at/src/ser/, and what it makes of it.
use atat.Base.{ℕ, Bool, true, false, List, Bytes, ◌&&◌, not, Result, ok, err}
use atat.Base.Int.{ℤ}
use atat.Base.Outcome.{Outcome, done, panic, out_of_fuel}
use atat.SerdeAt.Ser.{
  Serializer, SerializeOptions, SerError, Ser, ◌>>?◌, new_serializer, extend_from_slice, push,
  push_if, serialize_unsigned, serialize_signed, serialize_bool, serialize_str, serialize_none,
  serialize_unit_struct,
}

mutual
  -- A call of a method of the trait `Serializer`. Numbers come with the places of their type, and signed
  -- ones also with half the number of the type's values; characters are in UTF-8. `unsupported` are
  -- the methods that are `unreachable!()`.
  pub data Value : Type 0 where
    bool : Bool → Value
    unsigned : ℕ → ℕ → Value
    signed : ℕ → ℕ → ℤ → Value
    char : Bytes → Value
    str : List Bytes → Value
    bytes : Bytes → Value
    none unit_struct unsupported : Value
    some newtype_struct : Value → Value
    unit_variant : ℕ → Value
    newtype_variant : ℕ → Value → Value
    tuple_variant struct_variant : ℕ → Fields → Value
    struct : Fields → Value

  pub data Fields : Type 0 where
    no_more : Fields
    field : Value → Fields → Fields

-- `serialize_u32`
abbrev pub serialize_u32 : ℕ → Serializer → Ser
serialize_u32 = serialize_unsigned 10

-- The separator in front of a field of a struct.
abbrev pub struct_separator : Bool → Bool → Serializer → Ser
struct_separator nested true s = push_if (not nested && s.options.value_sep) b'=' s
struct_separator nested false s = done (push b',' s)

abbrev pub variant_separator : Bool → Serializer → Ser
variant_separator true s = done (ok s)
variant_separator false s = done (push b',' s)

-- `SerializeStruct::end`
abbrev pub struct_end : Bool → Serializer → Ser
struct_end true s = done (ok s)
struct_end false s = done (extend_from_slice s.options.termination s)

-- The beginning of `serialize_struct`, where the flag is `nested_struct`.
abbrev pub struct_begin : Bool → Serializer → Ser
struct_begin true s = done (ok s)
struct_begin false s =
    done (extend_from_slice s.options.cmd_prefix (record s { nested_struct = true })) >>? λ t.
    done (extend_from_slice t.cmd t)

-- The index of a variant, and the comma behind it.
unfoldable pub variant_begin : ℕ → Serializer → Ser
variant_begin index s = serialize_u32 index s >>? λ t. done (push b',' t)

unfoldable mutual
  pub serialize : Value → Serializer → Ser
  serialize (Value.bool b) s = serialize_bool b s
  serialize (Value.unsigned n v) s = serialize_unsigned n v s
  serialize (Value.signed n half v) s = serialize_signed n half v s
  serialize (Value.char c) s = done (extend_from_slice c s)
  serialize (Value.str v) s = serialize_str v s
  serialize (Value.bytes v) s = done (extend_from_slice v s)
  serialize Value.none s = serialize_none s
  serialize Value.unit_struct s = serialize_unit_struct s
  serialize Value.unsupported s = panic
  serialize (Value.some v) s = serialize v s
  serialize (Value.newtype_struct v) s = serialize v s
  serialize (Value.unit_variant index) s = serialize_u32 index s
  serialize (Value.newtype_variant index v) s = variant_begin index s >>? λ t. serialize v t
  serialize (Value.tuple_variant index vs) s =
      variant_begin index s >>? λ t. variant_fields true vs t
  serialize (Value.struct_variant index vs) s =
      variant_begin index s >>? λ t. variant_fields true vs t
  serialize (Value.struct vs) s =
      struct_begin s.nested_struct s >>? λ t. struct_fields s.nested_struct true vs t

  -- The calls of `SerializeStruct::serialize_field`, and `end`.
  pub struct_fields : Bool → Bool → Fields → Serializer → Ser
  struct_fields nested first no_more s = struct_end nested s
  struct_fields nested first (field v vs) s =
      struct_separator nested first s >>? (λ t. serialize v t) >>? λ u.
      struct_fields nested false vs u

  -- Those of `SerializeTupleVariant` and `SerializeStructVariant`.
  pub variant_fields : Bool → Fields → Serializer → Ser
  variant_fields first no_more s = done (ok s)
  variant_fields first (field v vs) s =
      variant_separator first s >>? (λ t. serialize v t) >>? λ u. variant_fields false vs u

abbrev pub to_written : Ser → Outcome (Result (ℕ × Bytes) SerError)
to_written (done (ok s)) = done (ok (s.written, s.buf))
to_written (done (err e)) = done (err e)
to_written panic = panic
to_written out_of_fuel = out_of_fuel

-- `to_slice`, which returns the number of bytes written, and leaves the buffer.
unfoldable pub to_slice :
    Value → Bytes → Bytes → SerializeOptions → Outcome (Result (ℕ × Bytes) SerError)
unfolding serialize
to_slice v cmd buf options = to_written (serialize v (new_serializer buf cmd options))
