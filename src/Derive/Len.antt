-- ===== src/Derive/Len.antt =====
-- The lengths of the types of arguments: atat/src/derive.rs and atat_derive/src/len.rs.
pub mod Fit
pub mod Bounds
use atat.Base.{ℕ, ◌+◌, ◌-◌, Bool, ltb, if◌then◌else◌}

-- The types of numbers that are integers of up to 64 bits.
pub data Number : Type 0 where
  u8 u16 u32 u64 usize i8 i16 i32 i64 isize : Number

mutual
  pub data ArgType : Type 0 where
    number : Number → ArgType
    char bool : ArgType
    string bytes : ℕ → ArgType
    option reference : ArgType → ArgType
    structure : ArgFields → ArgType
    enumeration : Number → Variants → ArgType

  -- A field, with the attribute `len` or without, where a `&str` with it is a case of its own.
  pub data ArgField : Type 0 where
    plain : ArgType → ArgField
    with_len : ℕ → ArgType → ArgField
    str_with_len : ℕ → ArgField

  pub data ArgFields : Type 0 where
    end : ArgFields
    next : ArgField → ArgFields → ArgFields

  -- The variants of an enum with their fields, none where it is a unit variant.
  pub data Variants : Type 0 where
    no_variant : Variants
    variant : ArgFields → Variants → Variants

abbrev pub number_len : Number → ℕ
number_len Number.u8 = 3
number_len Number.u16 = 5
number_len Number.u32 = 10
number_len Number.u64 = 20
number_len Number.usize = 20
number_len Number.i8 = 4
number_len Number.i16 = 6
number_len Number.i32 = 11
number_len Number.i64 = 20
number_len Number.isize = 19

-- `n_fields`
abbrev pub count : ArgFields → ℕ
count end = 0
count (next f fs) = count fs + 1

unfoldable mutual
  -- `AtatLen::LEN`
  pub len : ArgType → ℕ
  len (ArgType.number k) = number_len k
  len ArgType.char = 1
  len ArgType.bool = 5
  len (ArgType.string n) = 1 + n + 1
  len (ArgType.bytes n) = n
  len (ArgType.option t) = len t
  len (ArgType.reference t) = len t
  len (ArgType.structure fs) = struct_len fs (count fs - 1)
  len (ArgType.enumeration repr vs) = number_len repr + enum_len vs 0

  -- The length of a field of a struct.
  pub struct_field_len : ArgField → ℕ
  struct_field_len (plain t) = len t
  struct_field_len (with_len n t) = n
  struct_field_len (str_with_len n) = 1 + n + 1

  pub struct_len : ArgFields → ℕ → ℕ
  struct_len end sum = sum
  struct_len (next f fs) sum = struct_len fs (struct_field_len f + sum)

  -- The length of a field of a variant, which counts no quotes.
  pub variant_field_len : ArgField → ℕ
  variant_field_len (plain t) = len t
  variant_field_len (with_len n t) = n
  variant_field_len (str_with_len n) = n

  pub fields_len : ArgFields → ℕ → ℕ
  fields_len end sum = sum
  fields_len (next f fs) sum = fields_len fs (sum + variant_field_len f + 1)

  -- The longest variant.
  pub enum_len : Variants → ℕ → ℕ
  enum_len no_variant longest = longest
  enum_len (variant fs vs) longest =
      enum_len vs (if ltb (fields_len fs 0) longest then longest else fields_len fs 0)
