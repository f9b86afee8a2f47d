-- ===== src/Derive/Len/Fit.antt =====
-- The values of each type of argument, as its `Serialize` hands them to the serializer.
use atat.Base.{ℕ, ◌^◌, ◌<◌, ◌≤◌, ◌≡◌, Bool, true, false, List, Bytes, length}
use atat.Base.Int.{ℤ}
use atat.SerdeAt.Ser.Value.{Value, Fields, no_more, field}
use atat.SerdeAt.Ser.Fields.{IsSigned, IsArgument, size_of}
use atat.Extern.Texts.{concat}
use atat.Derive.Len.{
  Number, ArgType, ArgField, plain, with_len, str_with_len, ArgFields, end, next, Variants, variant,
}

-- The number of a type, which has at most 32 bits where its size is the target's.
pub data IsNumber : Number → Value → Type 0 where
  is_u8 : (v : ℕ) → v < 2 ^ 8 → IsNumber Number.u8 (Value.unsigned 3 v)
  is_u16 : (v : ℕ) → v < 2 ^ 16 → IsNumber Number.u16 (Value.unsigned 5 v)
  is_u32 : (v : ℕ) → v < 2 ^ 32 → IsNumber Number.u32 (Value.unsigned 10 v)
  is_u64 : (v : ℕ) → v < 2 ^ 64 → IsNumber Number.u64 (Value.unsigned 20 v)
  is_usize : (v : ℕ) → v < 2 ^ 32 → IsNumber Number.usize (Value.unsigned 20 v)
  is_i8 : (v : ℤ) → IsSigned 4 (2 ^ 7) v → IsNumber Number.i8 (Value.signed 4 (2 ^ 7) v)
  is_i16 : (v : ℤ) → IsSigned 6 (2 ^ 15) v → IsNumber Number.i16 (Value.signed 6 (2 ^ 15) v)
  is_i32 : (v : ℤ) → IsSigned 11 (2 ^ 31) v → IsNumber Number.i32 (Value.signed 11 (2 ^ 31) v)
  is_i64 : (v : ℤ) → IsSigned 20 (2 ^ 63) v → IsNumber Number.i64 (Value.signed 20 (2 ^ 63) v)
  is_isize : (v : ℤ) → IsSigned 11 (2 ^ 31) v → IsNumber Number.isize (Value.signed 20 (2 ^ 63) v)

-- With `quotes`, texts are put in quotes.
module _ (quotes : Bool) where
  mutual
    pub data Fits : ArgType → Value → Type 0 where
      number : (k : Number) (v : Value) → IsNumber k v → Fits (ArgType.number k) v
      char : (c : Bytes) → length c ≡ 1 → Fits ArgType.char (Value.char c)
      bool : (b : Bool) → Fits ArgType.bool (Value.bool b)
      string :
          (n : ℕ) (cs : List Bytes)
          → length (concat cs) ≤ n
          → Fits (ArgType.string n) (Value.str cs)
      bytes : (n : ℕ) (bs : Bytes) → length bs ≤ n → Fits (ArgType.bytes n) (Value.bytes bs)
      absent : (t : ArgType) → Fits (ArgType.option t) Value.none
      present : (t : ArgType) (v : Value) → Fits t v → Fits (ArgType.option t) (Value.some v)
      reference : (t : ArgType) (v : Value) → Fits t v → Fits (ArgType.reference t) v
      structure :
          (fs : ArgFields) (vs : Fields)
          → FieldsFit false fs vs
          → Fits (ArgType.structure fs) (Value.struct vs)
      unit_variant :
          (repr : Number) (variants : Variants) (v : Value)
          → IsNumber repr v
          → Fits (ArgType.enumeration repr variants) v
      tuple_variant :
          (repr : Number) (variants : Variants) (places index : ℕ) (v : Value) (vs : Fields)
          → IsNumber repr (Value.unsigned places index)
          → index < 2 ^ 32
          → VariantFits variants (field v vs)
          → Fits (ArgType.enumeration repr variants) (Value.tuple_variant index (field v vs))
      struct_variant :
          (repr : Number) (variants : Variants) (places index : ℕ) (v : Value) (vs : Fields)
          → IsNumber repr (Value.unsigned places index)
          → index < 2 ^ 32
          → VariantFits variants (field v vs)
          → Fits (ArgType.enumeration repr variants) (Value.struct_variant index (field v vs))

    -- With the attribute `len`, that the value fits is left to who writes it. Where the flag says that
    -- the field is one of a variant, the length of a `&str` counts its quotes.
    pub data FieldFits : Bool → ArgField → Value → Type 0 where
      plain_fits :
          (in_variant : Bool) (t : ArgType) (v : Value)
          → Fits t v
          → FieldFits in_variant (plain t) v
      len_fits :
          (in_variant : Bool) (n : ℕ) (t : ArgType) (v : Value)
          → IsArgument v
          → size_of quotes v ≤ n
          → FieldFits in_variant (with_len n t) v
      str_fits :
          (n : ℕ) (cs : List Bytes)
          → length (concat cs) ≤ n
          → FieldFits false (str_with_len n) (Value.str cs)
      quoted_fits :
          (n : ℕ) (cs : List Bytes)
          → size_of quotes (Value.str cs) ≤ n
          → FieldFits true (str_with_len n) (Value.str cs)

    pub data FieldsFit : Bool → ArgFields → Fields → Type 0 where
      all_fit : (in_variant : Bool) → FieldsFit in_variant end no_more
      next_fits :
          (in_variant : Bool) (f : ArgField) (fs : ArgFields) (v : Value) (vs : Fields)
          → FieldFits in_variant f v
          → FieldsFit in_variant fs vs
          → FieldsFit in_variant (next f fs) (field v vs)

    -- The fields are those of one of the variants.
    pub data VariantFits : Variants → Fields → Type 0 where
      here :
          (fs : ArgFields) (variants : Variants) (vs : Fields)
          → FieldsFit true fs vs
          → VariantFits (variant fs variants) vs
      there :
          (fs : ArgFields) (variants : Variants) (vs : Fields)
          → VariantFits variants vs
          → VariantFits (variant fs variants) vs
