-- ===== src/Derive/Len/Bounds.antt =====
-- A value of a type of arguments is written within the type's length: atat/src/derive.rs and
-- atat_derive/src/len.rs.
use atat.Base.{
  ℕ, ◌+◌, ◌-◌, ◌^◌, ◌<◌, ◌≤◌, ◌≡◌, ap, Bool, true, false, List, Bytes, length, ltb, if◌then◌else◌,
  arith,
}
use atat.Base.Int.{ℤ, pos, negsuc}
use atat.Extern.Texts.{concat}
use atat.SerdeAt.Ser.Value.{Value, Fields, field}
use atat.SerdeAt.Ser.Text.{decimal_text, length-decimal_text_below}
use atat.SerdeAt.Ser.Fields.{IsSigned, IsArgument, AreArguments, size_of, fields_size, signed_text}
use atat.Derive.Len.{
  Number, ArgType, ArgField, ArgFields, Variants, no_variant, variant, number_len, count, len,
  struct_field_len, struct_len, variant_field_len, fields_len, enum_len,
}
use atat.Derive.Len.Fit.{
  IsNumber, is_u8, is_u16, is_u32, is_u64, is_usize, is_i8, is_i16, is_i32, is_i64, is_isize, Fits,
  FieldFits, FieldsFit, VariantFits, plain_fits, len_fits, str_fits, quoted_fits, all_fit,
  next_fits, here, there,
}

signed-bound :
    (n half k : ℕ) (v : ℤ)
    → IsSigned n half v
    → 0 < k
    → half < 10 ^ k
    → length (signed_text n v) ≤ k + 1
signed-bound n half k (pos v) (places, lt, fits) some below =
    omega (arith, length-decimal_text_below (n - 1) v k some (omega arith))
signed-bound n half k (negsuc v) (places, lt, fits) some below =
    omega (arith, length-decimal_text_below (n - 1) (v + 1) k some (omega arith))

wide : (v : ℤ) → IsSigned 11 (2 ^ 31) v → IsSigned 20 (2 ^ 63) v
wide (pos v) (places, lt, fits) = (omega arith, omega arith, omega arith)
wide (negsuc v) (places, lt, fits) = (omega arith, omega arith, omega arith)

narrow : (v : ℤ) → IsSigned 11 (2 ^ 31) v → length (signed_text 20 v) ≤ 19
narrow (pos v) (places, lt, fits) =
    omega (arith, length-decimal_text_below 19 v 18 (omega arith) (omega arith))
narrow (negsuc v) (places, lt, fits) =
    omega (arith, length-decimal_text_below 19 (v + 1) 18 (omega arith) (omega arith))

module _ (q : Bool) where
  number-bound :
      (k : Number) (v : Value) → IsNumber k v → IsArgument v × (size_of q v ≤ number_len k)
  number-bound _ _ (is_u8 v lt) =
      ((omega arith, omega arith), length-decimal_text_below 3 v 3 (omega arith) (omega arith))
  number-bound _ _ (is_u16 v lt) =
      ((omega arith, omega arith), length-decimal_text_below 5 v 5 (omega arith) (omega arith))
  number-bound _ _ (is_u32 v lt) =
      ((omega arith, omega arith), length-decimal_text_below 10 v 10 (omega arith) (omega arith))
  number-bound _ _ (is_u64 v lt) =
      ((omega arith, omega arith), length-decimal_text_below 20 v 20 (omega arith) (omega arith))
  number-bound _ _ (is_usize v lt) =
      ((omega arith, omega arith), length-decimal_text_below 20 v 20 (omega arith) (omega arith))
  number-bound _ _ (is_i8 v fine) =
      (fine, signed-bound 4 (2 ^ 7) 3 v fine (omega arith) (omega arith))
  number-bound _ _ (is_i16 v fine) =
      (fine, signed-bound 6 (2 ^ 15) 5 v fine (omega arith) (omega arith))
  number-bound _ _ (is_i32 v fine) =
      (fine, signed-bound 11 (2 ^ 31) 10 v fine (omega arith) (omega arith))
  number-bound _ _ (is_i64 v fine) =
      (fine, signed-bound 20 (2 ^ 63) 19 v fine (omega arith) (omega arith))
  number-bound _ _ (is_isize v fine) = (wide v fine, narrow v fine)

-- The sum of the lengths of fields behind `sum`, with a comma for each.
abbrev total : Bool → ArgFields → ℕ → ℕ
unfolding struct_len fields_len
total true fs sum = fields_len fs sum
total false fs sum = struct_len fs sum + count fs

abbrev field_len : Bool → ArgField → ℕ
unfolding struct_field_len variant_field_len
field_len true f = variant_field_len f
field_len false f = struct_field_len f

longest-enum_len : (vs : Variants) (longest : ℕ) → longest ≤ enum_len vs longest
unfolding enum_len
longest-enum_len no_variant longest = omega arith
longest-enum_len (variant fs vs) longest = ground (
  arith,
  longest-enum_len vs (if ltb (fields_len fs 0) longest then longest else fields_len fs 0),
)

quote-bound :
    (q : Bool) (n : ℕ) (cs : List Bytes)
    → length (concat cs) ≤ n
    → size_of q (Value.str cs) ≤ 1 + n + 1
quote-bound true n cs le = omega arith
quote-bound false n cs le = omega arith

index-bound :
    (k : Number) (places index : ℕ)
    → IsNumber k (Value.unsigned places index)
    → index < 2 ^ 32
    → length (decimal_text 10 index) ≤ number_len k
index-bound _ _ _ (is_u8 v le) lt = length-decimal_text_below 10 v 3 (omega arith) (omega arith)
index-bound _ _ _ (is_u16 v le) lt = length-decimal_text_below 10 v 5 (omega arith) (omega arith)
index-bound _ _ _ (is_u32 v le) lt = length-decimal_text_below 10 v 10 (omega arith) (omega arith)
index-bound _ _ _ (is_u64 v le) lt = length-decimal_text_below 10 v 20 (omega arith) (omega arith)
index-bound _ _ _ (is_usize v le) lt = length-decimal_text_below 10 v 20 (omega arith) (omega arith)

module _ (q : Bool) where
  mutual
    unfolding len struct_field_len struct_len variant_field_len fields_len enum_len

    pub fits-bound : (t : ArgType) (v : Value) → Fits q t v → IsArgument v × (size_of q v ≤ len t)
    fits-bound _ _ (Fits.number k v is) = number-bound q k v is
    fits-bound _ _ (Fits.char c one) = (tt, omega arith)
    fits-bound _ _ (Fits.bool true) = (tt, omega arith)
    fits-bound _ _ (Fits.bool false) = (tt, omega arith)
    fits-bound _ _ (Fits.string n cs le) = (tt, quote-bound q n cs le)
    fits-bound _ _ (Fits.bytes n bs le) = (tt, le)
    fits-bound _ _ (Fits.absent t) = (tt, omega arith)
    fits-bound _ _ (Fits.present t v h) = fits-bound t v h
    fits-bound _ _ (Fits.reference t v h) = fits-bound t v h
    fits-bound _ _ (Fits.structure fs vs h) = structure-bound fs vs h
    fits-bound _ _ (Fits.unit_variant repr variants v is) =
        let (fine, size) = number-bound q repr v is in (fine, omega arith)
    fits-bound _ _ (Fits.tuple_variant repr variants places index v vs is lt h) =
        let (fine, size) = variant-bound variants (field v vs) h in
        ((omega arith, fine), omega (arith, size 0, index-bound repr places index is lt))
    fits-bound _ _ (Fits.struct_variant repr variants places index v vs is lt h) =
        let (fine, size) = variant-bound variants (field v vs) h in
        ((omega arith, fine), omega (arith, size 0, index-bound repr places index is lt))

    -- The fields of a struct, with commas between them.
    pub structure-bound :
        (fs : ArgFields) (vs : Fields)
        → FieldsFit q false fs vs
        → AreArguments vs × (fields_size q true vs ≤ struct_len fs (count fs - 1))
    structure-bound _ _ (all_fit _) = (tt, omega arith)
    structure-bound _ _ (next_fits _ f fs v vs h hs) =
        let (fine, size) = field-bound false f v h in
        let (others, sizes) = fields-bound false fs vs hs in
        let same : struct_field_len f + (count fs + 1 - 1) ≡ struct_field_len f + count fs =
          omega arith in
        (
          (fine, others),
          omega (arith, sizes (struct_field_len f + count fs), ap (struct_len fs) same),
        )

    field-bound :
        (b : Bool) (f : ArgField) (v : Value)
        → FieldFits q b f v
        → IsArgument v × (size_of q v ≤ field_len b f)
    field-bound _ _ _ (plain_fits true t v h) = fits-bound t v h
    field-bound _ _ _ (plain_fits false t v h) = fits-bound t v h
    field-bound _ _ _ (len_fits true n t v fine le) = (fine, le)
    field-bound _ _ _ (len_fits false n t v fine le) = (fine, le)
    field-bound _ _ _ (str_fits n cs le) = (tt, quote-bound q n cs le)
    field-bound _ _ _ (quoted_fits n cs le) = (tt, le)

    fields-bound :
        (b : Bool) (fs : ArgFields) (vs : Fields)
        → FieldsFit q b fs vs
        → AreArguments vs × ((sum : ℕ) → fields_size q false vs + sum ≤ total b fs sum)
    fields-bound _ _ _ (all_fit true) = (tt, λ sum. omega arith)
    fields-bound _ _ _ (all_fit false) = (tt, λ sum. omega arith)
    fields-bound _ _ _ (next_fits true f fs v vs h hs) =
        let (fine, size) = field-bound true f v h in
        let (others, sizes) = fields-bound true fs vs hs in
        ((fine, others), λ sum. omega (arith, sizes (sum + field_len true f + 1)))
    fields-bound _ _ _ (next_fits false f fs v vs h hs) =
        let (fine, size) = field-bound false f v h in
        let (others, sizes) = fields-bound false fs vs hs in
        ((fine, others), λ sum. omega (arith, sizes (field_len false f + sum)))

    variant-bound :
        (variants : Variants) (vs : Fields)
        → VariantFits q variants vs
        → AreArguments vs × ((longest : ℕ) → fields_size q false vs ≤ enum_len variants longest)
    variant-bound _ _ (here fs variants vs h) =
        let (fine, sizes) = fields-bound true fs vs h in
        (
          fine,
          λ longest. ground (
            arith,
            sizes 0,
            longest-enum_len variants
                (if ltb (fields_len fs 0) longest then longest else fields_len fs 0),
          ),
        )
    variant-bound _ _ (there fs variants vs h) =
        let (fine, sizes) = variant-bound variants vs h in
        (
          fine,
          λ longest. sizes (if ltb (fields_len fs 0) longest then longest else fields_len fs 0),
        )
