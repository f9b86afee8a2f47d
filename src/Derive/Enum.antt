-- ===== src/Derive/Enum.antt =====
-- What `#[derive(AtatEnum)]` writes for an enum: `Serialize` and `TryFrom` of atat_derive/src/enum_.rs.
use mathlib.Core.Option
use mathlib.Core.Path.{subst}
use native.Mathlib.Nat.{mod-eq_of_lt}
use atat.Base.{
  ℕ, zero, suc, ◌%◌, ◌^◌, ◌<◌, ◌≡◌, refl, sym, ap, ◌∙◌, Bool, true, false, inl, inr, Bool-cases,
  Option, none, some, ◌==◌, ==_iff, if◌then◌else◌, if_true, if_false, ok, Bytes, ◌++◌, arith,
}
use atat.Extern.Texts.{Texts, IsTexts}
use atat.SerdeAt.Ser.Value.{Value, Fields}
use atat.SerdeAt.Deserializer.Shape.{
  Shape, Variants, no_variants, variant, VariantFields, deserialize,
}
use atat.SerdeAt.Deserializer.{Deserializer, at}
use atat.SerdeAt.Numbers.{NoDigitFirst}
use atat.SerdeAt.Deserializer.Reads.{deserialize-shown}
use atat.SerdeAt.Deserializer.Elements.{is_unit, read_unit, shown}

-- What a variant with the value hands to the serializer, where `n` is the places of `repr`, and `bound` the
-- number of its values.
unfoldable pub serialize_variant : ℕ → ℕ → ℕ → VariantFields → Fields → Value
serialize_variant n bound val VariantFields.unit vs = Value.unsigned n (val % bound)
serialize_variant n bound val VariantFields.named vs = Value.struct_variant (val % 2 ^ 32) vs
serialize_variant n bound val (VariantFields.unnamed ss) vs = Value.tuple_variant (val % 2 ^ 32) vs

-- `Serialize::serialize` of the variant of the given index, with its fields.
unfoldable pub serialize_enum : ℕ → ℕ → Variants → ℕ → Fields → Option Value
unfolding serialize_variant
serialize_enum n bound no_variants i vs = none
serialize_enum n bound (variant val fields others) zero vs =
    some (serialize_variant n bound val fields vs)
serialize_enum n bound (variant val fields others) (suc i) vs = serialize_enum n bound others i vs

-- `TryFrom::try_from`, of which there is none for an enum with other than unit variants: the index of the
-- variant.
unfoldable pub try_from : ℕ → Variants → ℕ → Option ℕ
try_from bound no_variants value = none
try_from bound (variant val fields others) value =
    let later = Option.map suc (try_from bound others value) in
    if value == val % bound then some 0 else later

-- Units with values of `repr`.
abbrev pub AreUnits : ℕ → Variants → Type 0
AreUnits bound no_variants = Unit
AreUnits bound (variant val VariantFields.unit others) = (val < bound) × AreUnits bound others
AreUnits bound (variant val VariantFields.named others) = ⊥
AreUnits bound (variant val (VariantFields.unnamed ss) others) = ⊥

-- No variant has the value.
abbrev pub IsOther : ℕ → Variants → Type 0
IsOther value no_variants = Unit
IsOther value (variant val fields others) = ((value == val) ≡ false) × IsOther value others

abbrev pub AreDistinct : Variants → Type 0
AreDistinct no_variants = Unit
AreDistinct (variant val fields others) = IsOther val others × AreDistinct others

-- The variant of the index has the value.
abbrev pub HasValue : Variants → ℕ → ℕ → Type 0
HasValue no_variants i value = ⊥
HasValue (variant val fields others) zero value = val ≡ value
HasValue (variant val fields others) (suc i) value = HasValue others i value

not_other : (vs : Variants) (i value : ℕ) → IsOther value vs → HasValue vs i value → ⊥
not_other no_variants i value h has = has
not_other (variant val fields others) zero value (different, rest) has = ground arith
not_other (variant val fields others) (suc i) value (different, rest) has =
    not_other others i value rest has

distinct_first :
    (val value i : ℕ) (others : Variants)
    → IsOther val others
    → HasValue others i value
    → (value == val) ≡ false
distinct_first val value i others other has = elim (Bool-cases (value == val)) [
  | inr different ↦ different
  | inl same ↦
      let at_val : HasValue others i val =
        subst (λ k. HasValue others i k) ((==_iff value val).0 same) has in
      absurd (not_other others i val other at_val)
]

value_below :
    (bound : ℕ) (vs : Variants) (i value : ℕ)
    → AreUnits bound vs
    → HasValue vs i value
    → value < bound
value_below bound no_variants i value units has = absurd has
value_below bound (variant val VariantFields.unit others) zero value units has =
    subst (λ k. k < bound) has units.0
value_below bound (variant val VariantFields.unit others) (suc i) value units has =
    value_below bound others i value units.1 has
value_below bound (variant val VariantFields.named others) i value units has = absurd units
value_below bound (variant val (VariantFields.unnamed ss) others) i value units has = absurd units

same_value :
    (bound val value : ℕ)
    → val < bound
    → (b : Bool) → (value == val) ≡ b
    → (value == val % bound) ≡ b
same_value bound val value fits b h = ap (λ k. value == k) (mod-eq_of_lt fits) ∙ h

try_from-index :
    (bound : ℕ) (vs : Variants) (i value : ℕ)
    → AreUnits bound vs
    → AreDistinct vs
    → HasValue vs i value
    → try_from bound vs value ≡ some i
unfolding try_from
try_from-index bound no_variants i value units h has = absurd has
try_from-index bound (variant val VariantFields.unit others) zero value units h has =
    if_true (value == val % bound) _ _
      (same_value bound val value units.0 true ((==_iff value val).1 (sym has)))
try_from-index bound (variant val VariantFields.unit others) (suc i) value units (other, rest) has =
    if_false (value == val % bound) _ _
      (same_value bound val value units.0 false (distinct_first val value i others other has))
    ∙ ap (Option.map suc) (try_from-index bound others i value units.1 rest has)
try_from-index bound (variant val VariantFields.named others) i value units h has = absurd units
try_from-index bound (variant val (VariantFields.unnamed ss) others) i value units h has =
    absurd units

serialize_enum-unit :
    (n bound : ℕ) (vs : Variants) (i value : ℕ) (fs : Fields)
    → AreUnits bound vs
    → HasValue vs i value
    → serialize_enum n bound vs i fs ≡ some (Value.unsigned n value)
unfolding serialize_enum serialize_variant
serialize_enum-unit n bound no_variants i value fs units has = absurd has
serialize_enum-unit n bound (variant val VariantFields.unit others) zero value fs units has =
    ap (λ k. some (Value.unsigned n k)) (mod-eq_of_lt units.0 ∙ has)
serialize_enum-unit n bound (variant val VariantFields.unit others) (suc i) value fs units has =
    serialize_enum-unit n bound others i value fs units.1 has
serialize_enum-unit n bound (variant val VariantFields.named others) i value fs units has =
    absurd units
serialize_enum-unit n bound (variant val (VariantFields.unnamed ss) others) i value fs units has =
    absurd units

unit_found :
    (bound : ℕ) (vs : Variants) (i value : ℕ)
    → AreUnits bound vs
    → HasValue vs i value
    → is_unit value vs ≡ true
unit_found bound no_variants i value units has = absurd has
unit_found bound (variant val VariantFields.unit others) zero value units has =
    if_true (value == val) _ _ ((==_iff value val).1 (sym has))
unit_found bound (variant val VariantFields.unit others) (suc i) value units has =
    elim (Bool-cases (value == val)) [
      | inl same ↦ if_true (value == val) _ _ same
      | inr other ↦ if_false (value == val) _ _ other ∙ unit_found bound others i value units.1 has
    ]
unit_found bound (variant val VariantFields.named others) i value units has = absurd units
unit_found bound (variant val (VariantFields.unnamed ss) others) i value units has = absurd units

-- With lawful texts, for an enum of unit variants with an unsigned `repr`, and with distinct values
-- of its `repr`, below 2^63 and within its places, the value that the derived `Serialize` hands over
-- for a variant is the number of the variant, the derived `Deserialize` reads its text to the same
-- value and leaves what is behind it, and the derived `TryFrom` makes the variant of the number.
pub deserialize-serialize_enum :
    (x : Texts) (n bound i value : ℕ) (vs : Variants) (fs : Fields) (d : Deserializer)
    (rest : Bytes)
    → IsTexts x
    → AreUnits bound vs
    → AreDistinct vs
    → HasValue vs i value
    → 0 < n
    → value < 10 ^ n
    → value < 2 ^ 63
    → NoDigitFirst rest
    → d.is_trailing_parsing ≡ false
    → (v : Value) × (serialize_enum n bound vs i fs ≡ some v)
      × (deserialize x (Shape.enumeration n bound vs) (at (shown v ++ rest) d) ≡ (ok v, at rest d))
      × (v ≡ Value.unsigned n value)
      × (try_from bound vs value ≡ some i)
deserialize-serialize_enum x n bound i value vs fs d rest laws units distinct has places few small
      free line =
    (
      Value.unsigned n value,
      serialize_enum-unit n bound vs i value fs units has,
      deserialize-shown x laws rest free (Shape.enumeration n bound vs) (Value.unsigned n value) d
          (read_unit n bound value vs places few (value_below bound vs i value units has) small
            (unit_found bound vs i value units has))
          line,
      refl,
      try_from-index bound vs i value units distinct has,
    )
