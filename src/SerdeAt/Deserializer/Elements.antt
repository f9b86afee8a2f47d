-- ===== src/SerdeAt/Deserializer/Elements.antt =====
-- The fields of a struct, each read by serde_at/src/de/mod.rs from the text that serde_at/src/ser/mod.rs
-- writes for it.
use atat.Base.{
  ℕ, zero, suc, ◌+◌, ◌-◌, ◌/◌, ◌%◌, ◌^◌, ◌≤◌, ◌<◌, ◌≡◌, refl, ap, ◌∙◌, Bool, true, false, inl, inr,
  Bool-cases, List, [], ◌∷◌, ◌++◌, ◌==◌, Bytes, codes, length, if◌then◌else◌, if_true, if_false,
  some, arith,
}
use atat.Base.Int.{ℤ, pos, negsuc}
use atat.Extern.Texts.{Texts, concat}
use atat.SerdeAt.De.{is_space}
use atat.SerdeAt.Ser.Value.{Value}
use atat.SerdeAt.Ser.Text.{decimal_text}
use atat.SerdeAt.Ser.Fields.{text_of, signed_text, IsSigned}
use atat.SerdeAt.Deserializer.Quoted.{closes}
use atat.SerdeAt.Deserializer.Shape.{Shape, Variants, no_variants, variant, VariantFields}

-- A first character of an element: no space, no plus, and no comma.
pub record IsPlain (c : ℕ) : Type 0 where
  pub no_space : is_space c ≡ false
  pub no_plus : (c == b'+') ≡ false
  pub no_comma : (c == b',') ≡ false

-- The first variant with the value has no fields.
abbrev pub is_unit : ℕ → Variants → Bool
is_unit val no_variants = false
is_unit val (variant v VariantFields.unit vs) =
    let later = is_unit val vs in if val == v then true else later
is_unit val (variant v VariantFields.named vs) =
    let later = is_unit val vs in if val == v then false else later
is_unit val (variant v (VariantFields.unnamed ss) vs) =
    let later = is_unit val vs in if val == v then false else later

-- The value is one of the type that its text tells: numbers are those of their types, characters are
-- plain, quotes in texts are escaped, and a value of an enum is a variant without fields.
pub data IsRead (x : Texts) : Shape → Value → Type 0 where
  read_bool : (b : Bool) → IsRead x Shape.bool (Value.bool b)
  read_char :
      (c : ℕ) → c ≤ 127 → IsPlain c → (c == 12) ≡ false → IsRead x Shape.char (Value.char (c ∷ []))
  read_unsigned :
      (n bound v : ℕ)
      → 0 < n
      → v < bound
      → bound ≤ 10 ^ n
      → IsRead x (Shape.unsigned n bound) (Value.unsigned n v)
  read_signed :
      (n half : ℕ) (v : ℤ)
      → IsSigned n half v
      → IsRead x (Shape.signed n half) (Value.signed n half v)
  read_str :
      (n : ℕ) (cs : List Bytes)
      → x.from_utf8 (concat cs) ≡ some cs
      → length (concat cs) ≤ n
      → closes false (concat cs) ≡ true
      → IsRead x (Shape.str n) (Value.str cs)
  read_option : (s : Shape) (v : Value) → IsRead x s v → IsRead x (Shape.option s) (Value.some v)
  read_newtype :
      (s : Shape) (v : Value)
      → IsRead x s v
      → IsRead x (Shape.newtype_struct s) (Value.newtype_struct v)
  read_unit :
      (n bound val : ℕ) (vs : Variants)
      → 0 < n
      → val < 10 ^ n
      → val < bound
      → val < 2 ^ 63
      → is_unit val vs ≡ true
      → IsRead x (Shape.enumeration n bound vs) (Value.unsigned n val)

-- The text of a value, with texts in quotes.
abbrev pub shown : Value → Bytes
shown v = text_of true v []

digit-IsPlain : (c : ℕ) → b'0' ≤ c → c ≤ b'9' → IsPlain c
digit-IsPlain c low high = record {
  no_space = ground arith;
  no_plus = ground arith;
  no_comma = ground arith;
}

pub record Starts (text : Bytes) : Type 0 where
  pub head : ℕ
  pub tail : Bytes
  pub parts : text ≡ head ∷ tail
  pub plain : IsPlain head

some_more : (i v : ℕ) → (v == 0) ≡ false → v < 10 ^ i → 0 < i
some_more zero v h lt = ground arith
some_more (suc i) v h lt = omega arith

pub decimal_text-Starts : (n v : ℕ) → 0 < n → v < 10 ^ n → Starts (decimal_text n v)
unfolding decimal_text
decimal_text-Starts zero v places few = absurd (omega arith)
decimal_text-Starts (suc i) v places few =
    let last : Bytes = (v % 10 + b'0') ∷ [] in
    let before = decimal_text i (v / 10) in
    elim (Bool-cases (v / 10 == 0)) [
      | inl small ↦ record {
        head = v % 10 + b'0';
        tail = [];
        parts = ap (λ xs. xs ++ last) (if_true (v / 10 == 0) [] before small);
        plain = digit-IsPlain (v % 10 + b'0') (omega arith) (omega arith);
      }
      | inr more ↦
          let y =
            decimal_text-Starts i (v / 10) (some_more i (v / 10) more (omega arith))
              (omega arith) in
          record {
            head = y.head;
            tail = y.tail ++ last;
            parts = ap (λ xs. xs ++ last) (if_false (v / 10 == 0) [] before more ∙ y.parts);
            plain = y.plain;
          }
    ]

signed_text-Starts : (n half : ℕ) (v : ℤ) → IsSigned n half v → Starts (signed_text n v)
signed_text-Starts n half (pos v) (places, lt, fits) =
    decimal_text-Starts (n - 1) v (omega arith) (omega arith)
signed_text-Starts n half (negsuc v) (places, lt, fits) = record {
  head = b'-';
  tail = decimal_text (n - 1) (v + 1);
  parts = refl;
  plain = record { no_space = refl; no_plus = refl; no_comma = refl };
}

-- The text of an element that is there begins with a plain character.
pub shown-Starts : {x : Texts} (s : Shape) (v : Value) → IsRead x s v → Starts (shown v)
shown-Starts s v (read_bool true) = record {
  head = b't';
  tail = codes "rue";
  parts = refl;
  plain = record { no_space = refl; no_plus = refl; no_comma = refl };
}
shown-Starts s v (read_bool false) = record {
  head = b'f';
  tail = codes "alse";
  parts = refl;
  plain = record { no_space = refl; no_plus = refl; no_comma = refl };
}
shown-Starts s v (read_char c small plain no_feed) = record {
  head = c;
  tail = [];
  parts = refl;
  plain = plain;
}
shown-Starts s v (read_unsigned n bound k places lt fits) =
    decimal_text-Starts n k places (omega arith)
shown-Starts s v (read_signed n half k fine) = signed_text-Starts n half k fine
shown-Starts s v (read_str n cs utf8 fits closed) = record {
  head = b'"';
  tail = concat cs ++ (b'"' ∷ []);
  parts = refl;
  plain = record { no_space = refl; no_plus = refl; no_comma = refl };
}
shown-Starts s v (read_option t w fine) = shown-Starts t w fine
shown-Starts s v (read_newtype t w fine) = shown-Starts t w fine
shown-Starts s v (read_unit n bound val vs places few fits small unit) =
    decimal_text-Starts n val places few
