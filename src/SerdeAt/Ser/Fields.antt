-- ===== src/SerdeAt/Ser/Fields.antt =====
-- The text that the serializer of serde_at/src/ser/ is to write for a value, defined apart from it.
use atat.Base.{ℕ, ◌+◌, ◌-◌, ◌^◌, ◌<◌, Bool, true, false, [], ◌∷◌, ◌++◌, Bytes, codes, length, take}
use atat.Base.Int.{ℤ, pos, negsuc}
use atat.Extern.Texts.{concat}
use atat.SerdeAt.Ser.Value.{Value, Fields, no_more, field}
use atat.SerdeAt.Ser.Text.{decimal_text}

abbrev pub bool_text : Bool → Bytes
bool_text true = codes "true"
bool_text false = codes "false"

abbrev pub signed_text : ℕ → ℤ → Bytes
signed_text n (pos v) = decimal_text (n - 1) v
signed_text n (negsuc v) = b'-' ∷ decimal_text (n - 1) (v + 1)

abbrev pub quote : Bool → Bytes
quote true = b'"' ∷ []
quote false = []

abbrev pub comma : Bool → Bytes
comma true = []
comma false = b',' ∷ []

-- A signed number of the type with `2 * half` numbers, and `n` places of a number and its sign.
abbrev pub IsSigned : ℕ → ℕ → ℤ → Type 0
IsSigned n half (pos v) = (1 < n) × (v < half) × (half < 10 ^ (n - 1))
IsSigned n half (negsuc v) = (1 < n) × (v < half) × (half < 10 ^ (n - 1))

-- With `quotes`, texts are put in quotes.
module _ (quotes : Bool) where
  abbrev mutual
    -- The text after the value, behind the given one. An absent value takes the separator before it back.
    pub text_of : Value → Bytes → Bytes
    text_of (Value.bool b) out = out ++ bool_text b
    text_of (Value.unsigned n v) out = out ++ decimal_text n v
    text_of (Value.signed n half v) out = out ++ signed_text n v
    text_of (Value.char c) out = out ++ c
    text_of (Value.str cs) out = out ++ (quote quotes ++ (concat cs ++ quote quotes))
    text_of (Value.bytes bytes) out = out ++ bytes
    text_of Value.none out = take (length out - 1) out
    text_of Value.unit_struct out = out
    text_of Value.unsupported out = out
    text_of (Value.some v) out = text_of v out
    text_of (Value.newtype_struct v) out = text_of v out
    text_of (Value.unit_variant index) out = out ++ decimal_text 10 index
    text_of (Value.newtype_variant index v) out =
        text_of v ((out ++ decimal_text 10 index) ++ (b',' ∷ []))
    text_of (Value.tuple_variant index vs) out =
        fields_text true vs ((out ++ decimal_text 10 index) ++ (b',' ∷ []))
    text_of (Value.struct_variant index vs) out =
        fields_text true vs ((out ++ decimal_text 10 index) ++ (b',' ∷ []))
    text_of (Value.struct vs) out = fields_text true vs out

    -- Fields, with commas between them.
    pub fields_text : Bool → Fields → Bytes → Bytes
    fields_text first no_more out = out
    fields_text first (field v vs) out = fields_text false vs (text_of v (out ++ comma first))

  abbrev mutual
    -- The room that is enough for the value. A separator that is taken back needs its room, too.
    pub size_of : Value → ℕ
    size_of (Value.bool b) = length (bool_text b)
    size_of (Value.unsigned n v) = length (decimal_text n v)
    size_of (Value.signed n half v) = length (signed_text n v)
    size_of (Value.char c) = length c
    size_of (Value.str cs) = length (quote quotes) + (length (concat cs) + length (quote quotes))
    size_of (Value.bytes bytes) = length bytes
    size_of Value.none = 0
    size_of Value.unit_struct = 0
    size_of Value.unsupported = 0
    size_of (Value.some v) = size_of v
    size_of (Value.newtype_struct v) = size_of v
    size_of (Value.unit_variant index) = length (decimal_text 10 index)
    size_of (Value.newtype_variant index v) = length (decimal_text 10 index) + 1 + size_of v
    size_of (Value.tuple_variant index vs) =
        length (decimal_text 10 index) + 1 + fields_size true vs
    size_of (Value.struct_variant index vs) =
        length (decimal_text 10 index) + 1 + fields_size true vs
    size_of (Value.struct vs) = fields_size true vs

    pub fields_size : Bool → Fields → ℕ
    fields_size first no_more = 0
    fields_size first (field v vs) = length (comma first) + size_of v + fields_size false vs

abbrev mutual
  -- A value that is supported as an argument: numbers are those of their types.
  pub IsArgument : Value → Type 0
  IsArgument (Value.bool b) = Unit
  IsArgument (Value.unsigned n v) = (0 < n) × (v < 10 ^ n)
  IsArgument (Value.signed n half v) = IsSigned n half v
  IsArgument (Value.char c) = Unit
  IsArgument (Value.str cs) = Unit
  IsArgument (Value.bytes bytes) = Unit
  IsArgument Value.none = Unit
  IsArgument Value.unit_struct = ⊥
  IsArgument Value.unsupported = ⊥
  IsArgument (Value.some v) = IsArgument v
  IsArgument (Value.newtype_struct v) = IsArgument v
  IsArgument (Value.unit_variant index) = index < 10 ^ 10
  IsArgument (Value.newtype_variant index v) = (index < 10 ^ 10) × IsArgument v
  IsArgument (Value.tuple_variant index vs) = (index < 10 ^ 10) × AreArguments vs
  IsArgument (Value.struct_variant index vs) = (index < 10 ^ 10) × AreArguments vs
  IsArgument (Value.struct vs) = AreArguments vs

  pub AreArguments : Fields → Type 0
  AreArguments no_more = Unit
  AreArguments (field v vs) = IsArgument v × AreArguments vs
