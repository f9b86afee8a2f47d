-- ===== src/SerdeAt/Ser/Arguments.antt =====
-- A value among the arguments of a command is written by serde_at/src/ser/ as the text for it.
use atat.Base.{
  ℕ, ◌+◌, ◌^◌, ◌<◌, ◌≡◌, refl, ap, Bool, true, false, [], ◌∷◌, ◌++◌, append-nil, Bytes, length,
  length-append, arith,
}
use atat.SerdeAt.Ser.{Serializer, SerializeOptions, Ser, ◌>>?◌, push_if}
use atat.SerdeAt.Ser.Value.{
  Value, Fields, no_more, field, serialize, struct_begin, struct_separator, variant_separator,
  struct_fields, variant_fields, variant_begin,
}
use atat.SerdeAt.Ser.Emits.{
  text, IsArg, Emits, and_then-Emits, same-Emits, run-Emits, nothing-Emits, empty-Emits,
  extend-Emits, push-Emits, none-Emits,
}
use atat.SerdeAt.Ser.Text.{decimal_text}
use atat.SerdeAt.Ser.Writes.{signed_runs, str-Emits, unsigned-Emits, begin-Emits, bool-Emits}
use atat.SerdeAt.Ser.Fields.{
  signed_text, comma, text_of, fields_text, size_of, fields_size, IsArgument, AreArguments,
}

-- Behind a comma the text is not empty.
pub behind_comma : (out : Bytes) → 0 < length (out ++ (b',' ∷ []))
behind_comma out = omega (arith, length-append out (b',' ∷ []))

pub behind_nothing : (out : Bytes) → 0 < length out → 0 < length (out ++ [])
behind_nothing out some = rw (append-nil out) some

module _ {o : SerializeOptions} {cmd : Bytes} where
  nested_separator-Emits :
      (first : Bool) (s : Serializer)
      → IsArg o cmd true s
      → Emits o cmd true s
          (text s ++ comma first)
          (length (comma first))
          (struct_separator true first s)
  unfolding push_if
  nested_separator-Emits true s arg = empty-Emits s arg
  nested_separator-Emits false s arg = push-Emits b',' s arg

  variant_separator-Emits :
      (first : Bool) (s : Serializer)
      → IsArg o cmd true s
      → Emits o cmd true s
          (text s ++ comma first)
          (length (comma first))
          (variant_separator first s)
  variant_separator-Emits true s arg = empty-Emits s arg
  variant_separator-Emits false s arg = push-Emits b',' s arg

  -- What is written behind the index of a variant and its comma.
  indexed-Emits :
      (index : ℕ) (s : Serializer) (out : Bytes) (b : ℕ) (next : Serializer → Ser)
      → IsArg o cmd true s
      → index < 10 ^ 10
      → ((t : Serializer)
          → IsArg o cmd true t
          → 0 < length (text t)
          → text t ≡ (text s ++ decimal_text 10 index) ++ (b',' ∷ [])
          → Emits o cmd true t out b (next t))
      → Emits o cmd true s out
          (length (decimal_text 10 index) + 1 + b)
          (variant_begin index s >>? next)
  indexed-Emits index s out b next arg lt h =
      and_then-Emits s _ _ _ _ _ _ (begin-Emits index s arg lt)
        λ t arg_t e. h t arg_t (rw e (behind_comma _)) e

  -- A field behind its separator, and what follows.
  pub field-Emits :
      (v : Value) (s : Serializer) (separator out : Bytes) (b : ℕ) (run : Ser)
      (next : Serializer → Ser)
      → ((t : Serializer)
          → IsArg o cmd true t
          → 0 < length (text t)
          → Emits o cmd true t
              (text_of o.quote_escape_strings v (text t))
              (size_of o.quote_escape_strings v)
              (serialize v t))
      → Emits o cmd true s (text s ++ separator) (length separator) run
      → 0 < length (text s ++ separator)
      → ((u : Serializer)
          → IsArg o cmd true u
          → text u ≡ text_of o.quote_escape_strings v (text s ++ separator)
          → Emits o cmd true u out b (next u))
      → Emits o cmd true s out
          (length separator + size_of o.quote_escape_strings v + b)
          (run >>? (λ t. serialize v t) >>? next)
  field-Emits v s separator out b run next value before some h =
      and_then-Emits s (text_of o.quote_escape_strings v (text s ++ separator)) _ _ _ _ _
        (and_then-Emits s (text s ++ separator) _ _ _ _ _ before λ t arg_t e.
          same-Emits t _ _ _ _ _ (value t arg_t (rw e some))
            (ap (text_of o.quote_escape_strings v) e) refl)
        h

  mutual
    unfolding serialize struct_fields variant_fields

    pub serialize-Emits :
        (v : Value) (s : Serializer)
        → IsArgument v
        → IsArg o cmd true s
        → 0 < length (text s)
        → Emits o cmd true s
            (text_of o.quote_escape_strings v (text s))
            (size_of o.quote_escape_strings v)
            (serialize v s)
    serialize-Emits (Value.bool b) s fine arg some = bool-Emits b s arg
    serialize-Emits (Value.unsigned n v) s (places, lt) arg some =
        unsigned-Emits n v s arg places lt
    serialize-Emits (Value.signed n half v) s fine arg some =
        run-Emits s _ _ _ _ (signed_runs n half v s fine) (extend-Emits (signed_text n v) s arg)
    serialize-Emits (Value.char c) s fine arg some = extend-Emits c s arg
    serialize-Emits (Value.str cs) s fine arg some = str-Emits cs s arg
    serialize-Emits (Value.bytes bytes) s fine arg some = extend-Emits bytes s arg
    serialize-Emits Value.none s fine arg some = none-Emits s arg some
    serialize-Emits Value.unit_struct s fine arg some = absurd fine
    serialize-Emits Value.unsupported s fine arg some = absurd fine
    serialize-Emits (Value.some v) s fine arg some = serialize-Emits v s fine arg some
    serialize-Emits (Value.newtype_struct v) s fine arg some = serialize-Emits v s fine arg some
    serialize-Emits (Value.unit_variant index) s fine arg some =
        unsigned-Emits 10 index s arg (omega arith) fine
    serialize-Emits (Value.newtype_variant index v) s (lt, fine) arg some =
        indexed-Emits index s _ _ _ arg lt λ t arg_t some_t e.
          same-Emits t _ _ _ _ _ (serialize-Emits v t fine arg_t some_t)
            (ap (text_of o.quote_escape_strings v) e) refl
    serialize-Emits (Value.tuple_variant index vs) s (lt, fine) arg some =
        indexed-Emits index s _ _ _ arg lt λ t arg_t some_t e.
          same-Emits t _ _ _ _ _ (variant-Emits true vs t fine arg_t (behind_nothing _ some_t))
            (ap (fields_text o.quote_escape_strings true vs) e) refl
    serialize-Emits (Value.struct_variant index vs) s (lt, fine) arg some =
        indexed-Emits index s _ _ _ arg lt λ t arg_t some_t e.
          same-Emits t _ _ _ _ _ (variant-Emits true vs t fine arg_t (behind_nothing _ some_t))
            (ap (fields_text o.quote_escape_strings true vs) e) refl
    serialize-Emits (Value.struct vs) s fine arg some =
        run-Emits s _ _ _ _
          (ap (λ b. struct_begin b s >>? λ t. struct_fields b true vs t) arg.nested)
          (nested-Emits true vs s fine arg (behind_nothing _ some))

    variant-Emits :
        (first : Bool) (vs : Fields) (s : Serializer)
        → AreArguments vs
        → IsArg o cmd true s
        → 0 < length (text s ++ comma first)
        → Emits o cmd true s
            (fields_text o.quote_escape_strings first vs (text s))
            (fields_size o.quote_escape_strings first vs)
            (variant_fields first vs s)
    variant-Emits first no_more s fine arg some = nothing-Emits s arg
    variant-Emits first (field v vs) s (fine, others) arg some =
        field-Emits v s (comma first) _ _ _ _ (λ t a p. serialize-Emits v t fine a p)
          (variant_separator-Emits first s arg) some
          λ u arg_u e.
            same-Emits u _ _ _ _ _ (variant-Emits false vs u others arg_u (behind_comma _))
              (ap (fields_text o.quote_escape_strings false vs) e) refl

    nested-Emits :
        (first : Bool) (vs : Fields) (s : Serializer)
        → AreArguments vs
        → IsArg o cmd true s
        → 0 < length (text s ++ comma first)
        → Emits o cmd true s
            (fields_text o.quote_escape_strings first vs (text s))
            (fields_size o.quote_escape_strings first vs)
            (struct_fields true first vs s)
    nested-Emits first no_more s fine arg some = nothing-Emits s arg
    nested-Emits first (field v vs) s (fine, others) arg some =
        field-Emits v s (comma first) _ _ _ _ (λ t a p. serialize-Emits v t fine a p)
          (nested_separator-Emits first s arg) some
          λ u arg_u e.
            same-Emits u _ _ _ _ _ (nested-Emits false vs u others arg_u (behind_comma _))
              (ap (fields_text o.quote_escape_strings false vs) e) refl
