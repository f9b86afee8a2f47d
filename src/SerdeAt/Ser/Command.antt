-- ===== src/SerdeAt/Ser/Command.antt =====
-- The whole command that `to_slice` of serde_at/src/ser/mod.rs writes.
use atat.Base.{
  ℕ, ◌+◌, ◌<◌, ◌≡◌, refl, ap, Bool, true, false, [], ◌∷◌, ◌++◌, Bytes, length, length-append, take,
  arith,
}
use atat.Base.Outcome.{done}
use atat.SerdeAt.Ser.{
  Serializer, SerializeOptions, ◌>>?◌, extend_from_slice, push_if, new_serializer,
  serialize_unit_struct,
}
use atat.SerdeAt.Ser.Value.{
  Value, Fields, no_more, field, serialize, struct_separator, struct_fields,
}
use atat.SerdeAt.Ser.Emits.{
  text, IsArg, Emits, and_then-Emits, same-Emits, run-Emits, empty-Emits, extend-Emits, push-Emits,
}
use atat.SerdeAt.Ser.Arguments.{serialize-Emits, field-Emits, behind_comma}
use atat.SerdeAt.Ser.Fields.{text_of, fields_text, size_of, fields_size, AreArguments}

abbrev pub equals : Bool → Bytes
equals true = b'=' ∷ []
equals false = []

abbrev pub arguments_text : SerializeOptions → Fields → Bytes → Bytes
arguments_text o no_more out = out
arguments_text o (field v vs) out =
    fields_text o.quote_escape_strings false vs
      (text_of o.quote_escape_strings v (out ++ equals o.value_sep))

abbrev pub arguments_size : SerializeOptions → Fields → ℕ
arguments_size o no_more = 0
arguments_size o (field v vs) =
    length (equals o.value_sep)
    + size_of o.quote_escape_strings v
    + fields_size o.quote_escape_strings false vs

-- The prefix and the name of the command.
abbrev pub command_head : SerializeOptions → Bytes → Bytes
command_head o cmd = o.cmd_prefix ++ cmd

abbrev pub command_text : SerializeOptions → Bytes → Value → Bytes
command_text o cmd (Value.struct vs) = arguments_text o vs (command_head o cmd) ++ o.termination
command_text o cmd _ = command_head o cmd ++ o.termination

-- The room that is enough for the command.
abbrev pub command_size : SerializeOptions → Bytes → Value → ℕ
command_size o cmd (Value.struct vs) =
    length o.cmd_prefix + length cmd + (arguments_size o vs + length o.termination)
command_size o cmd _ = length o.cmd_prefix + length cmd + length o.termination

-- What the derive macro makes of a command: a struct of arguments, or a unit struct.
pub data IsCommand : Value → Type 0 where
  with_arguments : (vs : Fields) → AreArguments vs → IsCommand (Value.struct vs)
  without : IsCommand Value.unit_struct

module _ {o : SerializeOptions} {cmd : Bytes} where
  equals_if-Emits :
      (b : Bool) (s : Serializer)
      → IsArg o cmd true s
      → Emits o cmd true s (text s ++ equals b) (length (equals b)) (push_if b b'=' s)
  unfolding push_if
  equals_if-Emits true s arg = push-Emits b'=' s arg
  equals_if-Emits false s arg = empty-Emits s arg

  equals-Emits :
      (s : Serializer)
      → IsArg o cmd true s
      → Emits o cmd true s
          (text s ++ equals o.value_sep)
          (length (equals o.value_sep))
          (struct_separator false true s)
  equals-Emits s arg =
      run-Emits s _ _ _ _ (ap (λ x. push_if x.value_sep b'=' s) arg.options_kept)
        (equals_if-Emits o.value_sep s arg)

  termination-Emits :
      {inside : Bool} (s : Serializer)
      → IsArg o cmd inside s
      → Emits o cmd inside s
          (text s ++ o.termination)
          (length o.termination)
          (done (extend_from_slice s.options.termination s))
  termination-Emits s arg =
      run-Emits s _ _ _ _ (ap (λ x. done (extend_from_slice x.termination s)) arg.options_kept)
        (extend-Emits o.termination s arg)

  -- The fields behind the first one, and the termination.
  others-Emits :
      (vs : Fields) (s : Serializer)
      → AreArguments vs
      → IsArg o cmd true s
      → Emits o cmd true s
          (fields_text o.quote_escape_strings false vs (text s) ++ o.termination)
          (fields_size o.quote_escape_strings false vs + length o.termination)
          (struct_fields false false vs s)
  unfolding struct_fields
  others-Emits no_more s fine arg =
      same-Emits s _ _ _ _ _ (termination-Emits s arg) refl (omega arith)
  others-Emits (field v vs) s (fine, others) arg =
      same-Emits s _ _ _ _ _
        (field-Emits v s (b',' ∷ []) _ _ _ _ (λ t a p. serialize-Emits v t fine a p)
          (push-Emits b',' s arg) (behind_comma (text s))
          λ u arg_u e.
            same-Emits u _ _ _ _ _ (others-Emits vs u others arg_u)
              (ap (λ x. fields_text o.quote_escape_strings false vs x ++ o.termination) e) refl)
        refl (omega arith)

  arguments-Emits :
      (vs : Fields) (s : Serializer)
      → AreArguments vs
      → IsArg o cmd true s
      → 0 < length (text s)
      → Emits o cmd true s
          (arguments_text o vs (text s) ++ o.termination)
          (arguments_size o vs + length o.termination)
          (struct_fields false true vs s)
  unfolding struct_fields
  arguments-Emits no_more s fine arg some =
      same-Emits s _ _ _ _ _ (termination-Emits s arg) refl (omega arith)
  arguments-Emits (field v vs) s (fine, others) arg some =
      same-Emits s _ _ _ _ _
        (field-Emits v s (equals o.value_sep) _ _ _ _ (λ t a p. serialize-Emits v t fine a p)
          (equals-Emits s arg) (omega (arith, length-append (text s) (equals o.value_sep)))
          λ u arg_u e.
            same-Emits u _ _ _ _ _ (others-Emits vs u others arg_u)
              (ap (λ x. fields_text o.quote_escape_strings false vs x ++ o.termination) e) refl)
        refl (omega arith)

  head-Emits :
      {inside : Bool} (s : Serializer)
      → IsArg o cmd inside s
      → s.written ≡ 0
      → Emits o cmd inside s (command_head o cmd) (length o.cmd_prefix + length cmd) (
          done (extend_from_slice s.options.cmd_prefix s) >>? λ t. done (extend_from_slice t.cmd t))
  head-Emits s arg e =
      same-Emits s ((text s ++ o.cmd_prefix) ++ cmd) _ _ _ _
        (and_then-Emits s (text s ++ o.cmd_prefix) _ _ _ _ _
          (run-Emits s _ _ _ _ (ap (λ x. done (extend_from_slice x.cmd_prefix s)) arg.options_kept)
            (extend-Emits o.cmd_prefix s arg))
          λ t arg_t same.
            run-Emits t _ _ _ _ (ap (λ x. done (extend_from_slice x t)) arg_t.cmd_kept)
              (same-Emits t _ _ _ _ _ (extend-Emits cmd t arg_t) (ap (λ x. x ++ cmd) same) refl))
        (ap (λ k. (take k s.buf ++ o.cmd_prefix) ++ cmd) e) refl

  fresh-IsArg :
      (buf : Bytes) (inside : Bool)
      → IsArg o cmd inside (record (new_serializer buf cmd o) { nested_struct = inside })
  fresh-IsArg buf inside = record {
    valid = omega arith;
    options_kept = refl;
    cmd_kept = refl;
    nested = refl;
  }

  pub struct-Emits :
      (vs : Fields) (buf : Bytes)
      → AreArguments vs
      → 0 < length (command_head o cmd)
      → Emits o cmd true
          (record (new_serializer buf cmd o) { nested_struct = true })
          (command_text o cmd (Value.struct vs))
          (command_size o cmd (Value.struct vs))
          (serialize (Value.struct vs) (new_serializer buf cmd o))
  unfolding serialize
  struct-Emits vs buf fine some =
      and_then-Emits _ (command_head o cmd) _ _ _ _ _ (head-Emits _ (fresh-IsArg buf true) refl)
        λ t arg e.
          same-Emits t _ _ _ _ _ (arguments-Emits vs t fine arg (rw e some))
            (ap (λ x. arguments_text o vs x ++ o.termination) e) refl

  pub unit_struct-Emits :
      (buf : Bytes)
      → Emits o cmd false
          (new_serializer buf cmd o)
          (command_text o cmd Value.unit_struct)
          (command_size o cmd Value.unit_struct)
          (serialize Value.unit_struct (new_serializer buf cmd o))
  unfolding serialize serialize_unit_struct
  unit_struct-Emits buf =
      and_then-Emits _ (command_head o cmd) _ _ _ _ _ (head-Emits _ (fresh-IsArg buf false) refl)
        λ t arg e.
          same-Emits t _ _ _ _ _ (termination-Emits t arg) (ap (λ x. x ++ o.termination) e) refl
