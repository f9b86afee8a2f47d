-- ===== src/Derive/Cmd.antt =====
-- What `#[derive(AtatCmd)]` writes for a command, `MAX_LEN` and `write`: atat_derive/src/cmd.rs.
use atat.Base.{
  ℕ, ◌+◌, ◌-◌, ◌<◌, ◌≤◌, ◌≡◌, inl, inr, ap, Bool, true, false, Bytes, length, take, Result, ok, err,
  arith,
}
use atat.Base.Outcome.{Outcome, done, panic, out_of_fuel}
use atat.SerdeAt.Ser.{SerializeOptions, SerError}
use atat.SerdeAt.Ser.Value.{Value, Fields, no_more, field, to_slice}
use atat.SerdeAt.Ser.Command.{
  equals, arguments_size, command_head, command_text, command_size, with_arguments,
}
use atat.SerdeAt.Ser.Slice.{Sliced, to_slice-command_text}
use atat.SerdeAt.Ser.Fields.{fields_size}
use atat.Derive.Len.{ArgFields, count, struct_len}
use atat.Derive.Len.Fit.{FieldsFit}
use atat.Derive.Len.Bounds.{structure-bound}

abbrev pub one_if : ℕ → Bool → ℕ
one_if n true = n
one_if n false = 0

-- `cmd_len`
unfoldable pub cmd_len : SerializeOptions → Bytes → ℕ
cmd_len o cmd =
    length o.cmd_prefix
    + length cmd
    + length o.termination
    + one_if 1 o.value_sep
    + one_if 2 o.quote_escape_strings

-- `AtatCmd::MAX_LEN`
unfoldable pub max_len : SerializeOptions → Bytes → ArgFields → ℕ
unfolding cmd_len struct_len
max_len o cmd fs = struct_len fs (count fs - 1) + cmd_len o cmd

-- `Ok(s) => s, Err(_) => panic!(…)`
abbrev pub expect_slice : Outcome (Result (ℕ × Bytes) SerError) → Outcome (ℕ × Bytes)
expect_slice (done (ok x)) = done x
expect_slice (done (err e)) = panic
expect_slice panic = panic
expect_slice out_of_fuel = out_of_fuel

-- `AtatCmd::write`, which returns the number of bytes written, and leaves the buffer.
unfoldable pub write : SerializeOptions → Bytes → Fields → Bytes → Outcome (ℕ × Bytes)
unfolding to_slice
write o cmd vs buf = expect_slice (to_slice (Value.struct vs) cmd buf o)

equals-bound : (b : Bool) → length (equals b) ≤ one_if 1 b
equals-bound true = omega arith
equals-bound false = omega arith

arguments-bound :
    (o : SerializeOptions) (vs : Fields)
    → arguments_size o vs ≤ one_if 1 o.value_sep + fields_size o.quote_escape_strings true vs
arguments-bound o no_more = omega arith
arguments-bound o (field v vs) = omega (arith, equals-bound o.value_sep)

size-bound :
    (o : SerializeOptions) (cmd : Bytes) (fs : ArgFields) (vs : Fields)
    → FieldsFit o.quote_escape_strings false fs vs
    → command_size o cmd (Value.struct vs) ≤ max_len o cmd fs
unfolding max_len cmd_len
size-bound o cmd fs vs fit =
    let (fine, size) = structure-bound o.quote_escape_strings fs vs fit in
    omega (arith, arguments-bound o vs)

enough-room :
    (o : SerializeOptions) (cmd : Bytes) (vs : Fields) (buf : Bytes)
    (run : Outcome (Result (ℕ × Bytes) SerError))
    → command_size o cmd (Value.struct vs) ≤ length buf
    → Sliced o cmd (Value.struct vs) buf run
    → (left : Bytes) × (expect_slice run
        ≡ done (length (command_text o cmd (Value.struct vs)), left))
      × (take (length (command_text o cmd (Value.struct vs))) left
          ≡ command_text o cmd (Value.struct vs))
      × (length left ≡ length buf)
enough-room o cmd vs buf run room (inl (left, e, same, size)) =
    (left, ap expect_slice e, same, size)
enough-room o cmd vs buf run room (inr (e, lt)) = absurd (omega arith)

-- Where each argument is a value of the type of its field, of which a character has one byte, an
-- `isize` or `usize` has 32 bits, a text or byte string fits its capacity, and what has the
-- attribute `len` takes no more room than that, the quotes of a text included but for a `&str` in a
-- struct, and where the prefix and the name of the command are not both empty, a buffer of at least
-- `MAX_LEN` bytes is enough: the derived `write` does not panic, it returns the length of the
-- reference text of the command, and that text stands at the start of the buffer, whose length is
-- kept.
pub write-max_len :
    (o : SerializeOptions) (cmd : Bytes) (fs : ArgFields) (vs : Fields) (buf : Bytes)
    → FieldsFit o.quote_escape_strings false fs vs
    → 0 < length (command_head o cmd)
    → max_len o cmd fs ≤ length buf
    → (left : Bytes) × (write o cmd vs buf
        ≡ done (length (command_text o cmd (Value.struct vs)), left))
      × (take (length (command_text o cmd (Value.struct vs))) left
          ≡ command_text o cmd (Value.struct vs))
      × (length left ≡ length buf)
unfolding write
write-max_len o cmd fs vs buf fit some room =
    let (fine, size) = structure-bound o.quote_escape_strings fs vs fit in
    enough-room o cmd vs buf (to_slice (Value.struct vs) cmd buf o)
      (omega (arith, size-bound o cmd fs vs fit))
      (to_slice-command_text o cmd (Value.struct vs) buf (with_arguments vs fine) some)
