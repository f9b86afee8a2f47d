-- ===== src/SerdeAt/Ser/Slice.antt =====
-- `to_slice` of serde_at/src/ser/mod.rs leaves the command in the buffer, or finds the buffer full.
use atat.Base.{
  ℕ, ◌<◌, ◌≡◌, ◌⊎◌, inl, inr, sym, ap, ◌∙◌, Bool, true, false, Bytes, length, take, Result, ok, err,
  arith,
}
use atat.Base.Outcome.{Outcome, done}
use atat.SerdeAt.Ser.{SerializeOptions, SerError, buffer_full, new_serializer}
use atat.SerdeAt.Ser.Value.{Value, serialize, to_written, to_slice}
use atat.SerdeAt.Ser.Emits.{text-length, Emits, emitted, full}
use atat.SerdeAt.Ser.Command.{
  command_head, command_text, command_size, IsCommand, with_arguments, without, struct-Emits,
  unit_struct-Emits,
}

-- The run wrote this command into the buffer, or found it full, which has less room than is enough.
abbrev pub Sliced :
    SerializeOptions → Bytes → Value → Bytes → Outcome (Result (ℕ × Bytes) SerError) → Type 0
Sliced o cmd v buf run =
    ((left : Bytes) × (run ≡ done (ok (length (command_text o cmd v), left)))
      × (take (length (command_text o cmd v)) left ≡ command_text o cmd v)
      × (length left ≡ length buf))
    ⊎ ((run ≡ done (err buffer_full)) × (length buf < command_size o cmd v))

sliced :
    (o : SerializeOptions) (cmd : Bytes) (v : Value) (buf : Bytes) (inside : Bool)
    → Emits o cmd inside
        (record (new_serializer buf cmd o) { nested_struct = inside })
        (command_text o cmd v)
        (command_size o cmd v)
        (serialize v (new_serializer buf cmd o))
    → Sliced o cmd v buf (to_slice v cmd buf o)
unfolding to_slice
sliced o cmd v buf inside (emitted t e arg same size grows) =
    let count : t.written ≡ length (command_text o cmd v) =
      sym (text-length t arg.valid) ∙ ap length same in
    inl (
      t.buf,
      ap to_written e ∙ ap (λ k. done (ok (k, t.buf))) count,
      ap (λ k. take k t.buf) (sym count) ∙ same,
      size,
    )
sliced o cmd v buf inside (full e lt) = inr (ap to_written e, omega arith)

-- A command whose arguments are supported values of their types, and whose prefix and name are not
-- both empty, is never a panic for `to_slice`: it leaves the reference text of the command at the
-- start of the buffer and returns its length, or it returns `BufferFull`, and then the buffer is
-- shorter than the room that the command takes.
pub to_slice-command_text :
    (o : SerializeOptions) (cmd : Bytes) (v : Value) (buf : Bytes)
    → IsCommand v
    → 0 < length (command_head o cmd)
    → Sliced o cmd v buf (to_slice v cmd buf o)
to_slice-command_text o cmd _ buf (with_arguments vs fine) some =
    sliced o cmd _ buf true (struct-Emits vs buf fine some)
to_slice-command_text o cmd _ buf without some = sliced o cmd _ buf false (unit_struct-Emits buf)
