-- ===== src/SerdeAt/RoundTrip.antt =====
-- Structs that serde_at/src/ser/mod.rs writes and serde_at/src/de/mod.rs reads.
use atat.Base.{
  ℕ, ◌-◌, ◌≤◌, ◌<◌, ◌≡◌, refl, sym, ap, ◌∙◌, inl, inr, true, false, [], ◌∷◌, ◌++◌, append-nil,
  append_assoc, Bytes, length, length-append, take, take-append, ok, arith,
}
use atat.Base.Outcome.{done}
use atat.Extern.Texts.{Texts, IsTexts}
use atat.SerdeAt.Ser.{SerializeOptions}
use atat.SerdeAt.Ser.Value.{Value, Fields, no_more, field, to_slice}
use atat.SerdeAt.Ser.Fields.{text_of, fields_text, IsArgument, AreArguments}
use atat.SerdeAt.Ser.Command.{equals, command_head, command_text, command_size, with_arguments}
use atat.SerdeAt.Ser.Slice.{to_slice-command_text}
use atat.SerdeAt.Deserializer.Shape.{Shape, Shapes, deserialize}
use atat.SerdeAt.Deserializer.Slice.{from_slice}
use atat.SerdeAt.Deserializer.Elements.{
  IsRead, read_bool, read_char, read_unsigned, read_signed, read_str, read_option, read_newtype,
  read_unit, shown,
}
use atat.SerdeAt.Deserializer.Listed.{
  listed, behind_comma, AreRead, read_no_more, read_present, read_absent, present_text,
}
use atat.SerdeAt.Deserializer.Trim.{AreBlank}
use atat.SerdeAt.Deserializer.Answer.{NoColon, FirstRead, first_present, answer}
use atat.SerdeAt.Deserializer.Lines.{from_slice-answer}

-- No field is behind one that is absent.
abbrev pub AreAbsent : Fields → Type 0
AreAbsent no_more = Unit
AreAbsent (field Value.none vs) = AreAbsent vs
AreAbsent (field v vs) = ⊥

abbrev pub AbsentLast : Fields → Type 0
AbsentLast no_more = Unit
AbsentLast (field Value.none vs) = AreAbsent vs
AbsentLast (field v vs) = AbsentLast vs

read-IsArgument : {x : Texts} (s : Shape) (v : Value) → IsRead x s v → IsArgument v
read-IsArgument s v (read_bool b) = tt
read-IsArgument s v (read_char c small plain no_feed) = tt
read-IsArgument s v (read_unsigned n bound k places lt fits) = (places, omega arith)
read-IsArgument s v (read_signed n half k fine) = fine
read-IsArgument s v (read_str n cs utf8 fits closed) = tt
read-IsArgument s v (read_option t w fine) = read-IsArgument t w fine
read-IsArgument s v (read_newtype t w fine) = read-IsArgument t w fine
read-IsArgument s v (read_unit n bound val vs places few fits small unit) = (places, few)

read-AreArguments : {x : Texts} (ss : Shapes) (vs : Fields) → AreRead x ss vs → AreArguments vs
read-AreArguments ss vs read_no_more = tt
read-AreArguments ss vs (read_present s ts v ws fine others) =
    (read-IsArgument s v fine, read-AreArguments ts ws others)
read-AreArguments ss vs (read_absent s ts ws others) = (tt, read-AreArguments ts ws others)

first-AreArguments : {x : Texts} (ss : Shapes) (vs : Fields) → FirstRead x ss vs → AreArguments vs
first-AreArguments ss vs (first_present s ts v ws fine others) =
    (read-IsArgument s v fine, read-AreArguments ts ws others)

text_of-shown :
    {x : Texts} (s : Shape) (v : Value) (out : Bytes)
    → IsRead x s v
    → text_of true v out ≡ out ++ shown v
text_of-shown s v out (read_bool b) = refl
text_of-shown s v out (read_char c small plain no_feed) = refl
text_of-shown s v out (read_unsigned n bound k places lt fits) = refl
text_of-shown s v out (read_signed n half k fine) = refl
text_of-shown s v out (read_str n cs utf8 fits closed) = refl
text_of-shown s v out (read_option t w fine) = text_of-shown t w out fine
text_of-shown s v out (read_newtype t w fine) = text_of-shown t w out fine
text_of-shown s v out (read_unit n bound val vs places few fits small unit) = refl

-- A field that is there is none of the absent ones.
read-AbsentLast :
    {x : Texts} (s : Shape) (v : Value) (vs : Fields)
    → IsRead x s v
    → AbsentLast (field v vs)
    → AbsentLast vs
read-AbsentLast s v vs (read_bool b) last = last
read-AbsentLast s v vs (read_char c small plain no_feed) last = last
read-AbsentLast s v vs (read_unsigned n bound k places lt fits) last = last
read-AbsentLast s v vs (read_signed n half k fine) last = last
read-AbsentLast s v vs (read_str n cs utf8 fits closed) last = last
read-AbsentLast s v vs (read_option t w fine) last = last
read-AbsentLast s v vs (read_newtype t w fine) last = last
read-AbsentLast s v vs (read_unit n bound val vs' places few fits small unit) last = last

absent-AbsentLast : (vs : Fields) → AreAbsent vs → AbsentLast vs
absent-AbsentLast no_more h = tt
absent-AbsentLast (field Value.none vs) h = h
absent-AbsentLast (field v vs) h = absurd h

absent-listed : (vs : Fields) → AreAbsent vs → listed vs ≡ []
absent-listed no_more h = refl
absent-listed (field Value.none vs) h = ap (behind_comma Value.none) (absent-listed vs h)
absent-listed (field v vs) h = absurd h

-- An absent field takes its comma back.
taken_back : (out : Bytes) → take (length (out ++ (b',' ∷ [])) - 1) (out ++ (b',' ∷ [])) ≡ out
taken_back out =
    ap (λ k. take k (out ++ (b',' ∷ []))) (omega (arith, length-append out (b',' ∷ [])))
    ∙ take-append out (b',' ∷ [])

fields_text-listed :
    {x : Texts} (ss : Shapes) (vs : Fields) (out : Bytes)
    → AreRead x ss vs
    → AbsentLast vs
    → fields_text true false vs out ≡ out ++ listed vs
fields_text-listed ss vs out read_no_more last = sym (append-nil out)
fields_text-listed ss vs out (read_present s ts v ws fine others) last =
    ap (fields_text true false ws) (text_of-shown s v (out ++ (b',' ∷ [])) fine)
    ∙ fields_text-listed ts ws ((out ++ (b',' ∷ [])) ++ shown v) others
        (read-AbsentLast s v ws fine last)
    ∙ append_assoc (out ++ (b',' ∷ [])) (shown v) (listed ws)
    ∙ append_assoc out (b',' ∷ []) (shown v ++ listed ws)
    ∙ ap (λ t. out ++ t) (sym (present_text s v (listed ws) fine))
fields_text-listed ss vs out (read_absent s ts ws others) last =
    ap (fields_text true false ws) (taken_back out)
    ∙ fields_text-listed ts ws out others (absent-AbsentLast ws last)
    ∙ ap (λ t. out ++ t)
        (absent-listed ws last ∙ sym (ap (behind_comma Value.none) (absent-listed ws last)))

answer_text :
    {x : Texts} (o : SerializeOptions) (cmd name : Bytes) (ss : Shapes) (vs : Fields)
    → FirstRead x ss vs
    → AbsentLast vs
    → o.quote_escape_strings ≡ true
    → o.value_sep ≡ false
    → command_head o cmd ≡ b'+' ∷ (name ++ (b':' ∷ []))
    → command_text o cmd (Value.struct vs) ≡ answer name [] vs [] ++ o.termination
answer_text o cmd name ss vs (first_present s ts v ws fine others) last quotes no_sep head =
    let start = command_head o cmd in
    ap (λ q. fields_text q false ws (text_of q v (start ++ equals o.value_sep)) ++ o.termination)
      quotes
    ∙ ap (λ b. fields_text true false ws (text_of true v (start ++ equals b)) ++ o.termination)
        no_sep
    ∙ ap (λ t. fields_text true false ws t ++ o.termination) (text_of-shown s v (start ++ []) fine)
    ∙ ap (λ t. t ++ o.termination)
        (fields_text-listed ts ws ((start ++ []) ++ shown v) others
            (read-AbsentLast s v ws fine last)
          ∙ append_assoc (start ++ []) (shown v) (listed ws)
          ∙ append_assoc start [] (shown v ++ listed ws)
          ∙ ap (λ t. t ++ (shown v ++ listed ws)) head
          ∙ ap (◌∷◌ b'+') (append_assoc name (b':' ∷ []) (shown v ++ listed ws))
          ∙ ap (λ t. b'+' ∷ (name ++ (b':' ∷ t))) (sym (append-nil (shown v ++ listed ws))))

-- With lawful texts, a struct of numbers of their types, plain characters, texts whose quotes are
-- escaped, units of enums and options, whose first field is there and in which nothing but absent
-- options follows an absent one, that is written with quotes, without the separator of a command,
-- with an identifier between `+` and `:`, and with whitespace behind it, into a buffer with room for
-- it, is read back as the same struct by `from_slice` of the bytes that `to_slice` says it wrote.
pub from_slice-to_slice :
    (x : Texts) (laws : IsTexts x) (o : SerializeOptions) (cmd name buf : Bytes) (ss : Shapes)
    (vs : Fields)
    → FirstRead x ss vs
    → AbsentLast vs
    → o.quote_escape_strings ≡ true
    → o.value_sep ≡ false
    → command_head o cmd ≡ b'+' ∷ (name ++ (b':' ∷ []))
    → NoColon name
    → AreBlank o.termination
    → command_size o cmd (Value.struct vs) ≤ length buf
    → (n : ℕ) × (left : Bytes) × (to_slice (Value.struct vs) cmd buf o ≡ done (ok (n, left)))
      × (from_slice (deserialize x (Shape.struct ss)) (take n left) ≡ ok (Value.struct vs))
from_slice-to_slice x laws o cmd name buf ss vs fine last quotes no_sep head named blank room =
    let arguments = first-AreArguments ss vs fine in
    let filled : 0 < length (command_head o cmd) = omega (arith, ap length head) in
    elim (to_slice-command_text o cmd (Value.struct vs) buf (with_arguments vs arguments) filled) [
      | inl (left, runs, same, size) ↦ (
        length (command_text o cmd (Value.struct vs)),
        left,
        runs,
        ap (from_slice (deserialize x (Shape.struct ss)))
              (same ∙ answer_text o cmd name ss vs fine last quotes no_sep head)
            ∙ from_slice-answer x laws name [] named tt ss vs [] o.termination fine tt blank,
      )
      | inr (full, short) ↦ absurd (omega arith)
    ]
