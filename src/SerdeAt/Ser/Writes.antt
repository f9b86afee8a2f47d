-- ===== src/SerdeAt/Ser/Writes.antt =====
-- What each method of serde_at/src/ser/mod.rs writes, and that a value among the arguments is written as
-- the text for it.
use atat.Base.{
  ℕ, zero, suc, ◌+◌, ◌-◌, ◌^◌, ◌<◌, ◌==◌, ◌≡◌, refl, sym, ap, ◌∙◌, Bool, true, false, Bool-cases,
  inl, inr, List, [], ◌∷◌, ◌++◌, append-nil, append_assoc, Bytes, length, length-append, if_true,
  if_false, arith,
}
use atat.Base.Int.{ℤ, pos, negsuc}
use atat.Base.Outcome.{done, ◌>>=◌}
use atat.SerdeAt.Ser.{
  Serializer, SerializeOptions, extend_from_slice, push_if, signed_digits, signed_parts, with_sign,
  serialize_unsigned, serialize_signed, serialize_bool, serialize_str, write_chars,
}
use atat.SerdeAt.Ser.Value.{variant_begin}
use atat.SerdeAt.Ser.Emits.{
  text, IsArg, Emits, and_then-Emits, same-Emits, run-Emits, empty-Emits, extend-Emits, push-Emits,
}
use atat.SerdeAt.Ser.Text.{decimal_text, unsigned_digits-decimal_text, signed_digits_lem}
use atat.Extern.Texts.{concat}
use atat.SerdeAt.Ser.Fields.{bool_text, signed_text, quote, IsSigned}

unsigned_runs :
    (n v : ℕ) (s : Serializer)
    → 0 < n
    → v < 10 ^ n
    → serialize_unsigned n v s ≡ done (extend_from_slice (decimal_text n v) s)
unfolding serialize_unsigned
unsigned_runs n v s some lt =
    ap (λ x. x >>= λ out. done (extend_from_slice out s))
      (unsigned_digits-decimal_text n v [] some lt)
    ∙ ap (λ out. done (extend_from_slice out s)) (append-nil (decimal_text n v))

signed_decimal_text :
    (n v : ℕ) → 1 < n → v < 10 ^ (n - 1) → signed_digits n v [] ≡ done (decimal_text (n - 1) v)
signed_decimal_text zero v some lt = absurd (omega arith)
signed_decimal_text (suc i) v some lt =
    let back : suc i - 1 ≡ i = omega arith in
    signed_digits_lem i v []
    ∙ unsigned_digits-decimal_text i v [] (omega arith) (rw (sym back) lt)
    ∙ ap done (append-nil (decimal_text i v) ∙ ap (λ k. decimal_text k v) (sym back))

signed_with_runs :
    (n half v : ℕ) (sign : Bool) (z : ℤ) (s : Serializer)
    → 1 < n
    → v < 10 ^ (n - 1)
    → signed_parts half z ≡ (sign, v)
    → serialize_signed n half z s
      ≡ done (extend_from_slice (with_sign sign (decimal_text (n - 1) v)) s)
unfolding serialize_signed
signed_with_runs n half v sign z s some lt parts =
    ap (λ x. signed_digits n x.1 [] >>= λ out. done (extend_from_slice (with_sign x.0 out) s)) parts
    ∙ ap (λ x. x >>= λ out. done (extend_from_slice (with_sign sign out) s))
        (signed_decimal_text n v some lt)

pub signed_runs :
    (n half : ℕ) (v : ℤ) (s : Serializer)
    → IsSigned n half v
    → serialize_signed n half v s ≡ done (extend_from_slice (signed_text n v) s)
unfolding signed_parts
signed_runs n half (pos v) s (places, lt, fits) =
    signed_with_runs n half v false (pos v) s places (omega arith) refl
signed_runs n half (negsuc v) s (places, lt, fits) =
    signed_with_runs n half (v + 1) true (negsuc v) s places (omega arith)
      (elim (Bool-cases (v + 1 == half)) [
        | inl least ↦ if_true (v + 1 == half) _ _ least ∙ ap (λ m. (true, m)) (ground arith)
        | inr above ↦ if_false (v + 1 == half) _ _ above
      ])

module _ {o : SerializeOptions} {cmd : Bytes} {inside : Bool} where
  pub push_if-Emits :
      (b : Bool) (s : Serializer)
      → IsArg o cmd inside s
      → Emits o cmd inside s (text s ++ quote b) (length (quote b)) (push_if b b'"' s)
  unfolding push_if
  push_if-Emits true s arg = push-Emits b'"' s arg
  push_if-Emits false s arg = empty-Emits s arg

  chars-Emits :
      (cs : List Bytes) (s : Serializer)
      → IsArg o cmd inside s
      → Emits o cmd inside s (text s ++ concat cs) (length (concat cs)) (write_chars cs s)
  unfolding write_chars
  chars-Emits [] s arg = empty-Emits s arg
  chars-Emits (c ∷ cs) s arg =
      same-Emits s (text s ++ (c ++ concat cs)) _ (length c + length (concat cs)) _ _
        (and_then-Emits s (text s ++ c) _ _ _ _ _ (extend-Emits c s arg) λ t arg_t e.
          same-Emits t _ _ _ _ _ (chars-Emits cs t arg_t)
            (ap (λ x. x ++ concat cs) e ∙ append_assoc (text s) c (concat cs)) refl)
        refl (sym (length-append c (concat cs)))

  quote-Emits :
      (s : Serializer)
      → IsArg o cmd inside s
      → Emits o cmd inside s
          (text s ++ quote o.quote_escape_strings)
          (length (quote o.quote_escape_strings))
          (push_if s.options.quote_escape_strings b'"' s)
  quote-Emits s arg =
      run-Emits s _ _ _ _ (ap (λ x. push_if x.quote_escape_strings b'"' s) arg.options_kept)
        (push_if-Emits o.quote_escape_strings s arg)

  pub str-Emits :
      (cs : List Bytes) (s : Serializer)
      → IsArg o cmd inside s
      → Emits o cmd inside s
          (text s ++ (quote o.quote_escape_strings ++ (concat cs ++ quote o.quote_escape_strings)))
          (length (quote o.quote_escape_strings)
            + (length (concat cs) + length (quote o.quote_escape_strings)))
          (serialize_str cs s)
  unfolding serialize_str
  str-Emits cs s arg =
      let q : Bytes = quote o.quote_escape_strings in
      same-Emits s (((text s ++ q) ++ concat cs) ++ q) _
        ((length q + length (concat cs)) + length q) _ _
        (and_then-Emits s ((text s ++ q) ++ concat cs) _ _ _ _ _
          (and_then-Emits s (text s ++ q) _ _ _ _ _ (quote-Emits s arg) λ t arg_t e.
            same-Emits t _ _ _ _ _ (chars-Emits cs t arg_t) (ap (λ x. x ++ concat cs) e) refl)
          λ t arg_t e. same-Emits t _ _ _ _ _ (quote-Emits t arg_t) (ap (λ x. x ++ q) e) refl)
        (ap (λ x. x ++ q) (append_assoc (text s) q (concat cs))
          ∙ append_assoc (text s) (q ++ concat cs) q
          ∙ ap (λ x. text s ++ x) (append_assoc q (concat cs) q))
        (omega arith)

  pub unsigned-Emits :
      (n v : ℕ) (s : Serializer)
      → IsArg o cmd inside s
      → 0 < n
      → v < 10 ^ n
      → Emits o cmd inside s
          (text s ++ decimal_text n v)
          (length (decimal_text n v))
          (serialize_unsigned n v s)
  unsigned-Emits n v s arg some lt =
      rw (unsigned_runs n v s some lt) (extend-Emits (decimal_text n v) s arg)

  pub begin-Emits :
      (index : ℕ) (s : Serializer)
      → IsArg o cmd inside s
      → index < 10 ^ 10
      → Emits o cmd inside s
          ((text s ++ decimal_text 10 index) ++ (b',' ∷ []))
          (length (decimal_text 10 index) + 1)
          (variant_begin index s)
  unfolding variant_begin
  begin-Emits index s arg lt =
      and_then-Emits s (text s ++ decimal_text 10 index) _ _ _ _ _
        (unsigned-Emits 10 index s arg (omega arith) lt)
        λ t arg_t e.
          same-Emits t _ _ _ _ _ (push-Emits b',' t arg_t) (ap (λ x. x ++ (b',' ∷ [])) e) refl

  pub bool-Emits :
      (b : Bool) (s : Serializer)
      → IsArg o cmd inside s
      → Emits o cmd inside s (text s ++ bool_text b) (length (bool_text b)) (serialize_bool b s)
  unfolding serialize_bool
  bool-Emits true s arg = extend-Emits _ s arg
  bool-Emits false s arg = extend-Emits _ s arg
