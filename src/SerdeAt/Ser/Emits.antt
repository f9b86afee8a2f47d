-- ===== src/SerdeAt/Ser/Emits.antt =====
-- The serializer of serde_at/src/ser/mod.rs as a text that grows: its buffer up to `written`.
use atat.Base.{
  ℕ, zero, suc, ◌+◌, ◌-◌, ◌≤◌, ◌<◌, ◌≡◌, refl, sym, ap, ◌∙◌, Bool, [], ◌∷◌, ◌++◌, append-nil,
  append_assoc, Bytes, length, take, drop, length-append, length-take, length-drop, kept, leb, ltb,
  leb→le, Bool-cases, inl, inr, if_true, if_false, ok, err, arith,
}
use atat.Base.Outcome.{done}
use atat.SerdeAt.Ser.{
  Serializer, SerializeOptions, buffer_full, Ser, ◌>>?◌, extend_from_slice, push, one_less,
  serialize_none,
}

-- The bytes written so far.
abbrev pub text : Serializer → Bytes
text s = take s.written s.buf

one_less_lem :
    (n : ℕ) (s : Serializer) → 0 < n → one_less n s ≡ done (ok (record s { written = n - 1 }))
one_less_lem zero s pos = absurd (omega arith)
one_less_lem (suc n) s pos = ap (λ k. done (ok (record s { written = k }))) (omega arith)

take-take : (j k : ℕ) (bytes : Bytes) → j ≤ k → take j (take k bytes) ≡ take j bytes
take-take zero k bytes le = refl
take-take (suc j) zero bytes le = absurd (omega arith)
take-take (suc j) (suc k) [] le = refl
take-take (suc j) (suc k) (c ∷ cs) le = ap (◌∷◌ c) (take-take j k cs (omega arith))

module _ (o : SerializeOptions) (cmd : Bytes) (inside : Bool) where
  -- A serializer of the command `cmd`, at its arguments where `inside` is true.
  pub record IsArg (s : Serializer) : Type 0 where
    pub valid : s.written ≤ length s.buf
    pub options_kept : s.options ≡ o
    pub cmd_kept : s.cmd ≡ cmd
    pub nested : s.nested_struct ≡ inside

  -- The run leaves the text `out`, for which `room` more bytes are enough, or finds the buffer full,
  -- which has not that many.
  pub data Emits (s : Serializer) (out : Bytes) (room : ℕ) (run : Ser) : Type 0 where
    emitted :
        (t : Serializer)
        → run ≡ done (ok t)
        → IsArg t
        → text t ≡ out
        → length t.buf ≡ length s.buf
        → length out ≤ length (text s) + room
        → Emits s out room run
    full :
        run ≡ done (err buffer_full) → length s.buf < length (text s) + room → Emits s out room run

pub text-length : (s : Serializer) → s.written ≤ length s.buf → length (text s) ≡ s.written
text-length s valid = omega (arith, length-take s.written s.buf)

-- The buffer with `bytes` behind the text.
put : Bytes → Serializer → Serializer
put bytes s = record s {
  buf = take s.written s.buf ++ (bytes ++ drop (s.written + length bytes) s.buf);
  written = s.written + length bytes;
}

put-text :
    (bytes : Bytes) (s : Serializer)
    → s.written ≤ length s.buf
    → text (put bytes s) ≡ text s ++ bytes
unfolding put
put-text bytes s valid =
    ap (take (s.written + length bytes))
      (sym (append_assoc (text s) bytes (drop (s.written + length bytes) s.buf)))
    ∙ kept (s.written + length bytes) (text s ++ bytes) (drop (s.written + length bytes) s.buf)
        (omega (arith, length-append (text s) bytes, text-length s valid))

put-length :
    (bytes : Bytes) (s : Serializer)
    → s.written + length bytes ≤ length s.buf
    → length (put bytes s).buf ≡ length s.buf
unfolding put
put-length bytes s fits = omega (
  arith,
  length-append (text s) (bytes ++ drop (s.written + length bytes) s.buf),
  length-append bytes (drop (s.written + length bytes) s.buf),
  length-drop (s.written + length bytes) s.buf,
  text-length s (omega arith),
)

module _ {o : SerializeOptions} {cmd : Bytes} {inside : Bool} where
  behind-Emits :
      (s t : Serializer) (out out' : Bytes) (a b : ℕ) (run : Ser) (next : Serializer → Ser)
      → run ≡ done (ok t)
      → text t ≡ out
      → length t.buf ≡ length s.buf
      → length out ≤ length (text s) + a
      → Emits o cmd inside t out' b (next t)
      → Emits o cmd inside s out' (a + b) (run >>? next)
  behind-Emits s t out out' a b run next e same size grows (emitted u e2 arg same2 size2 grows2) =
      emitted u (ap (λ x. x >>? next) e ∙ e2) arg same2 (size2 ∙ size)
        (omega (arith, ap length same))
  behind-Emits s t out out' a b run next e same size grows (full e2 lt) =
      full (ap (λ x. x >>? next) e ∙ e2) (omega (arith, ap length same))

  -- What one run behind another one emits.
  pub and_then-Emits :
      (s : Serializer) (out out' : Bytes) (a b : ℕ) (run : Ser) (next : Serializer → Ser)
      → Emits o cmd inside s out a run
      → ((t : Serializer)
          → IsArg o cmd inside t
          → text t ≡ out
          → Emits o cmd inside t out' b (next t))
      → Emits o cmd inside s out' (a + b) (run >>? next)
  and_then-Emits s out out' a b run next (emitted t e arg same size grows) h =
      behind-Emits s t out out' a b run next e same size grows (h t arg same)
  and_then-Emits s out out' a b run next (full e lt) h = full (ap (λ x. x >>? next) e) (omega arith)

  -- The same output, written in another way.
  pub same-Emits :
      (s : Serializer) (out out' : Bytes) (a b : ℕ) (run : Ser)
      → Emits o cmd inside s out a run
      → out ≡ out'
      → a ≡ b
      → Emits o cmd inside s out' b run
  same-Emits s out out' a b run h same size = rw (sym same, sym size) h

  -- The same run, written in another way.
  pub run-Emits :
      (s : Serializer) (out : Bytes) (a : ℕ) (run run' : Ser)
      → run ≡ run'
      → Emits o cmd inside s out a run'
      → Emits o cmd inside s out a run
  run-Emits s out a run run' e h = rw e h

  pub nothing-Emits :
      (s : Serializer) → IsArg o cmd inside s → Emits o cmd inside s (text s) 0 (done (ok s))
  nothing-Emits s arg = emitted s refl arg refl refl (omega arith)

  pub empty-Emits :
      (s : Serializer) → IsArg o cmd inside s → Emits o cmd inside s (text s ++ []) 0 (done (ok s))
  empty-Emits s arg =
      same-Emits s (text s) _ 0 0 _ (nothing-Emits s arg) (sym (append-nil (text s))) refl

  put-Emits :
      (bytes : Bytes) (s : Serializer) (run : Ser)
      → IsArg o cmd inside s
      → s.written + length bytes ≤ length s.buf
      → run ≡ done (ok (put bytes s))
      → Emits o cmd inside s (text s ++ bytes) (length bytes) run
  unfolding put
  put-Emits bytes s run arg fits e =
      emitted (put bytes s) e
        (record {
          valid = omega (arith, put-length bytes s fits);
          options_kept = arg.options_kept;
          cmd_kept = arg.cmd_kept;
          nested = arg.nested;
        })
        (put-text bytes s arg.valid) (put-length bytes s fits)
        (omega (arith, length-append (text s) bytes))

  pub extend-Emits :
      (bytes : Bytes) (s : Serializer)
      → IsArg o cmd inside s
      → Emits o cmd inside s (text s ++ bytes) (length bytes) (done (extend_from_slice bytes s))
  unfolding extend_from_slice put
  extend-Emits bytes s arg = elim (Bool-cases (leb (s.written + length bytes) (length s.buf))) [
    | inl fits ↦
        put-Emits bytes s _ arg (leb→le _ _ fits)
          (ap done (if_true (leb (s.written + length bytes) (length s.buf)) _ _ fits))
    | inr no_room ↦
        full (ap done (if_false (leb (s.written + length bytes) (length s.buf)) _ _ no_room))
          (ground (arith, text-length s arg.valid))
  ]

  pub push-Emits :
      (c : ℕ) (s : Serializer)
      → IsArg o cmd inside s
      → Emits o cmd inside s (text s ++ (c ∷ [])) 1 (done (push c s))
  unfolding push put
  push-Emits c s arg = elim (Bool-cases (ltb s.written (length s.buf))) [
    | inl fits ↦
        put-Emits (c ∷ []) s _ arg (ground arith)
          (ap done (if_true (ltb s.written (length s.buf)) _ _ fits))
    | inr no_room ↦
        full (ap done (if_false (ltb s.written (length s.buf)) _ _ no_room))
          (ground (arith, text-length s arg.valid))
  ]

  one_less-Emits :
      (n : ℕ) (s : Serializer)
      → IsArg o cmd inside s
      → s.written ≡ suc n
      → Emits o cmd inside s (take n (text s)) 0 (done (ok (record s { written = n })))
  one_less-Emits n s arg e =
      emitted (record s { written = n }) refl
        (record {
          valid = omega (arith, arg.valid);
          options_kept = arg.options_kept;
          cmd_kept = arg.cmd_kept;
          nested = arg.nested;
        })
        (sym (take-take n s.written s.buf (omega arith))) refl
        (omega (arith, length-take n (text s)))

  pub none-Emits :
      (s : Serializer)
      → IsArg o cmd inside s
      → 0 < length (text s)
      → Emits o cmd inside s (take (length (text s) - 1) (text s)) 0 (serialize_none s)
  unfolding serialize_none
  none-Emits s arg pos =
      same-Emits s (take (s.written - 1) (text s)) _ 0 0 _
        (rw (one_less_lem s.written s (omega (arith, text-length s arg.valid)))
          (one_less-Emits (s.written - 1) s arg (omega (arith, text-length s arg.valid))))
        (ap (λ k. take (k - 1) (text s)) (sym (text-length s arg.valid))) refl
