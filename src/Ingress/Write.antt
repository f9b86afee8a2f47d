-- ===== src/Ingress/Write.antt =====
-- `try_write` of atat/src/ingress.rs: a slice is taken in piece by piece.
use atat.Base.{
  ◌+◌, ◌≤◌, ◌<◌, ◌≡◌, refl, ap, ◌∙◌, ◌==◌, ==_iff, ℕ, zero, suc, Bool, true, false, [], ◌∷◌, ◌⊎◌,
  Bytes, length, drop, length-drop, Result, ok, err, Bool-cases, inl, inr, arith,
}
use Prim.Native.Nat.{min}
use atat.Base.Outcome.{done, ◌>>=◌}
use atat.Ingress.{
  Env, Ingress, IngressError, urc_channel_full, write_buf, copy_in, try_advance, unless_no_room,
  Write, or_return, try_write_loop, try_write,
}
use atat.Ingress.Advance.{
  IsIdle, copy_in-length, copy_in-IsIdle, Drained-IsIdle, try_advance-Drained,
}
use atat.Ingress.Handled.{IsEnv}
use atat.Ingress.Reads.{Status}

module _ (e : Env) where
  -- A write of `todo` bytes, of which `before` were written earlier, ends in `t`: all are written, or the
  -- buffer is full, or the URC channel is.
  abbrev Counts : ℕ → ℕ → Ingress e → Result ℕ IngressError → Type 0
  Counts todo before t (ok n) = (n ≡ before + todo) ⊎ ((n ≤ before + todo) × (t.pos ≡ length t.buf))
  Counts todo before t (err x) = x ≡ urc_channel_full

  pub record Written (size todo before : ℕ) (run : Write e) : Type 0 where
    pub after : Ingress e
    pub status : Result ℕ IngressError
    pub runs : run ≡ done (after, status)
    pub counts : Counts todo before after status
    pub idle : IsIdle e after
    pub same_length : length after.buf ≡ size

  none-Written :
      (s : Ingress e) (todo written : ℕ) (run : Write e)
      → IsIdle e s
      → (todo ≡ 0) ⊎ (s.pos ≡ length s.buf)
      → run ≡ done (s, ok written)
      → Written (length s.buf) todo written run
  none-Written s todo written run h why runs = record {
    after = s;
    status = ok written;
    runs = runs;
    counts = elim why [ inl nothing ↦ inl (omega arith) | inr full ↦ inr (omega arith, full) ];
    idle = h;
    same_length = refl;
  }

  shift-Counts :
      (len todo left written : ℕ) (t : Ingress e) (r : Result ℕ IngressError)
      → len + left ≡ todo
      → Counts left (written + len) t r
      → Counts todo written t r
  shift-Counts len todo left written t (ok n) split c = elim c [
    | inl all ↦ inl (omega arith)
    | inr (some, full) ↦ inr (omega arith, full)
  ]
  shift-Counts len todo left written t (err x) split c = c

  -- One piece of `len` bytes, that brings the ingress to `t`.
  piece-Written :
      (fuel len : ℕ) (src : Bytes) (written size : ℕ) (t : Ingress e)
      (r : Result (Unit {0}) IngressError)
      → len ≤ length src
      → IsIdle e t
      → length t.buf ≡ size
      → (r ≡ ok tt) ⊎ (r ≡ err urc_channel_full)
      → Written
          (length t.buf)
          (length (drop len src))
          (written + len)
          (try_write_loop e fuel (drop len src) (written + len) t)
      → Written size
          (length src)
          written
          (or_return e (try_write_loop e fuel (drop len src) (written + len)) (t, r))
  piece-Written fuel len src written size t (err x) le idle same is again = record {
    after = t;
    status = err x;
    runs = refl;
    counts = elim is [ inl h ↦ absurd cc | inr h ↦ cc ];
    idle = idle;
    same_length = same;
  }
  piece-Written fuel len src written size t (ok _) le idle same is again = record {
    after = again.after;
    status = again.status;
    runs = again.runs;
    counts =
        shift-Counts len (length src) (length (drop len src)) written again.after again.status
          (omega (arith, length-drop len src)) again.counts;
    idle = again.idle;
    same_length = again.same_length ∙ same;
  }

  Status-cases :
      (full : Bool) {r : Result (Unit {0}) IngressError}
      → Status e full r
      → (r ≡ ok tt) ⊎ (r ≡ err urc_channel_full)
  Status-cases false h = inl h
  Status-cases true h = inr h

  try_write_loop_lem :
      (laws : IsEnv e) (fuel : ℕ) (src : Bytes) (written : ℕ) (s : Ingress e)
      → length src ≤ fuel
      → IsIdle e s
      → Written (length s.buf) (length src) written (try_write_loop e fuel src written s)
  unfolding try_write_loop write_buf copy_in
  try_write_loop_lem laws fuel [] written s enough h = none-Written s 0 written _ h (inl refl) refl
  try_write_loop_lem laws zero (b ∷ bs) written s enough h = absurd (omega arith)
  try_write_loop_lem laws (suc fuel) (b ∷ bs) written s enough h =
      let room = length (drop s.pos s.buf) in
      let len = min (length (b ∷ bs)) room in
      let src = b ∷ bs in
      let u = copy_in e len src s in
      let next = try_write_loop e fuel (drop len src) (written + len) in
      let rest = try_advance e len u >>= or_return e next in
      elim (Bool-cases (room == 0)) [
        | inl none ↦
            let empty : room ≡ 0 = (==_iff room 0).0 none in
            none-Written s (length src) written _ h
              (inr (omega (arith, empty, length-drop s.pos s.buf, h.in_buf)))
              (ap (λ x. unless_no_room e x s written rest) none)
        | inr more ↦
            let some : 0 < room = ground arith in
            let fits : u.pos + len ≤ length s.buf = omega (arith, length-drop s.pos s.buf) in
            let size : length u.buf ≡ length s.buf =
              copy_in-length e len src s (omega arith) fits in
            let idle : IsIdle e u = copy_in-IsIdle e len src s (omega arith) fits h in
            let x = try_advance-Drained e laws len u idle (omega (arith, size)) in
            let later : IsIdle e (record u { pos = u.pos + len }) = record {
              in_buf = omega (arith, size);
              small = omega (arith, size, h.small);
              free = h.free;
            } in
            let y =
              Drained-IsIdle e e.pub_sub.try_publish (record u { pos = u.pos + len }) later x in
            let runs : try_write_loop e (suc fuel) src written s
                ≡ or_return e next (x.after, x.status) =
              ap (λ b. unless_no_room e b s written rest) more
              ∙ ap (λ o. o >>= or_return e next) x.runs in
            rw runs (
              piece-Written fuel len src written (length s.buf) x.after x.status (omega arith) y
                (x.same_length ∙ size) (Status-cases x.full x.status_is)
                (try_write_loop_lem laws fuel (drop len src) (written + len) x.after
                  (omega (arith, length-drop len src)) y))
      ]

  -- In a lawful environment, from an idle ingress, `try_write` of any bytes ends without a panic and
  -- leaves the ingress idle; it reports that all bytes were written, or no more than all where the
  -- buffer is full, or `UrcChannelFull`.
  pub try_write-Written :
      (laws : IsEnv e) (src : Bytes) (s : Ingress e)
      → IsIdle e s
      → Written (length s.buf) (length src) 0 (try_write e src s)
  unfolding try_write
  try_write-Written laws src s h = try_write_loop_lem laws (length src) src 0 s (omega arith) h
