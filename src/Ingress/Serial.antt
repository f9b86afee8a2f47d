-- ===== src/Ingress/Serial.antt =====
-- `read_from` and `write` of atat/src/ingress.rs.
use atat.Base.{
  ◌+◌, ◌≤◌, ◌≡◌, refl, ap, ◌∙◌, ◌==◌, ℕ, Option, some, none, List, [], ◌∷◌, Bytes, length, drop,
  length-drop, Bool-cases, inl, inr, arith,
}
use atat.Base.Outcome.{Outcome, done, ◌>>=◌}
use atat.Ingress.{
  Env, Ingress, write_buf, copy_in, clear, receive, read_round, read_from, publish_or_wait,
}
use atat.Ingress.Advance.{IsIdle, copy_in-length, copy_in-IsIdle, Drained-IsIdle, advance-Drained}
use atat.Ingress.Handled.{IsEnv}

-- A serial port fills no more than the buffer that it is given.
abbrev pub Fills : (ℕ → Option Bytes) → Type 0
Fills serial = (room : ℕ) (bs : Bytes) → serial room ≡ some bs → length bs ≤ room

abbrev pub AllFill : List (ℕ → Option Bytes) → Type 0
AllFill [] = Unit
AllFill (serial ∷ rest) = Fills serial × AllFill rest

module _ (e : Env) (laws : IsEnv e) where
  -- A step that ends, and keeps an ingress idle with its buffer's length.
  abbrev pub Keeps : Ingress e → Outcome (Ingress e) → Type 0
  Keeps s run = (t : Ingress e) × (run ≡ done t) × IsIdle e t × (length t.buf ≡ length s.buf)

  clear-Keeps : (s : Ingress e) → IsIdle e s → Keeps s (done (clear e s))
  unfolding clear
  clear-Keeps s h =
      (clear e s, refl, record { in_buf = omega arith; small = h.small; free = h.free }, refl)

  receive-Keeps :
      (o : Option Bytes) (s : Ingress e)
      → IsIdle e s
      → ((bs : Bytes) → o ≡ some bs → s.pos + length bs ≤ length s.buf)
      → Keeps s (receive e o s)
  unfolding copy_in
  receive-Keeps none s h fits = clear-Keeps s h
  receive-Keeps (some []) s h fits = (s, refl, h, refl)
  receive-Keeps (some (b ∷ bs)) s h fits =
      let src = b ∷ bs in
      let len = length src in
      let u = copy_in e len src s in
      let room = fits src refl in
      let size : length u.buf ≡ length s.buf = copy_in-length e len src s (omega arith) room in
      let idle : IsIdle e u = copy_in-IsIdle e len src s (omega arith) room h in
      let (x, fine) = advance-Drained e laws len u idle (omega (arith, size)) in
      let later : IsIdle e (record u { pos = u.pos + len }) = record {
        in_buf = omega (arith, size);
        small = idle.small;
        free = idle.free;
      } in
      (
        x.after,
        ap (λ o. o >>= λ (t, _). done t) x.runs,
        Drained-IsIdle e (publish_or_wait e) (record u { pos = u.pos + len }) later x,
        x.same_length ∙ size,
      )

  read_round-Keeps :
      (serial : ℕ → Option Bytes) (s : Ingress e)
      → Fills serial
      → IsIdle e s
      → Keeps s (read_round e serial s)
  unfolding read_round write_buf
  read_round-Keeps serial s fills h =
      let room = length (drop s.pos s.buf) in
      let some : Keeps s (receive e (serial room) s) =
        receive-Keeps (serial room) s h
          (λ bs got. omega (arith, fills room bs got, length-drop s.pos s.buf, h.in_buf)) in
      elim (Bool-cases (room == 0)) [
        | inl full ↦ rw full (clear-Keeps s h)
        | inr free ↦ rw free some
      ]

  -- In a lawful environment and from an idle ingress, whatever the serial port answers in each round
  -- of `read_from`, bytes or an error, no round panics and the ingress stays idle with a buffer of
  -- the same length, as long as the port fills no more than the buffer that it is given.
  pub read_from-Keeps :
      (serials : List (ℕ → Option Bytes)) (s : Ingress e)
      → AllFill serials
      → IsIdle e s
      → Keeps s (read_from e serials s)
  unfolding read_from
  read_from-Keeps [] s fill h = (s, refl, h, refl)
  read_from-Keeps (serial ∷ rest) s (fill, fills) h =
      let (t, runs, idle, size) = read_round-Keeps serial s fill h in
      let (u, runs', idle', size') = read_from-Keeps rest t fills idle in
      (u, rw runs runs', idle', size' ∙ size)
