-- ===== src/Ingress/Stuck.antt =====
-- `write` of atat/src/ingress.rs on a buffer that is full of bytes that the digester makes nothing of.
use atat.Base.{
  ◌+◌, ◌≤◌, ◌≡◌, refl, ap, ◌∙◌, ◌==◌, leb, le→leb, if◌then◌else◌, ℕ, zero, suc, ◌∷◌, ◌++◌, Bytes,
  length, take, drop, length-drop, take-append-drop, ok, Bool-cases, inl, inr, arith,
}
use Prim.Native.Nat.{min}
use atat.Base.Outcome.{panic, done, out_of_fuel}
use atat.Digest.Types.{DigestResult}
use atat.Ingress.{
  Env, Ingress, Publish, write_buf, copy_in, handle, drain, commit_with, advance, write_loop,
  publish_or_wait,
}
use atat.Ingress.Reads.{pending}

plus_zero : (k : ℕ) → k + 0 ≡ k
plus_zero k = omega arith

module _ (e : Env) where
  -- The buffer is full, and the digester finds nothing in it, takes nothing and stays as it is.
  pub record IsStuck (s : Ingress e) : Type 0 where
    pub full : s.pos ≡ length s.buf
    pub finds_nothing :
        e.digest s.digester (pending s) ≡ done (s.digester, (DigestResult.nothing, 0))

  drain-IsStuck :
      (publish : Publish e) (fuel : ℕ) (s : Ingress e)
      → s.pos ≤ fuel
      → IsStuck s
      → drain e fuel publish s ≡ done (s, ok tt)
  unfolding drain handle
  drain-IsStuck publish zero s le h = let empty : s.pos ≡ 0 = omega arith in rw (empty, drain) refl
  drain-IsStuck publish (suc fuel) s le h = elim (Bool-cases (s.pos == 0)) [
    | inl empty ↦ rw (empty, drain) refl
    | inr more ↦ rw (more, h.finds_nothing, drain) refl
  ]

  copy_in-zero : (src : Bytes) (s : Ingress e) → copy_in e 0 src s ≡ s
  unfolding copy_in
  copy_in-zero src s =
      ap (λ k. record s { buf = take s.pos s.buf ++ drop k s.buf }) (plus_zero s.pos)
      ∙ ap (λ b. record s { buf = b }) (take-append-drop s.pos s.buf)

  advance-IsStuck : (s : Ingress e) → IsStuck s → advance e 0 s ≡ done (s, ok tt)
  unfolding advance commit_with
  advance-IsStuck s h =
      ap
        (λ k.
          if leb k (length s.buf)
          then drain e k (publish_or_wait e) (record s { pos = k })
          else panic)
        (plus_zero s.pos)
      ∙ ap (λ b. if b then drain e s.pos (publish_or_wait e) s else panic)
          (le→leb s.pos (length s.buf) (omega (arith, h.full)))
      ∙ drain-IsStuck (publish_or_wait e) s.pos s (omega arith) h

  -- On a full buffer in which the digester finds nothing and takes nothing, no number of rounds of
  -- the loop of `write` is enough to write a byte.
  pub write_loop-IsStuck :
      (fuel : ℕ) (b : ℕ) (bs : Bytes) (s : Ingress e)
      → IsStuck s
      → write_loop e fuel (b ∷ bs) s ≡ out_of_fuel
  unfolding write_loop write_buf
  write_loop-IsStuck zero b bs s h = refl
  write_loop-IsStuck (suc fuel) b bs s h =
      let none : min (length (b ∷ bs)) (length (drop s.pos s.buf)) ≡ 0 =
        omega (arith, length-drop s.pos s.buf, h.full) in
      rw none
        (rw (copy_in-zero (b ∷ bs) s) (rw (advance-IsStuck s h) (write_loop-IsStuck fuel b bs s h)))
