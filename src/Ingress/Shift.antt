-- ===== src/Ingress/Shift.antt =====
-- What one round of the loop in atat/src/ingress.rs does to the buffer and to the response slot.
use atat.Base.{
  ℕ, zero, suc, ◌+◌, ◌-◌, ◌≤◌, ◌≡◌, refl, ap, ◌∙◌, Bool, true, false, Option, some, none, [], ◌∷◌,
  ◌++◌, le→leb, Bytes, length, take, drop, length-append, length-take, length-drop, take-append,
  arith,
}
use Prim.Native.Nat.add
use mathlib.Core.Path.{subst}
use atat.Base.Outcome.{done}
use atat.Digest.Types.{DigestResult}
use atat.Ingress.{Env, Ingress, shift}
use atat.Ingress.Handled.{Handled}
use atat.ResponseSlot.Offer.{Answer, Offered}
use atat.ResponseSlot.{ResponseSlot}
use atat.Ingress.Reads.{pending, or_else}

drop-nil : (k : ℕ) → drop {A = ℕ} k [] ≡ []
drop-nil zero = refl
drop-nil (suc k) = refl

pub drop-drop : (j k : ℕ) (xs : Bytes) → drop k (drop j xs) ≡ drop (j + k) xs
drop-drop zero k xs = rw (add.zero k)
drop-drop (suc j) k [] = rw (add.suc j k) (drop-nil k)
drop-drop (suc j) k (x ∷ xs) = rw (add.suc j k) (drop-drop j k xs)

module _ (e : Env) where
  pub Offered-trans :
      (b : Bool) (o o' : Option Answer) (s u t : ResponseSlot e.sync)
      → e.sync.signaled s.flag ≡ b
      → Offered e.sync b o s u
      → Offered e.sync (e.sync.signaled u.flag) o' u t
      → Offered e.sync b (or_else o o') s t
  Offered-trans true o o' s u t flag same h =
      let still : e.sync.signaled u.flag ≡ true = rw same flag in
      let kept : t ≡ u = rw still at h in kept ∙ same
  Offered-trans false none o' s u t flag same h =
      let still : e.sync.signaled u.flag ≡ false = rw same flag in
      let later : Offered e.sync false o' u t = rw still at h in
      subst (λ w. Offered e.sync false o' w t) same later
  Offered-trans false (some (Answer.prompt c)) o' s u t flag held h =
      let kept : t ≡ u = rw held.1 at h in rw kept held
  Offered-trans false (some (Answer.response r)) o' s u t flag (x, back, held) h =
      let kept : t ≡ u = rw held.1 at h in (x, back, rw kept held)

  -- The state `u` behind a message that took `k` bytes of `s`, where handling it left the slot and the
  -- log of `t`.
  pub record Advanced (s : Ingress e) (d : e.Digester) (t : Ingress e) (k : ℕ) (u : Ingress e)
      : Type 0 where
    pub in_state : u.digester ≡ d
    pub kept : pending u ≡ drop k (pending s)
    pub moved : u.pos + k ≡ s.pos
    pub sized : length u.buf ≡ length s.buf
    pub slot : u.res_slot ≡ t.res_slot
    pub log : u.urc_publisher ≡ t.urc_publisher

  -- `shift` drops the taken bytes and keeps the rest.
  pub shift_lem :
      (k : ℕ) (s t : Ingress e) {d : e.Digester} {m : DigestResult}
      → k ≤ length (pending s)
      → s.pos ≤ length s.buf
      → Handled e m (record s { digester = d }) t
      → (u : Ingress e) × (shift e k t ≡ done u) × Advanced s d t k u
  unfolding shift
  shift_lem k s t {d} le fits h =
      let kept = drop k (pending t) in
      let same : pending t ≡ pending s = rw (h.same_buf, h.same_pos) refl in
      let fits' : t.pos ≤ length t.buf = rw (h.same_pos, h.same_buf) fits in
      let le' : k ≤ t.pos = rw h.same_pos (omega (arith, length-take s.pos s.buf)) in
      let size : length kept ≡ t.pos - k =
        omega (arith, length-drop k (pending t), length-take t.pos t.buf) in
      (
        record t { buf = kept ++ drop (t.pos - k) t.buf; pos = t.pos - k },
        rw (le→leb k t.pos le') refl,
        record {
          in_state = h.same_digester;
          kept =
              let front : take (t.pos - k) (kept ++ drop (t.pos - k) t.buf) ≡ kept =
                rw (← size) (take-append kept (drop (length kept) t.buf)) in
              front ∙ ap (drop k) same;
          moved = omega (arith, h.same_pos);
          sized = omega (
            arith,
            size,
            length-append kept (drop (t.pos - k) t.buf),
            length-drop (t.pos - k) t.buf,
            ap length h.same_buf,
          );
          slot = refl;
          log = refl;
        },
      )
