-- ===== src/Ingress/Advance.antt =====
-- `try_advance` and `advance` of atat/src/ingress.rs: what has been received is digested, in order.
use atat.Base.{
  ◌+◌, ◌≤◌, ◌≡◌, refl, ◌++◌, ℕ, Bool, true, false, Option, some, none, [], ◌∷◌, le→leb, Bytes,
  length, take, drop, length-append, length-take, length-drop, Result, ok, arith,
}
use atat.Extern.PubSub.{IsPubSub}
use atat.Ingress.{
  Env, Ingress, IngressError, Publish, commit_with, copy_in, try_advance, advance, or_wait,
  publish_or_wait,
}
use atat.Ingress.Drain.{drain_lem}
use atat.Ingress.Handled.{IsEnv, Logs}
use atat.Ingress.Reads.{Drained, Status}

module _ (e : Env) where
  -- What holds of an ingress between any two calls: the position stands in the buffer, the buffer is no
  -- longer than the one of the response slot, and nobody holds the response.
  pub record IsIdle (s : Ingress e) : Type 0 where
    pub in_buf : s.pos ≤ length s.buf
    pub small : length s.buf ≤ e.res_buf_size
    pub free : e.sync.locked s.res_slot.lock ≡ false

  pub Drained-IsIdle :
      (publish : Publish e) (s : Ingress e) {run : _}
      → IsIdle s
      → (x : Drained e publish s run) → IsIdle x.after
  Drained-IsIdle publish s h x = record {
    in_buf = omega (arith, h.in_buf, x.left, x.same_length);
    small = omega (arith, h.small, x.same_length);
    free = x.unlocked;
  }

  pub copy_in-length :
      (len : ℕ) (src : Bytes) (s : Ingress e)
      → len ≤ length src
      → s.pos + len ≤ length s.buf
      → length (copy_in e len src s).buf ≡ length s.buf
  unfolding copy_in
  copy_in-length len src s le fits = omega (
    arith,
    length-append (take s.pos s.buf) (take len src ++ drop (s.pos + len) s.buf),
    length-append (take len src) (drop (s.pos + len) s.buf),
    length-take s.pos s.buf,
    length-take len src,
    length-drop (s.pos + len) s.buf,
  )

  -- The received bytes behind the others leave the ingress idle.
  pub copy_in-IsIdle :
      (len : ℕ) (src : Bytes) (s : Ingress e)
      → len ≤ length src
      → s.pos + len ≤ length s.buf
      → IsIdle s
      → IsIdle (copy_in e len src s)
  unfolding copy_in
  copy_in-IsIdle len src s le fits h =
      let size = copy_in-length len src s le fits in
      record {
        in_buf = omega (arith, size, h.in_buf);
        small = omega (arith, size, h.small);
        free = h.free;
      }

  or_wait-published :
      (u : e.Urc) (c w : e.pub_sub.Channel) (o : Option e.pub_sub.Channel)
      → ((d : e.pub_sub.Channel)
          → o ≡ some d
          → e.pub_sub.published d ≡ e.pub_sub.published c ++ (u ∷ []))
      → e.pub_sub.published w ≡ e.pub_sub.published c ++ (u ∷ [])
      → e.pub_sub.published (or_wait e o w) ≡ e.pub_sub.published c ++ (u ∷ [])
  or_wait-published u c w none h waits = waits
  or_wait-published u c w (some d) h waits = h d refl

  publish_or_wait-Logs : IsPubSub e.pub_sub → Logs e (publish_or_wait e)
  unfolding publish_or_wait
  publish_or_wait-Logs laws u c d h =
      let same : or_wait e (e.pub_sub.try_publish u c) (e.pub_sub.publish u c) ≡ d = cc in
      rw (← same) (
        or_wait-published u c (e.pub_sub.publish u c) (e.pub_sub.try_publish u c)
          (laws.try_publish_lem u c) (laws.publish_lem u c))

  publish_or_wait-some : (u : e.Urc) (c : e.pub_sub.Channel) → ¬ (publish_or_wait e u c ≡ none)
  unfolding publish_or_wait
  publish_or_wait-some u c h = cc

  never_full :
      (d : e.pub_sub.Channel) (full : Bool) {r : Result (Unit {0}) IngressError}
      → Status e full r
      → (full ≡ true → (u : e.Urc) × (publish_or_wait e u d ≡ none))
      → r ≡ ok tt
  never_full d false is refusal = is
  never_full d true is refusal = absurd (publish_or_wait-some _ _ (refusal refl).1)

  commit_with-Drained :
      (laws : IsEnv e) (publish : Publish e) (logs : Logs e publish) (commit : ℕ) (s : Ingress e)
      → IsIdle s
      → s.pos + commit ≤ length s.buf
      → Drained e publish (record s { pos = s.pos + commit }) (commit_with e publish commit s)
  unfolding commit_with
  commit_with-Drained laws publish logs commit s h fits =
      rw (le→leb (s.pos + commit) (length s.buf) fits) (
        drain_lem e laws publish logs (s.pos + commit) (record s { pos = s.pos + commit })
          (omega arith) fits h.small h.free)

  -- In a lawful environment, from an idle ingress, whose new bytes fit the buffer, `try_advance`
  -- ends without a panic; there is a list of messages that the digester reads one behind the other
  -- off the pending bytes, the bytes that they took are gone from the buffer and the others stay in
  -- order, the first prompt or response among them is in the response slot if the slot was free and
  -- else the slot is unchanged, and the URCs among them that parse are published in order; it fails
  -- only with `UrcChannelFull`, where the digester finds a URC that the channel refuses and that
  -- stays in the buffer.
  pub try_advance-Drained :
      (laws : IsEnv e) (commit : ℕ) (s : Ingress e)
      → IsIdle s
      → s.pos + commit ≤ length s.buf
      → Drained e e.pub_sub.try_publish (record s { pos = s.pos + commit }) (try_advance e commit s)
  unfolding try_advance
  try_advance-Drained laws =
      commit_with-Drained laws e.pub_sub.try_publish laws.pub_sub_laws.try_publish_lem

  -- In a lawful environment, from an idle ingress, whose new bytes fit the buffer, `advance` does
  -- what `try_advance` does, and it does not fail, since it waits where the URC channel is full.
  pub advance-Drained :
      (laws : IsEnv e) (commit : ℕ) (s : Ingress e)
      → IsIdle s
      → s.pos + commit ≤ length s.buf
      → (x : Drained e (publish_or_wait e) (record s { pos = s.pos + commit }) (advance e commit s))
        × (x.status ≡ ok tt)
  unfolding advance
  advance-Drained laws commit s h fits =
      let x =
        commit_with-Drained laws (publish_or_wait e) (publish_or_wait-Logs laws.pub_sub_laws) commit
          s h fits in
      (x, never_full x.after.urc_publisher x.full x.status_is x.refusal)
