-- ===== src/Ingress/Drain.antt =====
-- The loop of `try_advance` and `advance` in atat/src/ingress.rs ends, and does what the messages tell
-- that it reads off the buffer.
use atat.Base.{
  ℕ, zero, suc, ◌+◌, ◌≤◌, ◌<◌, ◌≡◌, refl, sym, ap, ◌∙◌, true, false, [], ◌∷◌, ◌==◌, ==_iff,
  append-nil, append_assoc, length, drop, length-take, Result, ok, err, Bool-cases, inl, inr, arith,
}
use atat.Base.Outcome.{done, ◌>>=◌}
use atat.Digest.Parser.{Message}
use atat.Digest.Types.{DigestResult}
use atat.Ingress.{
  Env, Ingress, Publish, Step, IngressError, urc_channel_full, handle, shift, unless_stalled, drain,
}
use atat.Ingress.Handled.{
  IsEnv, Logs, Handled, Refused, After, Offered-none, handle_lem, answer_of, urc_of,
}
use atat.Ingress.Reads.{
  pending, spent, stalled, refused, next, or_else-none, first_answer, urcs, Drained,
}
use atat.Ingress.Shift.{drop-drop, Offered-trans, Advanced, shift_lem}

module _ (e : Env) where
  module _ (laws : IsEnv e) (publish : Publish e) (logs : Logs e publish) where
    empty-Drained :
        (s : Ingress e) (run : Step e)
        → s.pos ≡ 0
        → e.sync.locked s.res_slot.lock ≡ false
        → run ≡ done (s, ok tt)
        → Drained e publish s run
    empty-Drained s run empty free runs = record {
      after = s;
      status = ok tt;
      messages = [];
      taken = 0;
      full = false;
      runs = runs;
      status_is = refl;
      refusal = λ h. absurd cc;
      reads = spent (rw empty);
      remains = refl;
      left = omega arith;
      same_length = refl;
      unlocked = free;
      offered = Offered-none e _ s.res_slot;
      logged = sym (append-nil _);
    }

    -- The loop gives up on a URC that the channel has no room for.
    full-Drained :
        (s t : Ingress e) (d : e.Digester) (m : Message) (run : Step e)
        → e.digest s.digester (pending s) ≡ done (d, m)
        → e.sync.locked s.res_slot.lock ≡ false
        → Refused e publish m.0 (record s { digester = d }) t
        → run ≡ done (t, err urc_channel_full)
        → Drained e publish s run
    full-Drained s t d m run found free r runs = record {
      after = record s { digester = d };
      status = err urc_channel_full;
      messages = [];
      taken = 0;
      full = true;
      runs = runs ∙ ap (λ x. done (x, err urc_channel_full)) r.unchanged;
      status_is = refl;
      refusal = λ _. (r.urc, r.is_full);
      reads = refused (found ∙ ap (λ x. done (d, (x, m.1))) r.is_urc) r.is_parsed;
      remains = refl;
      left = omega arith;
      same_length = refl;
      unlocked = free;
      offered = Offered-none e _ s.res_slot;
      logged = sym (append-nil _);
    }

    -- A message that took no bytes ends the loop.
    stalled-Drained :
        (s t : Ingress e) (d : e.Digester) (m : DigestResult) (run : Step e)
        → e.digest s.digester (pending s) ≡ done (d, (m, 0))
        → Handled e m (record s { digester = d }) t
        → run ≡ done (t, ok tt)
        → Drained e publish s run
    stalled-Drained s t d m run found h runs = record {
      after = t;
      status = ok tt;
      messages = m ∷ [];
      taken = 0;
      full = false;
      runs = runs;
      status_is = refl;
      refusal = λ h. absurd cc;
      reads = rw h.same_digester (stalled found);
      remains = rw (h.same_buf, h.same_pos) refl;
      left = omega (arith, h.same_pos);
      same_length = ap length h.same_buf;
      unlocked = h.unlocked;
      offered = rw (or_else-none (answer_of m)) h.offered;
      logged = h.logged ∙ rw append-nil;
    }

    -- A round that took bytes, with the rounds behind it.
    next-Drained :
        (s t u : Ingress e) (d : e.Digester) (m : Message) (run rest : Step e)
        → 0 < m.1
        → e.digest s.digester (pending s) ≡ done (d, m)
        → Handled e m.0 (record s { digester = d }) t
        → Advanced e s d t m.1 u
        → run ≡ rest
        → Drained e publish u rest
        → Drained e publish s run
    next-Drained s t u d m run rest pos found h a runs x = record {
      after = x.after;
      status = x.status;
      messages = m.0 ∷ x.messages;
      taken = m.1 + x.taken;
      full = x.full;
      runs = runs ∙ x.runs;
      status_is = x.status_is;
      refusal = x.refusal;
      reads = next found pos (rw (a.in_state, a.kept) at x.reads) refl;
      remains = x.remains ∙ ap (drop x.taken) a.kept ∙ drop-drop m.1 x.taken (pending s);
      left = omega (arith, x.left, a.moved);
      same_length = x.same_length ∙ a.sized;
      unlocked = x.unlocked;
      offered =
          Offered-trans e _ (answer_of m.0) (first_answer x.messages) s.res_slot t.res_slot
            x.after.res_slot refl h.offered (rw a.slot at x.offered);
      logged =
          x.logged ∙ rw a.log (rw h.logged (append_assoc _ (urc_of e m.0) (urcs e x.messages)));
    }

    -- One round, where `again` is what the rounds behind it come to.
    drain_round :
        (fuel : ℕ) (s t : Ingress e) (d : e.Digester) (m : Message)
        (r : Result (Unit {0}) IngressError)
        → s.pos == 0 ≡ false
        → e.digest s.digester (pending s) ≡ done (d, m)
        → m.1 ≤ length (pending s)
        → s.pos ≤ length s.buf
        → e.sync.locked s.res_slot.lock ≡ false
        → handle e publish m.0 (record s { digester = d }) ≡ done (t, r)
        → After e publish m.0 (record s { digester = d }) t r
        → ((u : Ingress e)
            → 0 < m.1
            → Advanced e s d t m.1 u
            → e.sync.locked t.res_slot.lock ≡ false
            → Drained e publish u (drain e fuel publish u))
        → Drained e publish s (drain e (suc fuel) publish s)
    unfolding drain
    drain_round fuel s t d (msg, k) (err x) more found le fits free handled (r, full) again =
        full-Drained s t d (msg, k) _ found free r
          (rw (more, found, handled, drain) refl ∙ ap (λ y. done (t, err y)) full)
    drain_round fuel s t d (msg, k) (ok _) more found le fits free handled h again =
        let rest = shift e k t >>= drain e fuel publish in
        let runs : drain e (suc fuel) publish s ≡ unless_stalled e (k == 0) t rest =
          rw (more, found, handled, drain) refl in
        elim (Bool-cases (k == 0)) [
          | inl stays ↦
              let none_taken : k ≡ 0 = (==_iff k 0).0 stays in
              stalled-Drained s t d msg _ (found ∙ ap (λ k. done (d, (msg, k))) none_taken) h
                (runs ∙ ap (λ b. unless_stalled e b t rest) stays)
          | inr takes ↦
              let (u, shifted, a) = shift_lem e k s t le fits h in
              let moves : 0 < k = ground arith in
              next-Drained s t u d (msg, k) _ (drain e fuel publish u) moves found h a
                (runs
                  ∙ ap (λ b. unless_stalled e b t rest) takes
                  ∙ ap (λ x. x >>= drain e fuel publish) shifted)
                (again u moves a h.unlocked)
        ]

    pub drain_lem :
        (fuel : ℕ) (s : Ingress e)
        → s.pos ≤ fuel
        → s.pos ≤ length s.buf
        → length s.buf ≤ e.res_buf_size
        → e.sync.locked s.res_slot.lock ≡ false
        → Drained e publish s (drain e fuel publish s)
    unfolding drain
    drain_lem zero s enough fits small free =
        let empty : s.pos ≡ 0 = omega arith in empty-Drained s _ empty free (rw (empty, drain) refl)
    drain_lem (suc fuel) s enough fits small free = elim (Bool-cases (s.pos == 0)) [
      | inl empty ↦ empty-Drained s _ ((==_iff s.pos 0).0 empty) free (rw (empty, drain) refl)
      | inr more ↦
          let (d, m, found, le, carries) = laws.digest_total s.digester (pending s) in
          let (t, r, handled, after) =
            handle_lem e laws publish logs (record s { digester = d }) free m.0
              (omega (arith, length-take s.pos s.buf)) in
          drain_round fuel s t d m r more found le fits free handled after (λ u moves a unlocked.
            drain_lem fuel u (omega (arith, a.moved)) (omega (arith, a.moved, a.sized))
              (omega (arith, a.sized)) (rw a.slot unlocked))
    ]
