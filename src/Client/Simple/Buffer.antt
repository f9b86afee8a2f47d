-- ===== src/Client/Simple/Buffer.antt =====
-- The loop over the buffer of `SimpleClient` in atat/src/asynch/simple_client.rs.
use atat.Base.{
  ℕ, zero, suc, ◌+◌, ◌-◌, ◌≤◌, ◌<◌, ◌≡◌, refl, sym, ap, ◌∙◌, Bool-cases, inl, inr, Option, some,
  none, ◌++◌, ◌==◌, Bytes, length, take, drop, length-append, length-take, length-drop, kept, leb,
  le→leb, if_true, arith,
}
use atat.Base.Outcome.{done, ◌>>=◌}
use atat.Digest.Types.{DigestResult}
use atat.Ingress.Handled.{carried}
use atat.Ingress.Shift.{drop-drop}
use atat.Response.{Response}
use atat.Response.Conversion.{result_from-response_from}
use atat.Client.Simple.{SimpleClient, consume, response_in, Found, or_next, digest_all}
use atat.Client.Simple.Port.{Line, IsLine}
use atat.Client.Simple.Receives.{
  Carries, nothing_carried, urc_carried, prompt_carried, response_carried, Finds, spent, stalled,
  answered, passed,
}

module _ (l : Line) where
  -- The received bytes that are not digested yet.
  abbrev pub waiting : SimpleClient l → Bytes
  waiting c = take c.pos c.buf

  -- What a run of the loop from `c` comes to.
  pub record Digested (c : SimpleClient l) (run : Found l) : Type 0 where
    pub after : SimpleClient l
    pub found : Option Response
    pub taken : ℕ
    pub runs : run ≡ done (after, found)
    pub finds : Finds l c.digester (waiting c) after.digester found taken
    pub remains : waiting after ≡ drop taken (waiting c)
    pub left : after.pos + taken ≡ c.pos
    pub same_length : length after.buf ≡ length c.buf

  consume_lem :
      (k : ℕ) (c : SimpleClient l)
      → k ≤ c.pos
      → c.pos ≤ length c.buf
      → (t : SimpleClient l) × (consume l k c ≡ done t)
        × (t.digester ≡ c.digester)
        × (waiting t ≡ drop k (waiting c))
        × (t.pos + k ≡ c.pos)
        × (length t.buf ≡ length c.buf)
  unfolding consume
  consume_lem k c le fits =
      let rest = drop k (waiting c) in
      let size : length rest ≡ c.pos - k =
        omega (arith, length-drop k (waiting c), length-take c.pos c.buf) in
      (
        record c { buf = rest ++ drop (c.pos - k) c.buf; pos = c.pos - k },
        if_true (leb k c.pos) _ _ (le→leb k c.pos le),
        refl,
        kept (c.pos - k) rest (drop (c.pos - k) c.buf) size,
        omega arith,
        omega (
          arith,
          size,
          length-append rest (drop (c.pos - k) c.buf),
          length-drop (c.pos - k) c.buf,
        ),
      )

  module _ (laws : IsLine l) where
    response_in-total :
        (m : DigestResult)
        → length (carried m) ≤ 256
        → (o : Option Response) × (response_in l m ≡ done o) × Carries m o
    response_in-total DigestResult.nothing le = (none, refl, nothing_carried)
    response_in-total (DigestResult.urc line) le = (none, refl, urc_carried)
    response_in-total (DigestResult.prompt c) le = (some (Response.prompt c), refl, prompt_carried)
    response_in-total (DigestResult.response r) le =
        let (s, converts, back) =
          result_from-response_from l.heapless laws.heapless_laws 256 r le in
        (some s, ap (λ x. x >>= λ r. done (some r)) converts, response_carried back)

    -- A round that took bytes off the buffer, and what follows it.
    round-Digested :
        (c t : SimpleClient l) (d : l.Digester) (m : DigestResult) (k : ℕ) (o : Option Response)
        (rest : Found l)
        → l.digest c.digester (waiting c) ≡ done (d, (m, k))
        → 0 < k
        → Carries m o
        → t.digester ≡ d
        → waiting t ≡ drop k (waiting c)
        → t.pos + k ≡ c.pos
        → length t.buf ≡ length c.buf
        → Digested t rest
        → Digested c (or_next l t o rest)
    round-Digested c t d m k (some r) rest e took holds same kept_rest moved size h = record {
      after = t;
      found = some r;
      taken = k;
      runs = refl;
      finds = rw same (answered e took holds);
      remains = kept_rest;
      left = moved;
      same_length = size;
    }
    round-Digested c t d m k none rest e took holds same kept_rest moved size h = record {
      after = h.after;
      found = h.found;
      taken = k + h.taken;
      runs = h.runs;
      finds = passed e took holds (rw (sym same, sym kept_rest) h.finds) refl;
      remains = h.remains ∙ ap (drop h.taken) kept_rest ∙ drop-drop k h.taken (waiting c);
      left = omega (arith, h.left);
      same_length = h.same_length ∙ size;
    }

    spent-Digested :
        (c : SimpleClient l) (run : Found l) → c.pos ≡ 0 → run ≡ done (c, none) → Digested c run
    spent-Digested c run empty runs = record {
      after = c;
      found = none;
      taken = 0;
      runs = runs;
      finds = spent (ap (λ k. take k c.buf) empty);
      remains = refl;
      left = omega arith;
      same_length = refl;
    }

    stalled-Digested :
        (c : SimpleClient l) (d : l.Digester) (m : DigestResult) (k : ℕ) (run : Found l)
        → l.digest c.digester (waiting c) ≡ done (d, (m, k))
        → k ≡ 0
        → run ≡ done (record c { digester = d }, none)
        → Digested c run
    stalled-Digested c d m k run e none_taken runs = record {
      after = record c { digester = d };
      found = none;
      taken = 0;
      runs = runs;
      finds = stalled (e ∙ ap (λ j. done (d, (m, j))) none_taken);
      remains = refl;
      left = omega arith;
      same_length = refl;
    }

    run-Digested :
        (c : SimpleClient l) (run run' : Found l) → run ≡ run' → Digested c run' → Digested c run
    run-Digested c run run' e h = rw e h

    pub digest_all-Digested :
        (fuel : ℕ) (c : SimpleClient l)
        → c.pos ≤ fuel
        → c.pos ≤ length c.buf
        → length c.buf ≤ 256
        → Digested c (digest_all l fuel c)
    unfolding digest_all
    digest_all-Digested zero c enough fits small =
        spent-Digested c _ (omega arith) (if_true (c.pos == 0) _ _ (ground arith))
    digest_all-Digested (suc fuel) c enough fits small = elim (Bool-cases (c.pos == 0)) [
      | inl empty ↦ spent-Digested c _ (ground arith) (rw (empty, digest_all) refl)
      | inr more ↦
          let (d, m, e, within, carries) = laws.digest_total c.digester (waiting c) in
          let (o, holds, carried_o) =
            response_in-total m.0 (omega (arith, length-take c.pos c.buf)) in
          elim (Bool-cases (m.1 == 0)) [
            | inl nothing ↦
                stalled-Digested c d m.0 m.1 _ e (ground arith)
                  (rw (more, e, holds, nothing, digest_all) refl)
            | inr some_taken ↦
                let (t, runs, same, kept_rest, moved, size) =
                  consume_lem m.1 (record c { digester = d })
                    (omega (arith, length-take c.pos c.buf)) fits in
                run-Digested c _ (or_next l t o (digest_all l fuel t))
                  (rw (more, e, holds, some_taken, runs, digest_all) refl)
                  (round-Digested c t d m.0 m.1 o (digest_all l fuel t) e (ground arith) carried_o
                    same kept_rest moved size
                    (digest_all-Digested fuel t (ground arith) (ground arith) (omega arith)))
          ]
    ]
