-- ===== src/Ingress/Handled.antt =====
-- One message of the digester, as the ingress of atat/src/ingress.rs handles it.
use atat.Base.{
  ◌≤◌, ◌≡◌, refl, sym, Bool, true, false, Option, some, none, List, [], ◌∷◌, ◌++◌, append-nil,
  Bytes, length, Result, ok, err, Option-cases, inl, inr,
}
use atat.Base.Outcome.{done}
use atat.Digest.Parser.{Message}
use atat.Digest.Types.{DigestResult}
use atat.Extern.Heapless.{IsHeapless}
use atat.Extern.PubSub.{IsPubSub}
use atat.Extern.Sync.{IsSync}
use atat.ResponseSlot.{ResponseSlot}
use atat.Ingress.{publish_parsed, Env, Ingress, Publish, IngressError, urc_channel_full, handle}
use atat.Response.Conversion.{payload}
use atat.ResponseSlot.Offer.{Answer, Offered, Offers, offer_prompt, offer_response}

abbrev pub answer_of : DigestResult → Option Answer
answer_of (DigestResult.prompt c) = some (Answer.prompt c)
answer_of (DigestResult.response r) = some (Answer.response r)
answer_of (DigestResult.urc l) = none
answer_of DigestResult.nothing = none

-- The bytes that a message carries into the response slot.
abbrev pub carried : DigestResult → Bytes
carried (DigestResult.response r) = payload r
carried (DigestResult.prompt c) = []
carried (DigestResult.urc l) = []
carried DigestResult.nothing = []

-- The documented behaviour of everything that an ingress stands on. A digester returns on every input,
-- takes no more than it is given, and answers with no more bytes than it is given.
pub record IsEnv (e : Env) : Type 0 where
  pub sync_laws : IsSync e.sync
  pub heapless_laws : IsHeapless e.heapless
  pub pub_sub_laws : IsPubSub e.pub_sub
  pub digest_total :
      (d : e.Digester) (input : Bytes)
      → (d' : e.Digester) × (m : Message) × (e.digest d input ≡ done (d', m))
        × (m.1 ≤ length input)
        × (length (carried m.0) ≤ length input)

module _ (e : Env) where
  abbrev parsed_urc : Option e.Urc → List e.Urc
  parsed_urc none = []
  parsed_urc (some u) = u ∷ []

  -- The URC in a message, as `AtatUrc::parse` reads it.
  abbrev pub urc_of : DigestResult → List e.Urc
  urc_of (DigestResult.urc l) = parsed_urc (e.parse_urc l)
  urc_of (DigestResult.prompt c) = []
  urc_of (DigestResult.response r) = []
  urc_of DigestResult.nothing = []

  -- A publisher that fails or adds its URC to the log.
  abbrev pub Logs : Publish e → Type 0
  Logs publish =
      (u : e.Urc) (c d : e.pub_sub.Channel)
      → publish u c ≡ some d
      → e.pub_sub.published d ≡ e.pub_sub.published c ++ (u ∷ [])

  -- What handling one message changes: the slot and the log of URCs, and nothing else.
  pub record Handled (m : DigestResult) (s t : Ingress e) : Type 0 where
    pub same_digester : t.digester ≡ s.digester
    pub same_buf : t.buf ≡ s.buf
    pub same_pos : t.pos ≡ s.pos
    pub unlocked : e.sync.locked t.res_slot.lock ≡ false
    pub offered :
        Offered e.sync (e.sync.signaled s.res_slot.flag) (answer_of m) s.res_slot t.res_slot
    pub logged :
        e.pub_sub.published t.urc_publisher ≡ e.pub_sub.published s.urc_publisher ++ urc_of m

  -- A URC that the channel has no room for: nothing is changed.
  pub record Refused (publish : Publish e) (m : DigestResult) (s t : Ingress e) : Type 0 where
    pub line : Bytes
    pub urc : e.Urc
    pub is_urc : m ≡ DigestResult.urc line
    pub is_parsed : e.parse_urc line ≡ some urc
    pub is_full : publish urc s.urc_publisher ≡ none
    pub unchanged : t ≡ s

  abbrev pub After :
      Publish e → DigestResult → Ingress e → Ingress e → Result (Unit {0}) IngressError → Type 0
  After publish m s t (ok _) = Handled m s t
  After publish m s t (err x) = Refused publish m s t × (x ≡ urc_channel_full)

  pub Offered-none : (b : Bool) (s : ResponseSlot e.sync) → Offered e.sync b none s s
  Offered-none true s = refl
  Offered-none false s = refl

  module _ (laws : IsEnv e) (publish : Publish e) (logs : Logs publish) (s : Ingress e)
      (free : e.sync.locked s.res_slot.lock ≡ false) where
    abbrev Outcomes : DigestResult → Type 0
    Outcomes m =
        (t : Ingress e) × (r : Result (Unit {0}) IngressError) × (handle e publish m s
          ≡ done (t, r))
        × After publish m s t r

    untouched : (m : DigestResult) → answer_of m ≡ none → urc_of m ≡ [] → Handled m s s
    untouched m a u = record {
      same_digester = refl;
      same_buf = refl;
      same_pos = refl;
      unlocked = free;
      offered = rw a (Offered-none _ s.res_slot);
      logged = rw u (sym (append-nil _));
    }

    handle_offer :
        (m : DigestResult) {o : Answer} {run : _}
        → answer_of m ≡ some o
        → urc_of m ≡ []
        → (x : Offers e.sync (some o) s.res_slot run)
        → Handled m s (record s { res_slot = x.after })
    handle_offer m a u x = record {
      same_digester = refl;
      same_buf = refl;
      same_pos = refl;
      unlocked = x.unlocked;
      offered = rw a x.offered;
      logged = rw u (sym (append-nil _));
    }

    handle_urc : (l : Bytes) → Outcomes (DigestResult.urc l)
    unfolding handle
    handle_urc l = elim (Option-cases (e.parse_urc l)) [
      | inl unknown ↦
          (s, ok tt, rw (unknown, handle) refl, untouched (DigestResult.urc l) refl (rw unknown))
      | inr (u, known) ↦ elim (Option-cases (publish u s.urc_publisher)) [
        | inl full ↦ (
          s,
          err urc_channel_full,
          rw (known, handle) (rw (full, publish_parsed) refl),
          (
            record {
              line = l;
              urc = u;
              is_urc = refl;
              is_parsed = known;
              is_full = full;
              unchanged = refl;
            },
            refl,
          ),
        )
        | inr (c, room) ↦ (
          record s { urc_publisher = c },
          ok tt,
          rw (known, handle) (rw (room, publish_parsed) refl),
          record {
            same_digester = refl;
            same_buf = refl;
            same_pos = refl;
            unlocked = free;
            offered = Offered-none _ s.res_slot;
            logged = rw known (logs u s.urc_publisher c room);
          },
        )
      ]
    ]

    -- Every message is handled, or is a URC for which there is no room.
    pub handle_lem : (m : DigestResult) → length (carried m) ≤ e.res_buf_size → Outcomes m
    unfolding handle
    handle_lem DigestResult.nothing fits =
        (s, ok tt, refl, untouched DigestResult.nothing refl refl)
    handle_lem (DigestResult.urc l) fits = handle_urc l
    handle_lem (DigestResult.prompt c) fits =
        let x = offer_prompt e.sync laws.sync_laws e.heapless e.res_buf_size s.res_slot free c in
        (
          record s { res_slot = x.after },
          ok tt,
          rw (x.runs, handle) refl,
          handle_offer (DigestResult.prompt c) refl refl x,
        )
    handle_lem (DigestResult.response r) fits =
        let x =
          offer_response e.sync laws.sync_laws e.heapless e.res_buf_size s.res_slot free r
            laws.heapless_laws fits in
        (
          record s { res_slot = x.after },
          ok tt,
          rw (x.runs, handle) refl,
          handle_offer (DigestResult.response r) refl refl x,
        )
