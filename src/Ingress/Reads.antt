-- ===== src/Ingress/Reads.antt =====
-- What the loop of `try_advance` and `advance` in atat/src/ingress.rs is to come to: it reads messages
-- off the buffer, and they tell what it does.
use atat.Base.{
  ℕ, ◌+◌, ◌<◌, ◌≡◌, refl, Bool, true, false, Option, some, none, List, [], ◌∷◌, ◌++◌, Bytes, length,
  take, drop, Result, ok, err,
}
use atat.Base.Outcome.{done}
use atat.Digest.Types.{DigestResult}
use atat.Ingress.{Env, Ingress, Publish, Step, IngressError, urc_channel_full}
use atat.Ingress.Handled.{answer_of, urc_of}
use atat.ResponseSlot.Offer.{Answer, Offered}

-- The received bytes that are not digested yet.
abbrev pub pending : {e : Env} → Ingress e → Bytes
pending s = take s.pos s.buf

-- The digester, started in state `d` on `input`, finds the messages one behind the other, is then in
-- the last state, and has taken `taken` bytes. The flag tells that it stopped at a URC that was not
-- taken, and that is the next message.
pub data Reads (e : Env)
    : e.Digester → Bytes → List DigestResult → e.Digester → ℕ → Bool → Type 0 where
  spent : {d : e.Digester} {input : Bytes} → input ≡ [] → Reads e d input [] d 0 false
  stalled :
      {d d' : e.Digester} {input : Bytes} {m : DigestResult}
      → e.digest d input ≡ done (d', (m, 0))
      → Reads e d input (m ∷ []) d' 0 false
  refused :
      {d d' : e.Digester} {input line : Bytes} {k : ℕ} {u : e.Urc}
      → e.digest d input ≡ done (d', (DigestResult.urc line, k))
      → e.parse_urc line ≡ some u
      → Reads e d input [] d' 0 true
  next :
      {d d' d'' : e.Digester} {input : Bytes} {m : DigestResult} {ms : List DigestResult}
      {k taken total : ℕ} {full : Bool}
      → e.digest d input ≡ done (d', (m, k))
      → 0 < k
      → Reads e d' (drop k input) ms d'' taken full
      → total ≡ k + taken
      → Reads e d input (m ∷ ms) d'' total full

abbrev pub or_else : Option Answer → Option Answer → Option Answer
or_else (some a) o = some a
or_else none o = o

pub or_else-none : (o : Option Answer) → or_else o none ≡ o
or_else-none none = refl
or_else-none (some a) = refl

-- The first prompt or response among the messages.
abbrev pub first_answer : List DigestResult → Option Answer
first_answer [] = none
first_answer (m ∷ ms) = or_else (answer_of m) (first_answer ms)

module _ (e : Env) where
  abbrev pub urcs : List DigestResult → List e.Urc
  urcs [] = []
  urcs (m ∷ ms) = urc_of e m ++ urcs ms

  abbrev pub Status : Bool → Result (Unit {0}) IngressError → Type 0
  Status false r = r ≡ ok tt
  Status true r = r ≡ err urc_channel_full

  -- What a run of the loop from `s` comes to. It fails only at a URC that the channel has no room for.
  pub record Drained (publish : Publish e) (s : Ingress e) (run : Step e) : Type 0 where
    pub after : Ingress e
    pub status : Result (Unit {0}) IngressError
    pub messages : List DigestResult
    pub taken : ℕ
    pub full : Bool
    pub runs : run ≡ done (after, status)
    pub status_is : Status full status
    pub refusal : full ≡ true → (u : e.Urc) × (publish u after.urc_publisher ≡ none)
    pub reads : Reads e s.digester (pending s) messages after.digester taken full
    pub remains : pending after ≡ drop taken (pending s)
    pub left : after.pos + taken ≡ s.pos
    pub same_length : length after.buf ≡ length s.buf
    pub unlocked : e.sync.locked after.res_slot.lock ≡ false
    pub offered :
        Offered e.sync
          (e.sync.signaled s.res_slot.flag)
          (first_answer messages)
          s.res_slot
          after.res_slot
    pub logged :
        e.pub_sub.published after.urc_publisher
        ≡ e.pub_sub.published s.urc_publisher ++ urcs messages
