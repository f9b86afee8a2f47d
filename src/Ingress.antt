-- ===== src/Ingress.antt =====
-- atat/src/ingress.rs: the ingress, which digests the received bytes and passes what it finds on to
-- the response slot and to the URC channel.
pub mod Handled
pub mod Reads
pub mod Shift
pub mod Drain
pub mod Advance
pub mod Write
pub mod Serial
pub mod Stuck
mod Tests
use atat.Base.{
  ℕ, zero, suc, ◌+◌, ◌-◌, Bool, true, false, Option, some, none, List, [], ◌∷◌, ◌++◌, ◌==◌, leb,
  if◌then◌else◌, Bytes, length, take, drop, Result, ok, err,
}
use Prim.Native.Nat.{min}
use atat.Base.Outcome.{Outcome, done, panic, out_of_fuel, ◌>>=◌}
use atat.Digest.Parser.{Message}
use atat.Digest.Types.{DigestResult}
use atat.Extern.Heapless.{Heapless}
use atat.Extern.PubSub.{PubSub}
use atat.Extern.Sync.{Sync}
use atat.ResponseSlot
use atat.ResponseSlot.{ResponseSlot, SlotInUseError, signal_prompt, signal_response}

pub data IngressError : Type 0 where
  response_slot_busy urc_channel_full : IngressError

-- The parameters of the type `Ingress<'a, D, Urc, RES_BUF_SIZE, …>`: a digester `D` with its state, the
-- URCs with `AtatUrc::parse`, the size of the response buffer, and the crates that it stands on.
pub record Env : Type 1 where
  pub Digester : Type 0
  pub digest : Digester → Bytes → Outcome (Digester × Message)
  pub Urc : Type 0
  pub parse_urc : Bytes → Option Urc
  pub res_buf_size : ℕ
  pub sync : Sync
  pub heapless : Heapless
  pub pub_sub : PubSub Urc

module _ (e : Env) where
  pub record Ingress : Type 0 where
    pub digester : e.Digester
    pub buf : Bytes
    pub pos : ℕ
    pub res_slot : ResponseSlot e.sync
    pub urc_publisher : e.pub_sub.Channel

  abbrev pub Publish : Type 0
  Publish = e.Urc → e.pub_sub.Channel → Option e.pub_sub.Channel

  abbrev pub Step : Type 0
  Step = Outcome (Ingress × Result (Unit {0}) IngressError)

  unfoldable pub new_ingress :
      e.Digester → Bytes → ResponseSlot e.sync → e.pub_sub.Channel → Ingress
  new_ingress digester buf slot channel = record {
    digester = digester;
    buf = buf;
    pos = 0;
    res_slot = slot;
    urc_publisher = channel;
  }

  -- The free part of the buffer, into which received bytes are written.
  unfoldable pub write_buf : Ingress → Bytes
  write_buf s = drop s.pos s.buf

  abbrev pub publish_parsed : Publish → Ingress → Option e.Urc → Step
  publish_parsed publish s none = done (s, ok tt)
  publish_parsed publish s (some urc) = elim (publish urc s.urc_publisher) [
    | some c ↦ done (record s { urc_publisher = c }, ok tt)
    | none ↦ done (s, err urc_channel_full)
  ]

  -- What is done with a message. A slot that is in use drops the message, with a line in the log.
  unfoldable pub handle : Publish → DigestResult → Ingress → Step
  handle publish DigestResult.nothing s = done (s, ok tt)
  handle publish (DigestResult.prompt c) s =
      signal_prompt e.sync c s.res_slot >>= λ r. done (record s { res_slot = r.0 }, ok tt)
  handle publish (DigestResult.urc line) s = publish_parsed publish s (e.parse_urc line)
  handle publish (DigestResult.response resp) s =
      signal_response e.sync e.heapless e.res_buf_size resp s.res_slot >>= λ r.
      done (record s { res_slot = r.0 }, ok tt)

  -- `self.buf.copy_within(swallowed..self.pos, 0); self.pos -= swallowed`
  unfoldable pub shift : ℕ → Ingress → Outcome Ingress
  shift swallowed s =
      if leb swallowed s.pos
      then done (record s {
        buf = drop swallowed (take s.pos s.buf) ++ drop (s.pos - swallowed) s.buf;
        pos = s.pos - swallowed;
      })
      else panic

  -- `if swallowed == 0 { break; }`
  abbrev pub unless_stalled : Bool → Ingress → Step → Step
  unless_stalled true t rest = done (t, ok tt)
  unless_stalled false t rest = rest

  -- The loop `while self.pos > 0`, with fuel for its rounds.
  unfoldable pub drain : ℕ → Publish → Ingress → Step
  drain zero publish s = if s.pos == 0 then done (s, ok tt) else out_of_fuel
  drain (suc fuel) publish s = elim (s.pos == 0) [
    | true ↦ done (s, ok tt)
    | false ↦ e.digest s.digester (take s.pos s.buf) >>= λ (d, m).
        handle publish m.0 (record s { digester = d }) >>= λ (t, r). elim r [
          | err x ↦ done (t, err x)
          | ok _ ↦ unless_stalled (m.1 == 0) t (shift m.1 t >>= drain fuel publish)
        ]
  ]

  -- Both `try_advance` and `advance`: `self.pos += commit`, the assertion, the loop. Each round takes
  -- a byte at least, so as many rounds as there are bytes are enough.
  unfoldable pub commit_with : Publish → ℕ → Ingress → Step
  commit_with publish commit s =
      if leb (s.pos + commit) (length s.buf)
      then drain (s.pos + commit) publish (record s { pos = s.pos + commit })
      else panic

  unfoldable pub try_advance : ℕ → Ingress → Step
  unfolding commit_with
  try_advance = commit_with e.pub_sub.try_publish

  -- The future `publish` is awaited where the channel is full.
  abbrev pub or_wait : Option e.pub_sub.Channel → e.pub_sub.Channel → e.pub_sub.Channel
  or_wait (some d) waited = d
  or_wait none waited = waited

  unfoldable pub publish_or_wait : Publish
  publish_or_wait urc c = some (or_wait (e.pub_sub.try_publish urc c) (e.pub_sub.publish urc c))

  unfoldable pub advance : ℕ → Ingress → Step
  unfolding commit_with publish_or_wait
  advance = commit_with publish_or_wait

  unfoldable pub clear : Ingress → Ingress
  clear s = record s { pos = 0 }

  -- `ingress_buf[..len].copy_from_slice(&buf[..len])`
  unfoldable pub copy_in : ℕ → Bytes → Ingress → Ingress
  copy_in len src s = record s {
    buf = take s.pos s.buf ++ (take len src ++ drop (s.pos + len) s.buf);
  }

  abbrev pub Write : Type 0
  Write = Outcome (Ingress × Result ℕ IngressError)

  -- `if ingress_buf.is_empty() { return Ok(written); }`
  abbrev pub unless_no_room : Bool → Ingress → ℕ → Write → Write
  unless_no_room true s written rest = done (s, ok written)
  unless_no_room false s written rest = rest

  -- The operator `?` behind `try_advance`.
  abbrev pub or_return : (Ingress → Write) → Ingress × Result (Unit {0}) IngressError → Write
  or_return f (t, err x) = done (t, err x)
  or_return f (t, ok _) = f t

  -- The loop of `try_write`, with fuel for its rounds; the number is `written`.
  unfoldable pub try_write_loop : ℕ → Bytes → ℕ → Ingress → Write
  try_write_loop fuel [] written s = done (s, ok written)
  try_write_loop zero (b ∷ bs) written s = out_of_fuel
  try_write_loop (suc fuel) (b ∷ bs) written s =
      let len = min (length (b ∷ bs)) (length (write_buf s)) in
      unless_no_room (length (write_buf s) == 0) s written (
        try_advance len (copy_in len (b ∷ bs) s)
        >>= or_return (try_write_loop fuel (drop len (b ∷ bs)) (written + len)))

  unfoldable pub try_write : Bytes → Ingress → Write
  unfolding try_write_loop
  try_write buf s = try_write_loop (length buf) buf 0 s

  -- The loop of `write`, with fuel for its rounds.
  unfoldable pub write_loop : ℕ → Bytes → Ingress → Step
  write_loop fuel [] s = done (s, ok tt)
  write_loop zero (b ∷ bs) s = out_of_fuel
  write_loop (suc fuel) (b ∷ bs) s =
      let len = min (length (b ∷ bs)) (length (write_buf s)) in
      advance len (copy_in len (b ∷ bs) s) >>= λ (t, _). write_loop fuel (drop len (b ∷ bs)) t

  -- The serial port's answer: bytes in the free part of the buffer, or an error (`none`).
  abbrev pub receive : Option Bytes → Ingress → Outcome Ingress
  receive none s = done (clear s)
  receive (some []) s = done s
  receive (some (b ∷ bs)) s =
      advance (length (b ∷ bs)) (copy_in (length (b ∷ bs)) (b ∷ bs) s) >>= λ (t, _). done t

  -- One round of the loop of `read_from`, in which the serial port is asked for as many bytes as there
  -- is room.
  unfoldable pub read_round : (ℕ → Option Bytes) → Ingress → Outcome Ingress
  read_round serial s =
      if length (write_buf s) == 0
      then done (clear s)
      else receive (serial (length (write_buf s))) s

  -- The rounds of `read_from`, as many as the serial port answers.
  unfoldable pub read_from : List (ℕ → Option Bytes) → Ingress → Outcome Ingress
  read_from [] s = done s
  read_from (serial ∷ rest) s = read_round serial s >>= read_from rest
