-- ===== src/Client/Simple.antt =====
-- atat/src/asynch/simple_client.rs: the client that digests what the device sends by itself, without an
-- ingress.
pub mod Port
pub mod Receives
pub mod Buffer
pub mod Waits
pub mod Stuck
pub mod TooLong
pub mod Send
mod Tests
use atat.Base.{
  ℕ, zero, suc, ◌+◌, ◌-◌, Bool, true, false, Option, some, none, [], ◌++◌, ◌==◌, Bytes, length,
  take, drop, leb, if◌then◌else◌, Result, ok, err,
}
use atat.Base.Outcome.{Outcome, done, panic, out_of_fuel, ◌>>=◌}
use atat.Digest.Types.{DigestResult}
use atat.Error
use atat.Error.{Error}
use atat.Extern.Heapless.{Heapless}
use atat.Response
use atat.Response.{Response, response_from, result_from}
use atat.Client.{Config, AtatCmd, slice}
use atat.Client.Simple.Port.{Line, Awaited, finished, failed, late, Read, received}

module _ (l : Line) where
  -- `SimpleClient`; what it reads and writes is part of the world. The timer is the instant at which
  -- it expires.
  pub record SimpleClient : Type 0 where
    pub digester : l.Digester
    pub buf : Bytes
    pub pos : ℕ
    pub config : Config l.World
    pub cooldown_timer : Option ℕ

  unfoldable pub new_simple_client : l.Digester → Bytes → Config l.World → SimpleClient
  new_simple_client digester buf config = record {
    digester = digester;
    buf = buf;
    pos = 0;
    config = config;
    cooldown_timer = none;
  }

  abbrev pub State : Type 0
  State = SimpleClient × l.World

  unfoldable pub start_cooldown_timer : State → State
  start_cooldown_timer (c, w) =
      (record c { cooldown_timer = some (l.now w + c.config.cmd_cooldown) }, w)

  unfoldable pub wait_cooldown_timer : State → State
  wait_cooldown_timer (c, w) = elim c.cooldown_timer [
    | none ↦ (record c { cooldown_timer = none }, w)
    | some expires_at ↦ (record c { cooldown_timer = none }, l.sleep_until expires_at w)
  ]

  abbrev pub after_flush : SimpleClient → Awaited × l.World → State × Result (Unit {0}) Error
  after_flush c (finished, w) = (start_cooldown_timer (c, w), ok tt)
  after_flush c (failed, w) = ((c, w), err Error.write)
  after_flush c (late, w) = ((c, w), err Error.timeout)

  abbrev pub after_write : SimpleClient → Awaited × l.World → State × Result (Unit {0}) Error
  after_write c (finished, w) = after_flush c (l.flush c.config.flush_timeout w)
  after_write c (failed, w) = ((c, w), err Error.write)
  after_write c (late, w) = ((c, w), err Error.timeout)

  unfoldable pub send_request : ℕ → State → Outcome (State × Result (Unit {0}) Error)
  unfolding wait_cooldown_timer start_cooldown_timer
  send_request len s =
      let t = wait_cooldown_timer s in
      slice len t.0.buf >>= λ bytes.
      done (after_write t.0 (l.write_all t.0.config.tx_timeout bytes t.1))

  -- `self.buf.copy_within(amt..self.pos, 0); self.pos -= amt`
  unfoldable pub consume : ℕ → SimpleClient → Outcome SimpleClient
  consume amt c =
      if leb amt c.pos
      then done (record c {
        buf = drop amt (take c.pos c.buf) ++ drop (c.pos - amt) c.buf;
        pos = c.pos - amt;
      })
      else panic

  -- The response in a message. URCs are ignored.
  abbrev pub response_in : DigestResult → Outcome (Option Response)
  response_in DigestResult.nothing = done none
  response_in (DigestResult.urc line) = done none
  response_in (DigestResult.prompt prompt) = done (some (Response.prompt prompt))
  response_in (DigestResult.response resp) =
      response_from l.heapless 256 resp >>= λ r. done (some r)

  abbrev pub Found : Type 0
  Found = Outcome (SimpleClient × Option Response)

  -- `if swallowed == 0 { break; }`
  abbrev pub unless_nothing_swallowed : Bool → SimpleClient → Found → Found
  unless_nothing_swallowed true c rest = done (c, none)
  unless_nothing_swallowed false c rest = rest

  abbrev pub or_next : SimpleClient → Option Response → Found → Found
  or_next c (some r) rest = done (c, some r)
  or_next c none rest = rest

  -- The loop `while self.pos > 0`, with fuel for its rounds.
  unfoldable pub digest_all : ℕ → SimpleClient → Found
  unfolding consume
  digest_all zero c = if c.pos == 0 then done (c, none) else out_of_fuel
  digest_all (suc fuel) c = elim (c.pos == 0) [
    | true ↦ done (c, none)
    | false ↦ l.digest c.digester (take c.pos c.buf) >>= λ (d, m). response_in m.0 >>= λ o.
        unless_nothing_swallowed (m.1 == 0) (record c { digester = d })
          (consume m.1 (record c { digester = d }) >>= λ t.
            let rest = digest_all fuel t in or_next t o rest)
  ]

  -- The bytes that were read, at the end of those before.
  unfoldable pub put_read : Bytes → SimpleClient → SimpleClient
  put_read bytes c = record c {
    buf = take c.pos c.buf ++ (bytes ++ drop (c.pos + length bytes) c.buf);
    pos = c.pos + length bytes;
  }

  abbrev pub Waited : Type 0
  Waited = Outcome (State × Result Response Error)

  abbrev pub or_read_on :
      l.World → (SimpleClient → Waited) → SimpleClient × Option Response → Waited
  or_read_on w rest (c, some r) = done ((c, w), ok r)
  or_read_on w rest (c, none) = rest c

  abbrev pub after_read : SimpleClient → (Bytes → l.World → Waited) → Read × l.World → Waited
  after_read c go (received bytes, w) = go bytes w
  after_read c go (Read.failed, w) = done ((c, w), err Error.read)
  after_read c go (Read.late, w) = done ((c, w), err Error.timeout)

  -- `wait_response`, under the timeout that `send` gives it, with fuel for its rounds.
  unfoldable pub wait_response : ℕ → ℕ → State → Waited
  unfolding put_read digest_all
  wait_response zero deadline (c, w) = out_of_fuel
  wait_response (suc fuel) deadline (c, w) =
      after_read c
        (λ bytes v.
          digest_all (c.pos + length bytes) (put_read bytes c)
          >>= or_read_on v λ t. wait_response fuel deadline (t, v))
        (l.read deadline (length (drop c.pos c.buf)) w)

  module _ {R : Type 0} (cmd : AtatCmd R) where
    abbrev pub parsed : State × Result Response Error → State × Result R Error
    parsed (s, ok r) = (s, cmd.parse (result_from r))
    parsed (s, err e) = (s, err e)

    abbrev pub behind_request :
        ℕ → State × Result (Unit {0}) Error → Outcome (State × Result R Error)
    behind_request fuel (s, err e) = done (s, err e)
    behind_request fuel (s, ok _) =
        if cmd.expects_response_code
        then (wait_response fuel (l.now s.1 + cmd.max_timeout_ms) s >>= λ x. done (parsed x))
        else done (s, cmd.parse (ok []))

    -- `AtatClient::send`, which writes the command over what waits in the buffer.
    unfoldable pub send : ℕ → State → Outcome (State × Result R Error)
    unfolding send_request wait_response
    send fuel (c, w) = cmd.write c.buf >>= λ (buf, len).
        send_request len (record c { buf = buf }, w) >>= behind_request fuel
