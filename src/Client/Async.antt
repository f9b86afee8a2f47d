-- ===== src/Client/Async.antt =====
-- atat/src/asynch/client.rs: the async client, whose deadline may be put off while it waits.
pub mod Waits
pub mod Send
mod Tests
use atat.Base.{
  ℕ, zero, suc, ◌+◌, Option, some, none, [], Bytes, leb, if◌then◌else◌, Result, ok, err,
}
use atat.Base.Outcome.{Outcome, done, out_of_fuel, ◌>>=◌}
use atat.Error
use atat.Error.{Error}
use atat.Extern.Sync.{Sync}
use atat.Response.{Response, result_from}
use atat.ResponseSlot
use atat.ResponseSlot.{ResponseSlot, pending, guard, reset, get, release}
use atat.Client.{Client, Config, AtatCmd, slice, unless_reached}
use atat.Client.Simple.Port.{Awaited, finished, failed, late}

-- What the client runs on: the clock and the timers of embassy-time, a writer of embedded-io-async, and
-- the response slot.
pub record AsyncPlatform (y : Sync) : Type 1 where
  pub World : Type 0
  pub slot : World → ResponseSlot y
  pub put_slot : ResponseSlot y → World → World
  pub now : World → ℕ
  pub sleep_until : ℕ → World → World
  pub write_all : ℕ → Bytes → World → Awaited × World
  pub flush : ℕ → World → Awaited × World
  -- `select` of the signal and a timer: the world in which the slot is signalled, or the timer expires.
  pub select : ℕ → World → World

module _ (y : Sync) (p : AsyncPlatform y) where
  abbrev pub State : Type 0
  State = Client p.World × p.World

  unfoldable pub start_cooldown_timer : State → State
  start_cooldown_timer (c, w) =
      (record c { cooldown_timer = some (p.now w + c.config.cmd_cooldown) }, w)

  unfoldable pub wait_cooldown_timer : State → State
  wait_cooldown_timer (c, w) = elim c.cooldown_timer [
    | none ↦ (record c { cooldown_timer = none }, w)
    | some expires_at ↦ (record c { cooldown_timer = none }, p.sleep_until expires_at w)
  ]

  abbrev pub was_flushed : Client p.World → Awaited × p.World → State × Result (Unit {0}) Error
  was_flushed c (finished, w) = (start_cooldown_timer (c, w), ok tt)
  was_flushed c (failed, w) = ((c, w), err Error.write)
  was_flushed c (late, w) = ((c, w), err Error.timeout)

  abbrev pub was_written : Client p.World → Awaited × p.World → State × Result (Unit {0}) Error
  was_written c (finished, w) = was_flushed c (p.flush c.config.flush_timeout w)
  was_written c (failed, w) = ((c, w), err Error.write)
  was_written c (late, w) = ((c, w), err Error.timeout)

  unfoldable pub send_request : ℕ → State → Outcome (State × Result (Unit {0}) Error)
  unfolding wait_cooldown_timer start_cooldown_timer
  send_request len s =
      let t = wait_cooldown_timer s in
      let v = p.put_slot (reset y (p.slot t.1)) t.1 in
      slice len t.0.buf >>= λ bytes.
      done (was_written t.0 (p.write_all t.0.config.tx_timeout bytes v))

  abbrev pub Answer : Type 0
  Answer = Outcome (Option Response × p.World)

  abbrev pub or_wait_on : p.World → ResponseSlot.Guarded y → Answer → Answer
  or_wait_on v (guard t) rest = done (some t.contents, p.put_slot t v)
  or_wait_on v pending rest = rest

  -- The loop of `with_timeout`, with fuel for its rounds, and the function that the deadline is computed
  -- by. The future is that of `res_slot.get()`.
  unfoldable pub timeout_loop : ℕ → (p.World → ℕ) → ℕ → p.World → Answer
  timeout_loop zero deadline expires w = out_of_fuel
  timeout_loop (suc fuel) deadline expires w =
      let v = p.select expires w in
      let new_expires = deadline v in
      let rest = timeout_loop fuel deadline new_expires v in
      get y (p.slot v) >>= λ g.
      or_wait_on v g (unless_reached (leb new_expires expires) (done (none, v)) rest)

  -- `wait_response`; `none` is the error.
  unfoldable pub wait_response : ℕ → ℕ → Config p.World → p.World → Answer
  unfolding timeout_loop
  wait_response fuel timeout config w =
      let deadline = config.get_response_timeout (p.now w) timeout in
      timeout_loop fuel deadline (deadline w) w

  module _ {R : Type 0} (cmd : AtatCmd R) where
    -- The response is parsed, and then its guard is dropped.
    abbrev pub parsed_answer : Client p.World → Option Response × p.World → State × Result R Error
    parsed_answer c (none, w) = ((c, w), err Error.timeout)
    parsed_answer c (some r, w) =
        ((c, p.put_slot (release y (p.slot w)) w), cmd.parse (result_from r))

    abbrev pub was_requested :
        ℕ → State × Result (Unit {0}) Error → Outcome (State × Result R Error)
    was_requested fuel (s, err e) = done (s, err e)
    was_requested fuel (s, ok _) =
        if cmd.expects_response_code
        then (wait_response fuel cmd.max_timeout_ms s.0.config s.1 >>= λ x.
            done (parsed_answer s.0 x))
        else done (s, cmd.parse (ok []))

    -- `AtatClient::send`
    unfoldable pub send : ℕ → State → Outcome (State × Result R Error)
    unfolding send_request wait_response
    send fuel (c, w) = cmd.write c.buf >>= λ (buf, len).
        send_request len (record c { buf = buf }, w) >>= was_requested fuel
