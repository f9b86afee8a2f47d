-- ===== src/Client.antt =====
-- atat/src/blocking/: the blocking client, its cooldown timer and the retries; atat/src/config.rs.
pub mod Surroundings
pub mod Retry
pub mod AsyncRetry
pub mod Timer
pub mod Wait
pub mod Send
pub mod Simple
pub mod Async
mod Tests
use atat.Base.{
  ℕ, zero, suc, ◌+◌, Bool, true, false, Option, some, none, [], Bytes, length, take, leb,
  if◌then◌else◌, Result, ok, err,
}
use atat.Base.Outcome.{Outcome, done, panic, out_of_fuel, ◌>>=◌}
use atat.Error
use atat.Error.{Error, InternalError}
use atat.Extern.Sync.{Sync}
use atat.Response.{Response, result_from}
use atat.ResponseSlot.{ResponseSlot, pending, guard, reset, try_get, release}
use atat.Client.Surroundings.{Platform}

-- Durations and instants in milliseconds.
-- The function of the response timeout may look at the world, its clock among it.
pub record Config (W : Type 0) : Type 0 where
  pub cmd_cooldown : ℕ
  pub tx_timeout : ℕ
  pub flush_timeout : ℕ
  pub get_response_timeout : ℕ → ℕ → W → ℕ

abbrev pub get_response_timeout : {W : Type 0} → ℕ → ℕ → W → ℕ
get_response_timeout start duration w = start + duration

abbrev pub new_config : {W : Type 0} → Config W
new_config = record {
  cmd_cooldown = 20;
  tx_timeout = 1000;
  flush_timeout = 1000;
  get_response_timeout = get_response_timeout;
}

abbrev pub with_tx_timeout : {W : Type 0} → Config W → ℕ → Config W
with_tx_timeout config duration = record config { tx_timeout = duration }

abbrev pub with_flush_timeout : {W : Type 0} → Config W → ℕ → Config W
with_flush_timeout config duration = record config { flush_timeout = duration }

abbrev pub with_cmd_cooldown : {W : Type 0} → Config W → ℕ → Config W
with_cmd_cooldown config duration = record config { cmd_cooldown = duration }

abbrev pub with_get_response_timeout : {W : Type 0} → Config W → (ℕ → ℕ → W → ℕ) → Config W
with_get_response_timeout config compute = record config { get_response_timeout = compute }

-- The trait `AtatCmd`, which the commands of a user implement. `write` fills the buffer and returns the
-- length of the command.
pub record AtatCmd (R : Type 0) : Type 0 where
  pub write : Bytes → Outcome (Bytes × ℕ)
  pub parse : Result Bytes InternalError → Result R Error
  pub expects_response_code : Bool
  pub max_timeout_ms : ℕ
  pub attempts : ℕ

-- `Client`; its writer is part of the world. The timer is the instant at which it expires.
pub record Client (W : Type 0) : Type 0 where
  pub buf : Bytes
  pub cooldown_timer : Option ℕ
  pub config : Config W

unfoldable pub new_client : {W : Type 0} → Bytes → Config W → Client W
new_client buf config = record { buf = buf; cooldown_timer = none; config = config }

-- `&buf[..len]`
abbrev pub slice : ℕ → Bytes → Outcome Bytes
slice len buf = if leb len (length buf) then done (take len buf) else panic

-- The instant has come, or the loop goes on.
abbrev pub unless_reached : {A : Type 0} → Bool → A → A → A
unless_reached true stop rest = stop
unless_reached false stop rest = rest

module _ (y : Sync) (p : Platform y) where
  -- `BlockingTimer::after`
  unfoldable pub timer_after : ℕ → p.World → ℕ × p.World
  timer_after duration w = ((p.now w).0 + duration, (p.now w).1)

  -- The loop of `BlockingTimer::wait`, with fuel for its rounds.
  unfoldable pub timer_wait : ℕ → ℕ → p.World → Outcome p.World
  timer_wait zero expires_at w = out_of_fuel
  timer_wait (suc fuel) expires_at w =
      let rest = timer_wait fuel expires_at (p.now w).1 in
      unless_reached (leb expires_at (p.now w).0) (done (p.now w).1) rest

  abbrev pub State : Type 0
  State = Client p.World × p.World

  unfoldable pub wait_cooldown_timer : ℕ → State → Outcome State
  unfolding timer_wait
  wait_cooldown_timer fuel (c, w) = elim c.cooldown_timer [
    | none ↦ done (record c { cooldown_timer = none }, w)
    | some expires_at ↦
        timer_wait fuel expires_at w >>= λ v. done (record c { cooldown_timer = none }, v)
  ]

  unfoldable pub start_cooldown_timer : State → State
  unfolding timer_after
  start_cooldown_timer (c, w) =
      let t = timer_after c.config.cmd_cooldown w in (record c { cooldown_timer = some t.0 }, t.1)

  abbrev pub flushed : State → Bool → State × Result (Unit {0}) Error
  flushed s true = (start_cooldown_timer s, ok tt)
  flushed s false = (s, err Error.write)

  abbrev pub written : Client p.World → Bool → p.World → State × Result (Unit {0}) Error
  written c true w = flushed (c, (p.flush w).1) (p.flush w).0
  written c false w = ((c, w), err Error.write)

  -- The part of `send_request` behind the cooldown: any pending response is dropped, and the command is
  -- written.
  unfoldable pub request : ℕ → State → Outcome (State × Result (Unit {0}) Error)
  unfolding start_cooldown_timer
  request len (c, w) =
      let v = p.put_slot (reset y (p.slot w)) w in
      slice len c.buf >>= λ bytes. done (written c (p.write_all bytes v).0 (p.write_all bytes v).1)

  unfoldable pub send_request : ℕ → ℕ → State → Outcome (State × Result (Unit {0}) Error)
  unfolding request wait_cooldown_timer
  send_request fuel len s = wait_cooldown_timer fuel s >>= request len

  -- `self.res_slot.try_get()`: the response, and the world in which a guard holds it.
  unfoldable pub poll : p.World → Outcome (Option (Response × p.World))
  poll w = try_get y (p.slot w) >>= λ g. elim g [
    | pending ↦ done none
    | guard t ↦ done (some (t.contents, p.put_slot t w))
  ]

  -- The loop of `with_timeout`, with fuel for its rounds, each of which computes the deadline anew.
  unfoldable pub timeout_loop : ℕ → (p.World → ℕ) → p.World → Outcome (Option Response × p.World)
  timeout_loop zero deadline w = out_of_fuel
  timeout_loop (suc fuel) deadline w = poll w >>= λ o. elim o [
    | some (r, v) ↦ done (some r, v)
    | none ↦
        let rest = timeout_loop fuel deadline (p.now w).1 in
        unless_reached (leb (deadline w) (p.now w).0) (done (none, (p.now w).1)) rest
  ]

  -- `wait_response`, which runs `with_timeout`. `none` is the error.
  unfoldable pub wait_response :
      ℕ → ℕ → Config p.World → p.World → Outcome (Option Response × p.World)
  unfolding timeout_loop
  wait_response fuel timeout config w =
      timeout_loop fuel (config.get_response_timeout (p.now w).0 timeout) (p.now w).1

  module _ {R : Type 0} (cmd : AtatCmd R) where
    -- The response is parsed, and then its guard is dropped.
    abbrev pub answer : Client p.World → Option Response × p.World → State × Result R Error
    answer c (none, w) = ((c, w), err Error.timeout)
    answer c (some r, w) = ((c, p.put_slot (release y (p.slot w)) w), cmd.parse (result_from r))

    abbrev pub requested : ℕ → State × Result (Unit {0}) Error → Outcome (State × Result R Error)
    requested fuel (s, err e) = done (s, err e)
    requested fuel (s, ok _) =
        if cmd.expects_response_code
        then (wait_response fuel cmd.max_timeout_ms s.0.config s.1 >>= λ x. done (answer s.0 x))
        else done (s, cmd.parse (ok []))

    -- `AtatClient::send`
    unfoldable pub send : ℕ → State → Outcome (State × Result R Error)
    unfolding send_request wait_response
    send fuel (c, w) = cmd.write c.buf >>= λ (buf, len).
        send_request fuel len (record c { buf = buf }, w) >>= requested fuel
