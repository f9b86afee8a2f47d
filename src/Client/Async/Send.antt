-- ===== src/Client/Async/Send.antt =====
-- `send` of atat/src/asynch/client.rs ends.
use atat.Base.{ℕ, ◌+◌, ◌≤◌, ◌≡◌, true, false, Option, some, none, [], Bytes, Result, ok, err}
use atat.Base.Outcome.{Outcome}
use atat.Error.{Error}
use atat.Extern.Sync.{Sync, IsSync}
use atat.Response.{Response, result_from}
use atat.ResponseSlot.{ResponseSlot, reset}
use atat.Client.{Client, Config, AtatCmd}
use atat.Client.Timer.{Ends}
use atat.Client.Simple.Port.{Hands}
use atat.Client.Async.{AsyncPlatform, State, was_requested}
use atat.Client.Async.Waits.{IsAsyncPlatform, Waits}

module _ (y : Sync) (laws : IsSync y) (p : AsyncPlatform y) (platform : IsAsyncPlatform p) where
  -- The client when the cooldown is over.
  abbrev pub Cools : Option ℕ → p.World → p.World → Type 0
  Cools none w v = v ≡ w
  Cools (some expires_at) w v = v ≡ p.sleep_until expires_at w

  -- Nothing is signalled any more, and the slot is as it was else.
  abbrev pub Clears : p.World → p.World → Type 0
  Clears w v =
      (s : ResponseSlot y) × (v ≡ p.put_slot s w)
      × (y.signaled s.flag ≡ false)
      × (s.contents ≡ (p.slot w).contents)
      × (s.lock ≡ (p.slot w).lock)

  -- The slot without the response that waited in it.
  abbrev cleared : p.World → p.World
  cleared w = p.put_slot (reset y (p.slot w)) w

  -- The client whose cooldown starts now.
  abbrev pub cooling : Client p.World → p.World → Client p.World
  cooling c v = record c { cooldown_timer = some (p.now v + c.config.cmd_cooldown) }

  module _ {R : Type 0} (cmd : AtatCmd R) where
    -- The wait for a response that begins in `v`.
    abbrev pub AnswerWaits : Config p.World → p.World → Option Response × p.World → Type 0
    AnswerWaits config v x =
        Waits y laws p platform (config.get_response_timeout (p.now v) cmd.max_timeout_ms)
          (config.get_response_timeout (p.now v) cmd.max_timeout_ms v) v x

    -- A deadline is put off to an instant at most.
    abbrev pub Limits : Config p.World → (ℕ → ℕ) → Type 0
    Limits config limit =
        (start : ℕ) (u : p.World)
        → config.get_response_timeout start cmd.max_timeout_ms u ≤ limit start

    -- What `send` comes to where the bytes are handed over in `w`.
    pub data Sent (c : Client p.World) (bytes : Bytes) (w : p.World)
        : State y p × Result R Error → Type 0 where
      unwritten :
          {v : p.World} {x : Error}
          → Hands
              (p.write_all c.config.tx_timeout bytes)
              (p.flush c.config.flush_timeout)
              w
              (err x)
              v
          → Sent c bytes w ((c, v), err x)
      unanswered :
          {v : p.World}
          → Hands
              (p.write_all c.config.tx_timeout bytes)
              (p.flush c.config.flush_timeout)
              w
              (ok tt)
              v
          → cmd.expects_response_code ≡ false
          → Sent c bytes w ((cooling c v, v), cmd.parse (ok []))
      timed_out :
          {v u : p.World}
          → Hands
              (p.write_all c.config.tx_timeout bytes)
              (p.flush c.config.flush_timeout)
              w
              (ok tt)
              v
          → cmd.expects_response_code ≡ true
          → AnswerWaits c.config v (none, u)
          → Sent c bytes w ((cooling c v, u), err Error.timeout)
      answered :
          {v u : p.World} {r : Response} {t : ResponseSlot y}
          → Hands
              (p.write_all c.config.tx_timeout bytes)
              (p.flush c.config.flush_timeout)
              w
              (ok tt)
              v
          → cmd.expects_response_code ≡ true
          → AnswerWaits c.config v (some r, u)
          → t.contents ≡ (p.slot u).contents
          → y.locked t.lock ≡ false
          → Sent c bytes w ((cooling c v, p.put_slot t u), cmd.parse (result_from r))

    module _ (c : Client p.World) (limit : ℕ → ℕ) (bounded : Limits c.config limit) (bytes : Bytes)
        (w : p.World) where
      abbrev Comes : State y p × Result (Unit {0}) Error → Type 0
      Comes x =
          (out : State y p × Result R Error) × Sent c bytes w out
          × Ends (λ fuel. was_requested y p cmd fuel x) out

      abbrev HandsTo : Result (Unit {0}) Error → p.World → Type 0
      HandsTo r v =
          Hands (p.write_all c.config.tx_timeout bytes) (p.flush c.config.flush_timeout) w r v
