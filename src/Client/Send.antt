-- ===== src/Client/Send.antt =====
-- `send` of atat/src/blocking/client.rs ends, whatever the device answers.
use atat.Base.{
  ℕ, ◌+◌, ◌≤◌, ◌≡◌, refl, true, false, Option, some, none, [], Bytes, Result, ok, err, arith,
}
use atat.Base.Outcome.{Outcome, done, ◌>>=◌}
use atat.Error.{Error}
use atat.Extern.Sync.{Sync, IsSync}
use atat.Response.{Response, result_from}
use atat.ResponseSlot.{ResponseSlot, reset}
use atat.Client.{Client, Config, AtatCmd, State, requested}
use atat.Client.Surroundings.{Platform, IsPlatform}
use atat.Client.Timer.{Ends, Passes}
use atat.Client.Wait.{Waits}

-- One run behind the other: the fuels add up.
pub and_then-Ends :
    {A B : Type 0} {run : ℕ → Outcome A} {a : A} (next : ℕ → A → Outcome B) {b : B}
    → Ends run a
    → Ends (λ fuel. next fuel a) b
    → Ends (λ fuel. run fuel >>= next fuel) b
and_then-Ends next x z = record {
  fuel = x.fuel + z.fuel;
  enough = λ k le. rw (x.enough k (omega arith)) (z.enough k (omega arith));
}

pub done-Ends : {A : Type 0} (a : A) → Ends (λ fuel. done a) a
done-Ends a = record { fuel = 0; enough = λ k le. refl }

module _ (y : Sync) (laws : IsSync y) (p : Platform y) (platform : IsPlatform p) where
  -- The cooldown that is left from the command before: none, or until its timer expires.
  abbrev pub Cools : Option ℕ → p.World → p.World → Type 0
  Cools none w v = v ≡ w
  Cools (some expires_at) w v = Passes y laws p platform expires_at w v

  -- The slot without the response that waited in it.
  abbrev pub cleared : p.World → p.World
  cleared w = p.put_slot (reset y (p.slot w)) w

  -- Nothing is signalled any more, and the slot is as it was else.
  abbrev pub Clears : p.World → p.World → Type 0
  Clears w v =
      (s : ResponseSlot y) × (v ≡ p.put_slot s w)
      × (y.signaled s.flag ≡ false)
      × (s.contents ≡ (p.slot w).contents)
      × (s.lock ≡ (p.slot w).lock)

  -- The bytes are handed to the writer, which is flushed then.
  pub data Hands (bytes : Bytes) (w : p.World) : Result (Unit {0}) Error → p.World → Type 0 where
    write_failed :
        {v : p.World} → p.write_all bytes w ≡ (false, v) → Hands bytes w (err Error.write) v
    flush_failed :
        {v u : p.World}
        → p.write_all bytes w ≡ (true, v)
        → p.flush v ≡ (false, u)
        → Hands bytes w (err Error.write) u
    handed :
        {v u : p.World}
        → p.write_all bytes w ≡ (true, v)
        → p.flush v ≡ (true, u)
        → Hands bytes w (ok tt) u

  -- The client whose cooldown starts at the next look at the clock.
  abbrev pub cooling : Client p.World → p.World → Client p.World
  cooling c v = record c { cooldown_timer = some ((p.now v).0 + c.config.cmd_cooldown) }

  module _ {R : Type 0} (cmd : AtatCmd R) where
    -- The deadline, as it is computed in a world where a request began its wait in `v`.
    abbrev pub deadline : Client p.World → p.World → p.World → ℕ
    deadline c v u = c.config.get_response_timeout (p.now v).0 cmd.max_timeout_ms u

    -- What `send` comes to where the bytes are handed over in `w`.
    pub data Sent (c : Client p.World) (bytes : Bytes) (w : p.World)
        : State y p × Result R Error → Type 0 where
      unwritten :
          {v : p.World} {x : Error} → Hands bytes w (err x) v → Sent c bytes w ((c, v), err x)
      unanswered :
          {v : p.World}
          → Hands bytes w (ok tt) v
          → cmd.expects_response_code ≡ false
          → Sent c bytes w ((cooling c v, (p.now v).1), cmd.parse (ok []))
      timed_out :
          {v u : p.World}
          → Hands bytes w (ok tt) v
          → cmd.expects_response_code ≡ true
          → Waits y laws p platform (deadline c (p.now v).1) (p.now (p.now v).1).1 (none, u)
          → Sent c bytes w ((cooling c v, u), err Error.timeout)
      answered :
          {v u : p.World} {r : Response} {t : ResponseSlot y}
          → Hands bytes w (ok tt) v
          → cmd.expects_response_code ≡ true
          → Waits y laws p platform (deadline c (p.now v).1) (p.now (p.now v).1).1 (some r, u)
          → t.contents ≡ (p.slot u).contents
          → y.locked t.lock ≡ false
          → Sent c bytes w ((cooling c v, p.put_slot t u), cmd.parse (result_from r))

    -- A deadline is put off to an instant at most.
    abbrev pub Limits : Config p.World → (ℕ → ℕ) → Type 0
    Limits config limit =
        (start : ℕ) (u : p.World)
        → config.get_response_timeout start cmd.max_timeout_ms u ≤ limit start

    module _ (c : Client p.World) (limit : ℕ → ℕ) (bounded : Limits c.config limit) (bytes : Bytes)
        (w : p.World) where
      abbrev Comes : State y p × Result (Unit {0}) Error → Type 0
      Comes x =
          (out : State y p × Result R Error) × Sent c bytes w out
          × Ends (λ fuel. requested y p cmd fuel x) out
