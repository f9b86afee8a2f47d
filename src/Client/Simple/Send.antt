-- ===== src/Client/Simple/Send.antt =====
-- `send` of atat/src/asynch/simple_client.rs.
use atat.Base.{
  ℕ, ◌+◌, ◌≤◌, ◌≡◌, true, false, Option, some, none, [], Bytes, length, Result, ok, err,
}
use atat.Base.Outcome.{Outcome, done, ◌>>=◌}
use atat.Error.{Error}
use atat.Response.{Response, result_from}
use atat.Client.{AtatCmd}
use atat.Client.Simple.{SimpleClient, State, wait_response, parsed, behind_request}
use atat.Client.Simple.Port.{Line, IsLine, Hands}
use atat.Client.Simple.Receives.{Receives}
use atat.Client.Simple.Buffer.{waiting}

module _ (l : Line) where
  -- The client when the cooldown is over.
  abbrev pub Cools : Option ℕ → l.World → l.World → Type 0
  Cools none w v = v ≡ w
  Cools (some expires_at) w v = v ≡ l.sleep_until expires_at w

  -- The client whose cooldown starts now.
  abbrev pub cooling : SimpleClient l → l.World → SimpleClient l
  cooling c v = record c { cooldown_timer = some (l.now v + c.config.cmd_cooldown) }

  module _ {R : Type 0} (cmd : AtatCmd R) where
    module _ (c : SimpleClient l) (bytes : Bytes) (w : l.World) where
      abbrev HandsTo : Result (Unit {0}) Error → l.World → Type 0
      HandsTo r v =
          Hands (l.write_all c.config.tx_timeout bytes) (l.flush c.config.flush_timeout) w r v

      -- What the client whose wait begins in `v` is to receive.
      abbrev pub ReceivesFrom : l.World → Option (Result Response Error) → State l → Type 0
      ReceivesFrom v r t =
          Receives l (l.now v + cmd.max_timeout_ms) (length c.buf) c.digester (waiting l c) v r
            (waiting l t.0) t.1

      -- What `send` comes to where the bytes are handed over in `w`.
      pub data Sent (run : ℕ → Outcome (State l × Result R Error)) : Type 0 where
        unwritten :
            {v : l.World} {x : Error}
            → HandsTo (err x) v
            → ((k : ℕ) → run k ≡ done ((c, v), err x))
            → Sent run
        unanswered :
            {v : l.World}
            → HandsTo (ok tt) v
            → cmd.expects_response_code ≡ false
            → ((k : ℕ) → run k ≡ done ((cooling c v, v), cmd.parse (ok [])))
            → Sent run
        answered :
            {v : l.World} (t : State l) (r : Response) (fuel : ℕ)
            → HandsTo (ok tt) v
            → cmd.expects_response_code ≡ true
            → ReceivesFrom v (some (ok r)) t
            → ((k : ℕ) → fuel ≤ k → run k ≡ done (t, cmd.parse (result_from r)))
            → Sent run
        unreceived :
            {v : l.World} (t : State l) (x : Error) (fuel : ℕ)
            → HandsTo (ok tt) v
            → cmd.expects_response_code ≡ true
            → ReceivesFrom v (some (err x)) t
            → ((k : ℕ) → fuel ≤ k → run k ≡ done (t, err x))
            → Sent run
        starved :
            {v : l.World} (t : State l) (fuel : ℕ)
            → HandsTo (ok tt) v
            → cmd.expects_response_code ≡ true
            → ReceivesFrom v none t
            → ((k : ℕ)
                → run (fuel + k) ≡ (
                    wait_response l k (l.now v + cmd.max_timeout_ms) t >>= λ x.
                    done (parsed l cmd x)))
            → Sent run

      module _ (laws : IsLine l) (fits : c.pos ≤ length c.buf) (small : length c.buf ≤ 256) where
        abbrev Comes : State l × Result (Unit {0}) Error → Type 0
        Comes x = Sent λ k. behind_request l cmd k x

        -- The wait of an answer that is expected.
        abbrev behind : l.World → ℕ → Outcome (State l × Result R Error)
        behind v k = wait_response l k (l.now v + cmd.max_timeout_ms) (cooling c v, v) >>= λ x.
            done (parsed l cmd x)
