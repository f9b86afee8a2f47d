-- ===== src/Client/Simple/Receives.antt =====
-- What `wait_response` of atat/src/asynch/simple_client.rs is to come to, told without its buffer: messages
-- are read off the bytes that were received, up to the first one with a response.
use atat.Base.{
  ℕ, ◌+◌, ◌-◌, ◌<◌, ◌≡◌, Option, some, none, [], ◌++◌, Bytes, length, drop, Result, ok, err,
}
use atat.Base.Outcome.{done}
use atat.Digest.Types.{DigestResult}
use atat.Error.{Error, InternalError}
use atat.Response.{Response, result_from}
use atat.Client.Simple.Port.{Line, Read, received}

-- The response that a message is for the client: none for a URC, and else what the message says.
pub data Carries : DigestResult → Option Response → Type 0 where
  nothing_carried : Carries DigestResult.nothing none
  urc_carried : {line : Bytes} → Carries (DigestResult.urc line) none
  prompt_carried : {c : ℕ} → Carries (DigestResult.prompt c) (some (Response.prompt c))
  response_carried :
      {r : Response} {resp : Result Bytes InternalError}
      → result_from r ≡ resp
      → Carries (DigestResult.response resp) (some r)

module _ (l : Line) where
  -- The digester, started in a state on an input, is then in another state, has found a response or
  -- none, and has taken so many bytes.
  pub data Finds : l.Digester → Bytes → l.Digester → Option Response → ℕ → Type 0 where
    spent : {d : l.Digester} {input : Bytes} → input ≡ [] → Finds d input d none 0
    stalled :
        {d d' : l.Digester} {input : Bytes} {m : DigestResult}
        → l.digest d input ≡ done (d', (m, 0))
        → Finds d input d' none 0
    answered :
        {d d' : l.Digester} {input : Bytes} {m : DigestResult} {k : ℕ} {r : Response}
        → l.digest d input ≡ done (d', (m, k))
        → 0 < k
        → Carries m (some r)
        → Finds d input d' (some r) k
    passed :
        {d d' d'' : l.Digester} {input : Bytes} {m : DigestResult} {o : Option Response}
        {k taken total : ℕ}
        → l.digest d input ≡ done (d', (m, k))
        → 0 < k
        → Carries m none
        → Finds d' (drop k input) d'' o taken
        → total ≡ k + taken
        → Finds d input d'' o total

  -- A wait in a buffer of `size` bytes, from a state of the digester and bytes that wait in the buffer,
  -- comes to a result, with bytes that are left.
  pub data Receives (deadline size : ℕ)
      : l.Digester
        → Bytes
        → l.World
        → Option (Result Response Error)
        → Bytes
        → l.World
        → Type 0 where
    unread :
        {d : l.Digester} {waiting : Bytes} {w v : l.World}
        → l.read deadline (size - length waiting) w ≡ (Read.failed, v)
        → Receives deadline size d waiting w (some (err Error.read)) waiting v
    late :
        {d : l.Digester} {waiting : Bytes} {w v : l.World}
        → l.read deadline (size - length waiting) w ≡ (Read.late, v)
        → Receives deadline size d waiting w (some (err Error.timeout)) waiting v
    found :
        {d d' : l.Digester} {waiting bytes left : Bytes} {w v : l.World} {r : Response} {k : ℕ}
        → l.read deadline (size - length waiting) w ≡ (received bytes, v)
        → Finds d (waiting ++ bytes) d' (some r) k
        → left ≡ drop k (waiting ++ bytes)
        → Receives deadline size d waiting w (some (ok r)) left v
    more :
        {d d' : l.Digester} {waiting bytes rest left : Bytes} {w v u : l.World}
        {r : Option (Result Response Error)} {k : ℕ}
        → l.read deadline (size - length waiting) w ≡ (received bytes, v)
        → Finds d (waiting ++ bytes) d' none k
        → rest ≡ drop k (waiting ++ bytes)
        → Receives deadline size d' rest v r left u
        → Receives deadline size d waiting w r left u
    -- A read gives nothing, and no response is found in the bytes that wait.
    fruitless :
        {d d' : l.Digester} {waiting left : Bytes} {w v : l.World} {k : ℕ}
        → l.read deadline (size - length waiting) w ≡ (received [], v)
        → Finds d waiting d' none k
        → left ≡ drop k waiting
        → Receives deadline size d waiting w none left v
