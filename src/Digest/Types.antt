-- ===== src/Digest/Types.antt =====
-- What a digester returns: `DigestResult` and `ParseError` of atat/src/digest.rs.
use atat.Base.{ℕ, Bytes, Result}
use atat.Error.{InternalError}

pub data DigestResult : Type 0 where
  urc : Bytes → DigestResult
  response : Result Bytes InternalError → DigestResult
  prompt : ℕ → DigestResult
  nothing : DigestResult

pub data ParseError : Type 0 where
  incomplete no_match : ParseError
