-- ===== src/Response.antt =====
-- atat/src/response.rs: the form in which a response waits in the response slot, with an inline
-- buffer of `n` bytes. The code's `unwrap` of a copy into that buffer panics where it is too small.
pub mod Conversion
use atat.Base.{ℕ, Bytes, [], Option, Result, ok, err, length}
use atat.Base.Outcome.{Outcome, done, ◌>>=◌, unwrap}
use atat.Error.{InternalError}
use atat.Error.Cme.{cme_as_u16}
use atat.Error.Cme.From.{cme_from}
use atat.Error.Cms.{cms_as_u16}
use atat.Error.Cms.From.{cms_from}
use atat.Error.Connection.{connection_as_u8, connection_from}
use atat.Extern.Heapless.{Heapless}

pub data Response : Type 0 where
  ok_response : Bytes → Response
  prompt : ℕ → Response
  read_error write_error timeout_error invalid_response_error : Response
  aborted_error parse_error other_error : Response
  cme_error : ℕ → Response
  cms_error : ℕ → Response
  connection_error : ℕ → Response
  custom_error : Bytes → Response

-- `From<InternalError> for Response<N>`
unfoldable pub response_from_error : Heapless → ℕ → InternalError → Outcome Response
unfolding cme_as_u16 cms_as_u16 connection_as_u8
response_from_error h n InternalError.read = done read_error
response_from_error h n InternalError.write = done write_error
response_from_error h n InternalError.timeout = done timeout_error
response_from_error h n InternalError.invalid_response = done invalid_response_error
response_from_error h n InternalError.aborted = done aborted_error
response_from_error h n InternalError.parse = done parse_error
response_from_error h n InternalError.error = done other_error
response_from_error h n (InternalError.cme_error e) = done (cme_error (cme_as_u16 e))
response_from_error h n (InternalError.cms_error e) = done (cms_error (cms_as_u16 e))
response_from_error h n (InternalError.connection_error e) =
    done (connection_error (connection_as_u8 e))
response_from_error h n (InternalError.custom e) = do
  v ← unwrap (h.from_slice n e)
  done (custom_error v)

-- `From<Result<&[u8], InternalError>> for Response<N>`
unfoldable pub response_from : Heapless → ℕ → Result Bytes InternalError → Outcome Response
unfolding response_from_error
response_from h n (ok slice) = do v ← unwrap (h.from_slice n slice); done (ok_response v)
response_from h n (err e) = response_from_error h n e

-- `From<&Response<N>> for Result<&[u8], InternalError>`
unfoldable pub result_from : Response → Result Bytes InternalError
result_from (ok_response slice) = ok slice
result_from (prompt _) = ok []
result_from read_error = err InternalError.read
result_from write_error = err InternalError.write
result_from timeout_error = err InternalError.timeout
result_from invalid_response_error = err InternalError.invalid_response
result_from aborted_error = err InternalError.aborted
result_from parse_error = err InternalError.parse
result_from other_error = err InternalError.error
result_from (cme_error e) = err (InternalError.cme_error (cme_from e))
result_from (cms_error e) = err (InternalError.cms_error (cms_from e))
result_from (connection_error e) = err (InternalError.connection_error (connection_from e))
result_from (custom_error e) = err (InternalError.custom e)
