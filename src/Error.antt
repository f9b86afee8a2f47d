-- ===== src/Error.antt =====
-- atat/src/error/mod.rs: the errors inside the crate (`InternalError`), those that it returns
-- (`Error`), and the conversion between them. The child modules have the errors of the device.
mod Tests
pub mod Table
pub mod Cme
pub mod Cms
pub mod Connection
use Prim.Native.Nat.{min}
use mathlib.Core.Option.{get_or}
use atat.Base.{ℕ, Bool, true, false, [], Bytes, length, take, if◌then◌else◌}
use atat.Error.Cme.{CmeError}
use atat.Error.Cms.{CmsError}
use atat.Error.Connection.{ConnectionError}
use atat.Extern.Heapless.{Heapless}

pub data InternalError : Type 0 where
  read write timeout invalid_response aborted parse error : InternalError
  cme_error : CmeError → InternalError
  cms_error : CmsError → InternalError
  connection_error : ConnectionError → InternalError
  custom : Bytes → InternalError

pub data Error : Type 0 where
  read write timeout invalid_response aborted parse error : Error
  cme_error : CmeError → Error
  cms_error : CmsError → Error
  connection_error : ConnectionError → Error
  custom : Error
  custom_message : Bytes → Error

-- `From<InternalError>`. The flag is the feature `custom-error-messages`.
unfoldable pub error_from : Heapless → Bool → InternalError → Error
error_from h custom_messages InternalError.read = Error.read
error_from h custom_messages InternalError.write = Error.write
error_from h custom_messages InternalError.timeout = Error.timeout
error_from h custom_messages InternalError.invalid_response = Error.invalid_response
error_from h custom_messages InternalError.aborted = Error.aborted
error_from h custom_messages InternalError.parse = Error.parse
error_from h custom_messages InternalError.error = Error.error
error_from h custom_messages (InternalError.cme_error e) = Error.cme_error e
error_from h custom_messages (InternalError.cms_error e) = Error.cms_error e
error_from h custom_messages (InternalError.connection_error e) = Error.connection_error e
error_from h custom_messages (InternalError.custom e) =
    if custom_messages
    then Error.custom_message (get_or (h.from_slice 64 (take (min (length e) 64) e)) [])
    else Error.custom
