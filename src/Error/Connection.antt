-- ===== src/Error/Connection.antt =====
-- `ConnectionError` of atat/src/error/connection_error.rs.
use atat.Base.{ℕ, ◌≡◌, refl, ◌==◌, if◌then◌else◌, Bytes, codes}

pub data ConnectionError : Type 0 where
  unknown no_carrier no_dialtone busy no_answer : ConnectionError

-- The discriminant, `e as u8`.
unfoldable pub connection_as_u8 : ConnectionError → ℕ
connection_as_u8 unknown = 0
connection_as_u8 no_carrier = 1
connection_as_u8 no_dialtone = 2
connection_as_u8 busy = 3
connection_as_u8 no_answer = 4

-- `From<u8>`
unfoldable pub connection_from : ℕ → ConnectionError
connection_from v =
    if v == 1
    then no_carrier
    else if v == 2
    then no_dialtone
    else if v == 3
    then busy
    else if v == 4
    then no_answer
    else unknown

-- What `Display` writes.
unfoldable pub connection_display : ConnectionError → Bytes
connection_display unknown = codes "Unknown"
connection_display no_carrier = codes "No carrier"
connection_display no_dialtone = codes "No dialtone"
connection_display busy = codes "Busy"
connection_display no_answer = codes "No answer"

-- Every `ConnectionError` is read back from its number.
pub connection_from-connection_as_u8 :
    (e : ConnectionError) → connection_from (connection_as_u8 e) ≡ e
unfolding connection_from connection_as_u8
connection_from-connection_as_u8 unknown = refl
connection_from-connection_as_u8 _ = refl
