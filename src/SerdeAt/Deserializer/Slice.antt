-- ===== src/SerdeAt/Deserializer/Slice.antt =====
-- `from_slice` of serde_at/src/de/mod.rs.
use atat.Base.{ℕ, suc, [], Bytes, take, drop, position, rposition, Option, none, some, Result, ok}
use atat.Digest.Trim.{not_whitespace}
use atat.SerdeAt.De.{DeError}
use atat.SerdeAt.Deserializer.{Deserializer, Read, ◌>>!◌, new_deserializer, end}

abbrev pub slice_between : Bytes → Option ℕ → Option ℕ → Bytes
slice_between x (some from) (some to) = drop from (take (suc to) x)
slice_between x (some from) none = []
slice_between x none to = []

-- `trim_ascii_whitespace`
unfoldable pub trim_ascii_whitespace : Bytes → Bytes
trim_ascii_whitespace x = slice_between x (position not_whitespace x) (rposition not_whitespace x)

abbrev pub result_of : {A : Type 0} → Read A → Result A DeError
result_of (r, d) = r

-- `from_slice`, of a type with the given `Deserialize::deserialize`.
unfoldable pub from_slice : {A : Type 0} → (Deserializer → Read A) → Bytes → Result A DeError
unfolding trim_ascii_whitespace
from_slice read v = result_of (
    read (new_deserializer (trim_ascii_whitespace v)) >>! λ value d. end d >>! λ u e. (ok value, e))
