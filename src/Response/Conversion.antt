-- ===== src/Response/Conversion.antt =====
-- A response that is stored and read back.
use atat.Base.{
  ℕ, ◌≤◌, ◌<◌, ◌≡◌, refl, ap, Bytes, [], some, none, Result, ok, err, length, le→leb, arith,
}
use atat.Base.Outcome.{done, panic}
use atat.Error.{InternalError}
use atat.Error.Cme.From.{cme_from-cme_as_u16}
use atat.Error.Cms.From.{cms_from-cms_as_u16}
use atat.Error.Connection.{connection_from-connection_as_u8}
use atat.Extern.Heapless.{Heapless, IsHeapless}
use atat.Response.{Response, ok_response, custom_error, response_from, result_from}

-- The bytes that a result carries.
abbrev pub payload : Result Bytes InternalError → Bytes
payload (ok slice) = slice
payload (err (InternalError.custom e)) = e
payload (err _) = []

module _ (h : Heapless) (laws : IsHeapless h) where
  fits : (n : ℕ) (s : Bytes) → length s ≤ n → h.from_slice n s ≡ some s
  fits n s le = rw (laws.from_slice_lem, le→leb (length s) n le)

  too_long : (n : ℕ) (s : Bytes) → n < length s → h.from_slice n s ≡ none
  too_long n s lt = rw laws.from_slice_lem (ground arith)

  -- With a lawful `Vec::from_slice`, a result that fits the response's buffer, a slice or any error,
  -- is converted without a panic, and converted back to the same result.
  pub result_from-response_from :
      (n : ℕ) (r : Result Bytes InternalError)
      → length (payload r) ≤ n
      → (s : Response) × (response_from h n r ≡ done s) × (result_from s ≡ r)
  unfolding response_from result_from
  result_from-response_from n (ok slice) le = (ok_response slice, rw (fits n slice le), refl)
  result_from-response_from n (err (InternalError.custom e)) le =
      (custom_error e, rw (fits n e le), refl)
  result_from-response_from n (err (InternalError.cme_error e)) le =
      (_, refl, ap (λ x. err (InternalError.cme_error x)) (cme_from-cme_as_u16 e))
  result_from-response_from n (err (InternalError.cms_error e)) le =
      (_, refl, ap (λ x. err (InternalError.cms_error x)) (cms_from-cms_as_u16 e))
  result_from-response_from n (err (InternalError.connection_error e)) le = (
    _,
    refl,
    ap (λ x. err (InternalError.connection_error x)) (connection_from-connection_as_u8 e),
  )
  result_from-response_from n (err InternalError.read) le = (_, refl, refl)
  result_from-response_from n (err _) le = (_, refl, refl)

  -- With a lawful `Vec::from_slice`, a result that carries more bytes than the response's buffer
  -- holds makes the conversion panic.
  pub response_from-panic :
      (n : ℕ) (r : Result Bytes InternalError)
      → n < length (payload r)
      → response_from h n r ≡ panic
  unfolding response_from
  response_from-panic n (ok slice) lt = rw (too_long n slice lt)
  response_from-panic n (err (InternalError.custom e)) lt = rw (too_long n e lt)
  response_from-panic n (err InternalError.read) lt = absurd (omega arith)
  response_from-panic n (err _) lt = absurd (omega arith)
