-- ===== src/Digest/Parser.antt =====
-- The module `parser` of atat/src/digest.rs, over nom.
use atat.Base.{
  ℕ, ◌+◌, ◌-◌, ◌*◌, Bool, Option, some, none, List, [], ◌∷◌, ◌++◌, ltb, if◌then◌else◌, Bytes, codes,
  length, Result, ok, err,
}
use atat.Digest.Types.{DigestResult, ParseError}
use atat.Digest.Trim.{trim_ascii_whitespace}
use atat.Error.{InternalError}
use atat.Error.Cme.{CmeError}
use atat.Error.Cme.From.{cme_from}
use atat.Error.Cme.Text.{cme_from_msg}
use atat.Error.Cms.From.{cms_from}
use atat.Error.Cms.Text.{cms_from_msg}
use atat.Error.Connection.{ConnectionError}
use atat.Extern.Nom.{Nom}
use atat.Extern.Nom.Spec.{IResult, Parser, parsed, and_then}

abbrev pub crlf : Bytes
crlf = codes "\r\n"

-- A digested message and the bytes that it took.
abbrev pub Message : Type 0
Message = DigestResult × ℕ

abbrev pub error_message : InternalError → ℕ → Message
error_message e len = (DigestResult.response (err e), len)

-- `From<nom::Err<_>> for ParseError`, behind the operator `?`.
unfoldable pub to_result : {O : Type 0} → IResult O → Result O ParseError
to_result (parsed r o) = ok o
to_result IResult.incomplete = err ParseError.incomplete
to_result IResult.error = err ParseError.no_match
to_result IResult.failure = err ParseError.no_match

-- The decimal number that a run of digits stands for.
unfoldable pub decimal : ℕ → Bytes → ℕ
decimal acc [] = acc
decimal acc (c ∷ cs) = decimal (acc * 10 + (c - b'0')) cs

-- `u16::from_str` on digits, with their count.
unfoldable pub u16_from_digits : Bytes → Option (ℕ × ℕ)
unfolding decimal
u16_from_digits ds = if ltb (decimal 0 ds) 65536 then some (decimal 0 ds, length ds) else none

module _ (n : Nom) where
  unfoldable pub take_until_including : Bytes → Parser (Bytes × Bytes)
  take_until_including t i =
      and_then (n.take_until t i) (λ r d. and_then (n.tag_no_case t r) (λ s u. parsed s (d, u)))

  abbrev UrcTag : Type 0
  UrcTag = Bytes × (Bytes × (Bytes × Bytes))

  unfoldable pub urc_tag : Bytes → Parser Bytes
  urc_tag token = n.recognize UrcTag (
      n.alt UrcTag (
        n.pair Bytes _ (n.tag token)
          (n.pair Bytes _ (n.tag (codes ":")) (take_until_including crlf))
        ∷ n.pair Bytes _ (n.tag token) (n.pair Bytes _ (n.tag crlf) (n.success _ ([], [])))
        ∷ []))

  unfoldable pub urc_helper : Bytes → Parser (Bytes × ℕ)
  unfolding urc_tag trim_ascii_whitespace
  urc_helper token i =
      and_then (n.pair Bytes Bytes n.line_ending (urc_tag token) i)
        (λ r t. parsed r (trim_ascii_whitespace t.1, length t.0 + length t.1))

  unfoldable pub success_response : Parser Message
  unfolding trim_ascii_whitespace
  success_response buf =
      and_then
        (n.alt _
          (n.pair (Bytes × Bytes) Bytes (take_until_including (codes "\r\nOK\r\n")) (n.success _ [])
            ∷ n.pair (Bytes × Bytes) Bytes (take_until_including (codes "\r\nCONNECT\r\n"))
                (n.success _ [])
            ∷ [])
          buf)
        (λ r t. parsed r (
          DigestResult.response (ok (trim_ascii_whitespace t.0.0)),
          length t.0.0 + length t.0.1 + length t.1,
        ))

  -- A full echo of the command, as `AT+USORD=3,16` in front of its line's end.
  unfoldable pub echo : Parser Bytes
  echo buf = if ltb (length buf) 2 then parsed buf [] else n.recognize Bytes (n.take_until crlf) buf

  -- One round of the loop of `prompt_response`.
  unfoldable pub prompt_of : ℕ → Parser Message
  prompt_of c buf =
      and_then
        (n.pair (Bytes × Bytes) (Bytes × Bytes) (take_until_including (c ∷ []))
          (n.pair Bytes Bytes n.multispace0 n.eof) buf)
        (λ r t. parsed r (DigestResult.prompt c, length t.0.0 + length t.0.1 + length t.1.0))

  unfoldable pub prompt_response : Parser Message
  unfolding prompt_of
  prompt_response buf = elim (prompt_of b'>' buf) [
    | parsed r m ↦ parsed r m
    | _ ↦ elim (prompt_of b'@' buf) [ parsed r m ↦ parsed r m | _ ↦ IResult.error ]
  ]

  unfoldable pub numeric_error : Bytes → Parser (ℕ × ℕ)
  unfolding u16_from_digits
  numeric_error token i =
      and_then
        (n.pair Bytes ((ℕ × ℕ) × Bytes)
          (n.recognize ((Bytes × Bytes) × Bytes)
            (n.pair (Bytes × Bytes) Bytes (take_until_including token) n.multispace0))
          (n.pair (ℕ × ℕ) Bytes (n.map_res Bytes (ℕ × ℕ) n.digit1 u16_from_digits) n.line_ending) i)
        (λ r t. parsed r (t.1.0.0, length t.0 + t.1.0.1 + length t.1.1))

  -- With the feature `string_errors`.
  unfoldable pub string_error : Bytes → Parser (Bytes × ℕ)
  unfolding trim_ascii_whitespace
  string_error token i =
      and_then
        (n.pair Bytes (Unit {0} × Bytes) (n.recognize (Bytes × Bytes) (take_until_including token))
          (n.pair (Unit {0}) Bytes (n.not Bytes (n.tag (codes "\r")))
            (n.recognize (Bytes × Bytes) (take_until_including crlf)))
          i)
        (λ r t. parsed r (trim_ascii_whitespace t.1.1, length t.0 + length t.1.1))

  unfoldable pub generic_error : Parser ℕ
  generic_error i =
      and_then
        (n.alt (Bytes × Bytes)
          (take_until_including (codes "\r\nERROR\r\n")
            ∷ take_until_including (codes "\r\nCOMMAND NOT SUPPORT\r\n")
            ∷ [])
          i)
        (λ r t. parsed r (length t.0 + length t.1))

  unfoldable pub connection_of : Bytes → ConnectionError → Parser (ConnectionError × ℕ)
  connection_of token e =
      n.map (Bytes × Bytes) _ (take_until_including token) (λ t. (e, length t.0 + length t.1))

  unfoldable pub connection_error : Parser (ConnectionError × ℕ)
  unfolding connection_of
  connection_error i =
      n.alt _
        (connection_of (codes "\r\nNO CARRIER\r\n") ConnectionError.no_carrier
          ∷ connection_of (codes "\r\nBUSY\r\n") ConnectionError.busy
          ∷ connection_of (codes "\r\nNO ANSWER\r\n") ConnectionError.no_answer
          ∷ connection_of (codes "\r\nNO DIALTONE\r\n") ConnectionError.no_dialtone
          ∷ [])
        i

  -- The two arms behind `#[cfg(feature = "string_errors")]`.
  unfoldable pub string_arms : Bool → List (Parser Message)
  unfolding string_error cme_from_msg cms_from_msg
  string_arms string_errors =
      if string_errors
      then n.map _ _ (string_error (codes "\r\n+CME ERROR:"))
          (λ m. error_message (InternalError.cme_error (cme_from_msg m.0)) m.1)
        ∷ n.map _ _ (string_error (codes "\r\n+CMS ERROR:"))
            (λ m. error_message (InternalError.cms_error (cms_from_msg m.0)) m.1)
        ∷ []
      else []

  unfoldable pub error_response : Bool → Parser Message
  unfolding numeric_error string_arms generic_error connection_error cme_from cms_from
  error_response string_errors buf =
      n.alt Message
        (n.map (ℕ × ℕ) _ (numeric_error (codes "\r\n+CME ERROR:"))
            (λ m. error_message (InternalError.cme_error (cme_from m.0)) m.1)
          ∷ n.map (ℕ × ℕ) _ (numeric_error (codes "\r\n+CMS ERROR:"))
              (λ m. error_message (InternalError.cms_error (cms_from m.0)) m.1)
          ∷ (string_arms string_errors
              ++ n.map (ℕ × ℕ) _ (numeric_error (codes "\r\nMODEM ERROR:"))
                  (λ m. error_message (InternalError.cme_error CmeError.unknown) m.1)
                ∷ n.map ℕ _ generic_error (λ len. error_message InternalError.error len)
                ∷ n.map (ConnectionError × ℕ) _ connection_error
                    (λ m. error_message (InternalError.connection_error m.0) m.1)
                ∷ n.map Bytes _ (n.recognize Bytes (n.tag (codes "\r\nNA\r\n")))
                    (λ t. error_message (InternalError.cme_error CmeError.not_allowed) (length t))
                ∷ []))
        buf
