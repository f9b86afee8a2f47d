-- ===== src/Digest/Tests.antt =====
-- Runs of the digester on inputs of the tests in atat/src/digest.rs, and the theorems at inputs.
use atat.Base.{◌+◌, ◌≡◌, refl, Bool, true, false, [], ◌∷◌, ◌++◌, ok, err, codes, drop, Bytes, arith}
use atat.Digest.Answers.{digest-ok}
use atat.Digest.Urcs.{digest-urc_twice}
use atat.Extern.Nom.{reference-IsNom}
use atat.Digest.Trim.{trim_ascii_whitespace}
use atat.Digest.Parser.{crlf}
use atat.Base.Outcome.{Outcome, done}
use atat.Digest.{
  Recogniser, AtDigester, new_digester, digest, digest_urc, digest_success, digest_prompts,
  digest_errors,
}
use atat.Digest.Parser.{
  echo, success_response, prompt_response, error_response, take_until_including, Message,
  urc_helper, to_result,
}
use atat.Digest.Trim.{trim_start_ascii_space}
use atat.Digest.Types.{DigestResult}
use atat.Error.{InternalError}
use atat.Error.Cme.{CmeError}
use atat.Error.Connection.{ConnectionError}
use atat.Extern.Nom.{reference, running}

-- `UrcTestParser` of the tests.
urc_parser : Recogniser Bytes
urc_parser buf = to_result (
    reference.alt _
      (urc_helper reference (codes "+UUSORD") ∷ urc_helper reference (codes "+CIEV") ∷ []) buf)

tester : AtDigester
tester = new_digester urc_parser

-- `digest` of that tester, with or without the feature `string_errors`.
run : Bool → Bytes → Outcome Message
unfolding running digest digest_urc digest_success digest_prompts digest_errors
    trim_start_ascii_space echo success_response prompt_response error_response take_until_including
    tester urc_parser urc_helper to_result new_digester
run string_errors = digest reference string_errors tester

digest_ok :
    run false (codes "\r\nOK\r\n\r\n+CMTI: \"ME\",1\r\n") ≡ done (DigestResult.response (ok []), 6)
unfolding run
digest_ok = refl

digest_urc_line :
    run false (codes "\r\n+CIEV: 7,1\r\n\r\n+CRING: VOICE\r\n")
    ≡ done (DigestResult.urc (codes "+CIEV: 7,1"), 14)
unfolding run
digest_urc_line = refl

digest_cme :
    run true (codes "\r\n+CME ERROR: 112\r\n")
    ≡ done (DigestResult.response (err (InternalError.cme_error CmeError.area_not_allowed)), 19)
unfolding run
digest_cme = refl

digest_raspberry :
    run true (codes "\r\n+CME ERROR: raspberry\r\n")
    ≡ done (DigestResult.response (err (InternalError.cme_error CmeError.unknown)), 25)
unfolding run
digest_raspberry = refl

digest_cme_none : run true (codes "\r\n+CME ERROR:\r\n") ≡ done (DigestResult.nothing, 0)
unfolding run
digest_cme_none = refl

digest_busy :
    run true (codes "\r\nBUSY\r\n\r\nSomething extra\r\n")
    ≡ done (DigestResult.response (err (InternalError.connection_error ConnectionError.busy)), 8)
unfolding run
digest_busy = refl

digest_echo : run true (codes "AT+USORD=3,16\r\n") ≡ done (DigestResult.nothing, 13)
unfolding run
digest_echo = refl

digest_prompt : run true (codes "\r\n> ") ≡ done (DigestResult.prompt b'>', 4)
unfolding run
digest_prompt = refl

-- "AT+CSQ", a carriage return, and the answer.
digest-ok_example :
    digest reference false
      (new_digester urc_parser)
      (codes " " ++ (codes "AT+CSQ\r" ++ (crlf ++ codes "+CSQ: 2,3\r\n\r\nOK\r\n")))
    ≡ done (
      DigestResult.response (ok (trim_ascii_whitespace (codes "\r\n+CSQ: 2,3\r\n"))),
      13 + 6 + (1 + 7),
    )
unfolding run
digest-ok_example =
    digest-ok reference false (new_digester urc_parser) (codes " ") (codes "AT+CSQ\r")
      (codes "+CSQ: 2,3\r\n\r\nOK\r\n") (codes "\r\n+CSQ: 2,3\r\n") [] reference-IsNom (refl, tt)
      (omega arith) (refl, (refl, (refl, (refl, (refl, (refl, (refl, tt))))))) refl
      (
        refl,
        (
          refl,
          (
            refl,
            (refl, (refl, (refl, (refl, (refl, (refl, (refl, (refl, (refl, (refl, tt)))))))))),
          ),
        ),
      )
      refl refl

digest-urc_twice_example :
    (digest reference false
        (new_digester urc_parser)
        (codes "AT+CIMI;+CGMM\r" ++ (crlf ++ codes "+CIEV: 7,1\r\n"))
      ≡ done (DigestResult.urc (codes "+CIEV: 7,1"), 14))
    × (digest reference false
          (new_digester urc_parser)
          (drop 14 (codes "AT+CIMI;+CGMM\r" ++ (crlf ++ codes "+CIEV: 7,1\r\n")))
        ≡ done (DigestResult.urc (codes "+CIEV: 7,1"), 14))
unfolding run
digest-urc_twice_example =
    digest-urc_twice reference false (new_digester urc_parser) (codes "AT+CIMI;+CGMM\r")
      (codes "+CIEV: 7,1\r\n") (codes "+CIEV: 7,1") 14 reference-IsNom (omega arith)
      (
        refl,
        (
          refl,
          (
            refl,
            (
              refl,
              (refl, (refl, (refl, (refl, (refl, (refl, (refl, (refl, (refl, (refl, tt)))))))))),
            ),
          ),
        ),
      )
      (omega arith) refl
