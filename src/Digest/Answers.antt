-- ===== src/Digest/Answers.antt =====
-- What `AtDigester::digest` of atat/src/digest.rs makes of a whole answer of the device.
use atat.Base.{◌+◌, ◌≡◌, refl, ap, ◌∙◌, Bool, ◌++◌, Bytes, codes, length, ok, err, arith}
use atat.Base.Outcome.{done}
use atat.Digest.{AtDigester, digest, digest_urc, digest_success}
use atat.Digest.Echo.{OnlySpaces, NoSpaceFirst, digest_behind_echo}
use atat.Digest.Parser.{crlf, success_response}
use atat.Digest.Takes.{take_until_including-first}
use atat.Digest.Trim.{trim_ascii_whitespace}
use atat.Digest.Types.{DigestResult, ParseError}
use atat.Extern.Nom.{Nom, IsNom, IsNom-unique, reference}
use atat.Extern.Nom.Laws.{Absent}
use atat.Extern.Nom.Spec
use atat.Extern.Nom.Steps.{and_then-eq, alt-first, pair-parsed}
use atat.Extern.Nom.Spec.{and_then, IResult, Parser, parsed}

abbrev pub ok_line : Bytes
ok_line = codes "\r\nOK\r\n"

success_response-ok :
    (answer rest : Bytes)
    → Absent ok_line answer (ok_line ++ rest)
    → success_response reference (answer ++ (ok_line ++ rest))
      ≡ parsed rest (DigestResult.response (ok (trim_ascii_whitespace answer)), length answer + 6)
unfolding success_response Spec.success
success_response-ok answer rest h =
    and_then-eq _
      (alt-first _ _ _ (pair-parsed _ _ _ (take_until_including-first ok_line answer rest h) refl))
    ∙ ap (λ k. parsed rest (DigestResult.response (ok (trim_ascii_whitespace answer)), k))
        (omega arith)

-- With a lawful `nom`, behind spaces and an echo without a line end, where neither the URC parser
-- nor the custom success parser matches, the digester returns the text in front of the first line
-- `OK`, trimmed, and swallows everything up to the end of that line.
pub digest-ok :
    (n : Nom) (se : Bool) (d : AtDigester) (spaces e tail answer rest : Bytes)
    → IsNom n
    → OnlySpaces spaces
    → NoSpaceFirst e
    → Absent crlf e (crlf ++ tail)
    → crlf ++ tail ≡ answer ++ (ok_line ++ rest)
    → Absent ok_line answer (ok_line ++ rest)
    → d.urc_parser (crlf ++ tail) ≡ err ParseError.no_match
    → d.custom_success (crlf ++ tail) ≡ err ParseError.no_match
    → digest n se d (spaces ++ (e ++ (crlf ++ tail)))
      ≡ done (
        DigestResult.response (ok (trim_ascii_whitespace answer)),
        length answer + 6 + (length spaces + length e),
      )
unfolding digest_urc digest_success
digest-ok n se d spaces e tail answer rest laws hs he ha split first urc custom =
    let runs = success_response-ok answer rest first in
    rw (IsNom-unique n laws)
      (digest_behind_echo se d spaces e tail hs he ha ∙ rw (urc, custom) (rw split (rw runs)))
