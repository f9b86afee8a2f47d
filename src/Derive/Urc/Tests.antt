-- ===== src/Derive/Urc/Tests.antt =====
-- The derived URC parser of `enum Urc` at the head of the tests in atat/src/digest.rs, and the digester
-- on it.
use atat.Base.{ℕ, ◌≤◌, ◌<◌, ◌≡◌, ◌≢◌, refl, false, some, none, List, [], ◌∷◌, Bytes, codes, length}
use atat.Base.Outcome.{done}
use atat.Digest.{AtDigester, new_digester, digest}
use atat.Digest.Bounds.{IsFair, digest-Within}
use atat.Digest.Types.{DigestResult}
use atat.Extern.Nom.{reference, reference-IsNom}
use atat.Derive.Urc.{Variant, derived_parser, derived_parse}
use atat.Derive.Urc.Fair.{derived_parser-Fair}
use atat.Digest.Bounds.{Fair}

abbrev variants : List (Variant Bytes)
variants =
    record { code = codes "+UUSORD"; read = some; parse_fn = none }
    ∷ record { code = codes "+CIEV"; read = some; parse_fn = none }
    ∷ []

derived_parser-Fair_example : Fair (derived_parser reference variants)
derived_parser-Fair_example = derived_parser-Fair reference variants reference-IsNom (tt, (tt, tt))

derived_digester : AtDigester
derived_digester = new_digester (derived_parser reference variants)

derived_digester-IsFair : IsFair derived_digester
unfolding derived_digester new_digester
derived_digester-IsFair = record {
  urc_parser_fair = derived_parser-Fair reference variants reference-IsNom (tt, (tt, tt));
  custom_success_fair = λ buf a len h. absurd cc;
  custom_error_fair = λ buf a len h. absurd cc;
  custom_prompt_fair = λ buf a len h. absurd cc;
}

abbrev received : Bytes
received = codes "AT+CSQ\r\r\n+CIEV: 7,1\r\n"

digest-Within_example :
    (m : DigestResult × ℕ) × (digest reference false derived_digester received ≡ done m)
    × (m.1 ≤ length received)
    × (m.0 ≢ DigestResult.nothing → 0 < m.1)
digest-Within_example =
    digest-Within reference false derived_digester received reference-IsNom derived_digester-IsFair

parse_known : derived_parse variants (codes "+CIEV: 7,1") ≡ some (codes "+CIEV: 7,1")
unfolding derived_parse
parse_known = refl

parse_unknown : derived_parse variants (codes "+CRING: VOICE") ≡ none
unfolding derived_parse
parse_unknown = refl
