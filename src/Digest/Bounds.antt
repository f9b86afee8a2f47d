-- ===== src/Digest/Bounds.antt =====
-- `AtDigester::digest` of atat/src/digest.rs always returns, and swallows no more than it is given.
use atat.Base.{ℕ, ◌+◌, ◌≤◌, ◌<◌, ◌≡◌, ◌≢◌, refl, Bool, Bytes, length, Result, ok, err, arith}
use atat.Base.Outcome.{done}
use atat.Digest.{
  Recogniser, AtDigester, on_answer, on_parsed, on_streamed, digest, digest_urc, digest_success,
  digest_prompts, digest_errors,
}
use atat.Digest.Echo.{echoed, skipped_bytes, digest_runs, skipped_bytes-length}
use atat.Digest.Parser.{Message}
use atat.Digest.Takes.{success_response-Takes, prompt_response-Takes, error_response-Takes}
use atat.Digest.Trim.{trim_start_ascii_space}
use atat.Digest.Types.{DigestResult, ParseError}
use atat.Extern.Nom.{Nom, IsNom, IsNom-unique, reference}
use atat.Extern.Nom.Spec.{IResult, parsed}

-- A recogniser takes at least one byte, and no more than there are.
abbrev pub Fair : {A : Type 0} → Recogniser A → Type 0
Fair {A} f = (buf : Bytes) (a : A) (len : ℕ) → f buf ≡ ok (a, len) → (0 < len) × (len ≤ length buf)

pub record IsFair (d : AtDigester) : Type 0 where
  pub urc_parser_fair : Fair d.urc_parser
  pub custom_success_fair : Fair d.custom_success
  pub custom_error_fair : Fair d.custom_error
  pub custom_prompt_fair : Fair d.custom_prompt

-- What a digester's message may say of `total` bytes: it takes no more, and something was taken if
-- something was found.
abbrev pub Within : ℕ → Message → Type 0
Within total m = (m.1 ≤ total) × (m.0 ≢ DigestResult.nothing → 0 < m.1)

nothing-Within :
    (skipped total : ℕ) → skipped ≤ total → Within total (DigestResult.nothing, skipped)
nothing-Within skipped total h = (h, λ ne. absurd (ne refl))

module _ {A : Type 0} (found : A → DigestResult) (buf : Bytes) (skipped : ℕ)
    (stop next : Message) where
  on_answer-Within :
      (r : Result (A × ℕ) ParseError) (count : ℕ → ℕ)
      → ((len : ℕ) → (len ≤ count len) × (count len ≤ len + skipped))
      → ((a : A) (len : ℕ) → r ≡ ok (a, len) → (0 < len) × (len ≤ length buf))
      → Within (length buf + skipped) stop
      → Within (length buf + skipped) next
      → Within (length buf + skipped) (on_answer r (λ a len. (found a, count len)) stop next)
  on_answer-Within (ok (a, len)) count near fair hs hn =
      let (pos, fits) = fair a len refl in
      let (low, high) = near len in (omega arith, λ _. omega arith)
  on_answer-Within (err ParseError.incomplete) count near fair hs hn = hs
  on_answer-Within (err ParseError.no_match) count near fair hs hn = hn

module _ (buf : Bytes) (skipped : ℕ) (next : Message) where
  Taken : IResult Message → Type 0
  Taken x = (r : Bytes) (m : Message) → x ≡ parsed r m → (m.1 + length r ≡ length buf) × (1 ≤ m.1)

  on_parsed-Within :
      (x : IResult Message)
      → Taken x
      → Within (length buf + skipped) next
      → Within (length buf + skipped) (on_parsed x (λ m. (m.0, m.1 + skipped)) next)
  unfolding Taken
  on_parsed-Within (parsed r m) t h =
      let (whole, pos) = t r m refl in (omega arith, λ _. omega arith)
  on_parsed-Within IResult.incomplete t h = h
  on_parsed-Within IResult.error t h = h
  on_parsed-Within IResult.failure t h = h

  on_streamed-Within :
      (stop : Message) (x : IResult Message)
      → Taken x
      → Within (length buf + skipped) stop
      → Within (length buf + skipped) next
      → Within (length buf + skipped) (on_streamed x (λ m. (m.0, m.1 + skipped)) stop next)
  unfolding Taken
  on_streamed-Within stop (parsed r m) t hs h =
      let (whole, pos) = t r m refl in (omega arith, λ _. omega arith)
  on_streamed-Within stop IResult.incomplete t hs h = hs
  on_streamed-Within stop IResult.error t hs h = h
  on_streamed-Within stop IResult.failure t hs h = h

module _ (se : Bool) (d : AtDigester) (fair : IsFair d) (buf : Bytes) (skipped : ℕ) where
  with_skipped : (len : ℕ) → (len ≤ len + skipped) × (len + skipped ≤ len + skipped)
  with_skipped len = omega arith

  stopped : Within (length buf + skipped) (DigestResult.nothing, skipped)
  stopped = nothing-Within skipped _ (omega arith)

  digest_errors-Within : Within (length buf + skipped) (digest_errors reference se d buf skipped)
  unfolding digest_errors Taken
  digest_errors-Within =
      on_answer-Within _ buf skipped _ _ (d.custom_error buf) _ with_skipped
        (fair.custom_error_fair buf) stopped
        (on_parsed-Within buf skipped _ _ (error_response-Takes se buf) stopped)

  digest_prompts-Within : Within (length buf + skipped) (digest_prompts reference se d buf skipped)
  unfolding digest_prompts Taken
  digest_prompts-Within =
      on_answer-Within _ buf skipped _ _ (d.custom_prompt buf) _ with_skipped
        (fair.custom_prompt_fair buf) stopped
        (on_parsed-Within buf skipped _ _ (prompt_response-Takes buf) digest_errors-Within)

  digest_success-Within : Within (length buf + skipped) (digest_success reference se d buf skipped)
  unfolding digest_success Taken
  digest_success-Within =
      on_answer-Within _ buf skipped _ _ (d.custom_success buf) _ with_skipped
        (fair.custom_success_fair buf) stopped
        (on_streamed-Within buf skipped _ _ _ (success_response-Takes buf) stopped
          digest_prompts-Within)

  digest_urc-Within : Within (length buf + skipped) (digest_urc reference se d buf skipped)
  unfolding digest_urc
  digest_urc-Within =
      on_answer-Within _ buf skipped _ _ (d.urc_parser buf) _ (λ len. omega arith)
        (fair.urc_parser_fair buf) stopped digest_success-Within

-- With a lawful `nom` and recognisers that take at least one byte and no more than there are, the
-- digester returns for every input, swallows no more bytes than the input has, and swallows at least
-- one where it finds something.
pub digest-Within :
    (n : Nom) (se : Bool) (d : AtDigester) (input : Bytes)
    → IsNom n
    → IsFair d
    → (m : DigestResult × ℕ) × (digest n se d input ≡ done m)
      × (m.1 ≤ length input)
      × (m.0 ≢ DigestResult.nothing → 0 < m.1)
digest-Within n se d input laws fair =
    let x = echoed (trim_start_ascii_space input) in
    let (fits, found) = digest_urc-Within se d fair x.left (skipped_bytes input) in
    rw (IsNom-unique n laws) (
      digest_urc reference se d x.left (skipped_bytes input),
      digest_runs se d input,
      rw (skipped_bytes-length input) at fits,
      found,
    )
