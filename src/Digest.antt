-- ===== src/Digest.antt =====
-- atat/src/digest.rs: the traits `Digester` and `Parser`, and `AtDigester`.
pub mod Types
pub mod Trim
pub mod Parser
pub mod Takes
pub mod Echo
pub mod Bounds
pub mod Answers
pub mod Urcs
mod Tests
use atat.Base.{ℕ, ◌+◌, ◌-◌, Bool, Option, some, none, [], Bytes, length, Result, ok, err}
use mathlib.Core.Option.{get_or}
use atat.Base.Outcome.{Outcome, done, panic}
use atat.Digest.Types.{DigestResult, ParseError}
use atat.Digest.Trim.{trim_start_ascii_space}
use atat.Digest.Parser.{Message, echo, success_response, prompt_response, error_response}
use atat.Error.{InternalError}
use atat.Extern.Nom.{Nom}
use atat.Extern.Nom.Spec.{IResult, parsed}

-- A recogniser that a user of the crate supplies: what it found, and the bytes that it took.
abbrev pub Recogniser : Type 0 → Type 0
Recogniser A = Bytes → Result (A × ℕ) ParseError

-- `AtDigester<P>`, with the function `parse` of its parameter `P: Parser`.
pub record AtDigester : Type 0 where
  pub urc_parser : Recogniser Bytes
  pub custom_success : Recogniser Bytes
  pub custom_error : Recogniser Bytes
  pub custom_prompt : Recogniser ℕ

abbrev pub never : {A : Type 0} → Recogniser A
never _ = err ParseError.no_match

unfoldable pub new_digester : Recogniser Bytes → AtDigester
new_digester parse = record {
  urc_parser = parse;
  custom_success = never;
  custom_error = never;
  custom_prompt = never;
}

unfoldable pub with_custom_success : AtDigester → Recogniser Bytes → AtDigester
with_custom_success d f = record d { custom_success = f }

unfoldable pub with_custom_error : AtDigester → Recogniser Bytes → AtDigester
with_custom_error d f = record d { custom_error = f }

unfoldable pub with_custom_prompt : AtDigester → Recogniser ℕ → AtDigester
with_custom_prompt d f = record d { custom_prompt = f }

-- One `match` of `digest` on a recogniser's answer: return what it found, return on
-- `Incomplete`, or go on.
abbrev pub on_answer :
    {A : Type 0} → Result (A × ℕ) ParseError → (A → ℕ → Message) → Message → Message → Message
on_answer (ok (a, len)) found stop next = found a len
on_answer (err ParseError.incomplete) found stop next = stop
on_answer (err ParseError.no_match) found stop next = next

-- `if let Ok((_, (result, len))) = …`
abbrev pub on_parsed : IResult Message → (Message → Message) → Message → Message
on_parsed (parsed r m) found next = found m
on_parsed IResult.incomplete found next = next
on_parsed IResult.error found next = next
on_parsed IResult.failure found next = next

-- The `match` on `success_response`, which stops on `Incomplete`.
abbrev pub on_streamed : IResult Message → (Message → Message) → Message → Message → Message
on_streamed (parsed r m) found stop next = found m
on_streamed IResult.incomplete found stop next = stop
on_streamed IResult.error found stop next = next
on_streamed IResult.failure found stop next = next

module _ (n : Nom) (string_errors : Bool) where
  -- Step 4, on the buffer behind `skipped` bytes of space and echo.
  unfoldable pub digest_errors : AtDigester → Bytes → ℕ → Message
  digest_errors d buf skipped =
      on_answer (d.custom_error buf)
        (λ e len. (DigestResult.response (err (InternalError.custom e)), len + skipped))
        (DigestResult.nothing, skipped)
        (on_parsed (error_response n string_errors buf) (λ m. (m.0, m.1 + skipped))
          (DigestResult.nothing, skipped))

  -- The prompts.
  unfoldable pub digest_prompts : AtDigester → Bytes → ℕ → Message
  digest_prompts d buf skipped =
      on_answer (d.custom_prompt buf) (λ c len. (DigestResult.prompt c, len + skipped))
        (DigestResult.nothing, skipped)
        (on_parsed (prompt_response n buf) (λ m. (m.0, m.1 + skipped))
          (digest_errors d buf skipped))

  -- Step 3.
  unfoldable pub digest_success : AtDigester → Bytes → ℕ → Message
  digest_success d buf skipped =
      on_answer (d.custom_success buf) (λ r len. (DigestResult.response (ok r), len + skipped))
        (DigestResult.nothing, skipped)
        (on_streamed (success_response n buf) (λ m. (m.0, m.1 + skipped))
          (DigestResult.nothing, skipped) (digest_prompts d buf skipped))

  -- Step 2. The length of a URC is returned without the bytes skipped in front of it.
  unfoldable pub digest_urc : AtDigester → Bytes → ℕ → Message
  digest_urc d buf skipped =
      on_answer (d.urc_parser buf) (λ u len. (DigestResult.urc u, len))
        (DigestResult.nothing, skipped) (digest_success d buf skipped)

  -- `AtDigester::digest`
  unfoldable pub digest : AtDigester → Bytes → Outcome Message
  digest d input =
      let buf = trim_start_ascii_space input in
      let space_bytes = length input - length buf in
      elim (n.opt Bytes (echo n) buf) [
        | parsed r e ↦ done (digest_urc d r (space_bytes + length (get_or e [])))
        | IResult.incomplete ↦ done (DigestResult.nothing, 0)
        | _ ↦ panic
      ]
