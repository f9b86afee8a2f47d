-- ===== src/Derive/Urc.antt =====
-- What atat_derive/src/urc.rs writes for an enum of URCs: `AtatUrc::parse` and `Parser::parse`.
pub mod Fair
mod Tests
use atat.Base.{
  ℕ, if◌then◌else◌, Bool, true, false, Option, some, none, List, [], ◌∷◌, Bytes, length, take,
  position, ◌==◌, equal_bytes, Result,
}
use mathlib.Core.List.{map}
use mathlib.Core.Option.{get_or}
use atat.Digest.{Recogniser}
use atat.Digest.Parser.{urc_helper, to_result}
use atat.Extern.Nom.{Nom}
use atat.Extern.Nom.Spec.{Parser}

-- One variant of the enum `U` with its attribute `#[at_urc(code, parse = …)]`. The field of the variant
-- is read by `serde_at::from_slice`, which `read` stands for; a unit variant reads nothing.
pub record Variant (U : Type 0) : Type 0 where
  pub code : Bytes
  pub read : Bytes → Option U
  pub parse_fn : Option (Bytes → Parser (Bytes × ℕ))

module _ {U : Type 0} where
  -- The arms of the `match`, in the order of the variants.
  unfoldable pub match_arms : List (Variant U) → Bytes → Bytes → Option U
  match_arms [] key resp = none
  match_arms (v ∷ vs) key resp =
      let rest = match_arms vs key resp in if equal_bytes v.code key then v.read resp else rest

  -- `AtatUrc::parse`
  unfoldable pub derived_parse : List (Variant U) → Bytes → Option U
  unfolding match_arms
  derived_parse vs resp =
      match_arms vs (take (get_or (position (λ x. x == b':') resp) (length resp)) resp) resp

  abbrev pub digest_arm : Nom → Variant U → Parser (Bytes × ℕ)
  digest_arm n v = elim v.parse_fn [ some f ↦ f v.code | none ↦ urc_helper n v.code ]

  -- `Parser::parse`
  unfoldable pub derived_parser : Nom → List (Variant U) → Recogniser Bytes
  unfolding to_result
  derived_parser n vs buf = to_result (n.alt _ (map (digest_arm n) vs) buf)
