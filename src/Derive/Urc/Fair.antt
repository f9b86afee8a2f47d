-- ===== src/Derive/Urc/Fair.antt =====
-- The parser that atat_derive/src/urc.rs writes keeps the digester within its input.
use atat.Base.{
  ℕ, ◌+◌, ◌≤◌, ◌<◌, ◌≡◌, refl, Option, some, none, List, [], ◌∷◌, Bytes, length, ok, arith,
}
use mathlib.Core.List.{map}
use atat.Digest.Bounds.{Fair}
use atat.Digest.Parser.{urc_helper, urc_tag, to_result}
use atat.Digest.Takes.{take_until_including-Takes, both}
use atat.Extern.Nom.{Nom, IsNom, IsNom-unique, reference}
use atat.Extern.Nom.Spec.{IResult, Parser, parsed}
use atat.Extern.Nom.Takes.{
  Takes, AllTake, alt-Takes, and_then-Takes, pair-Takes, recognize-Takes, tag-Takes_any,
  success-Takes, line_ending-Takes_some, Takes-weaken,
}
use atat.Derive.Urc.{Variant, digest_arm, derived_parser}

abbrev taken : Bytes × ℕ → ℕ
taken m = m.1

urc_tag-Takes : (token : Bytes) → Takes 0 (urc_tag reference token) length
unfolding urc_tag
urc_tag-Takes token =
    recognize-Takes 0 _
      (λ (o : Bytes × (Bytes × (Bytes × Bytes))). length o.0 + (length o.1.0 + both o.1.1))
      (alt-Takes 0 _ _ (
        pair-Takes 0 _ _ _ _ (tag-Takes_any token) (
            pair-Takes 0 _ _ _ _ (tag-Takes_any _)
              (Takes-weaken 1 _ _ (take_until_including-Takes _ _))),
        (
          pair-Takes 0 _ _ _ _ (tag-Takes_any token)
              (pair-Takes 0 _ _ _ _ (tag-Takes_any _) (success-Takes _ _ refl)),
          tt,
        ),
      ))

urc_helper-Takes : (token : Bytes) → Takes 1 (urc_helper reference token) taken
unfolding urc_helper
urc_helper-Takes token =
    and_then-Takes 1 _ both taken _
      (pair-Takes 1 _ _ _ _ line_ending-Takes_some (urc_tag-Takes token)) (λ o. refl)

-- A function given by the attribute `parse` takes at least one byte, and what it takes.
abbrev FairArm : Option (Bytes → Parser (Bytes × ℕ)) → Bytes → Type 0
FairArm none code = Unit
FairArm (some f) code = Takes 1 (f code) taken

arm-Takes :
    (o : Option (Bytes → Parser (Bytes × ℕ))) (code : Bytes)
    → FairArm o code
    → Takes 1
        (elim o as (λ _. Parser (Bytes × ℕ)) [ some f ↦ f code | none ↦ urc_helper reference code ])
        taken
arm-Takes none code h = urc_helper-Takes code
arm-Takes (some f) code h = h

result-Fair :
    (x : IResult (Bytes × ℕ)) (buf a : Bytes) (len : ℕ)
    → ((r : Bytes) (o : Bytes × ℕ)
        → x ≡ parsed r o
        → (taken o + length r ≡ length buf) × (1 ≤ taken o))
    → to_result x ≡ ok (a, len)
    → (0 < len) × (len ≤ length buf)
unfolding to_result
result-Fair (parsed r o) buf a len h e = ground (arith, h r o refl)
result-Fair IResult.incomplete buf a len h e = absurd cc
result-Fair IResult.error buf a len h e = absurd cc
result-Fair IResult.failure buf a len h e = absurd cc

to_result-Takes : (p : Parser (Bytes × ℕ)) → Takes 1 p taken → Fair (λ buf. to_result (p buf))
to_result-Takes p h buf a len e = result-Fair (p buf) buf a len (h buf) e

module _ {U : Type 0} where
  abbrev pub FairArms : List (Variant U) → Type 0
  FairArms [] = Unit
  FairArms (v ∷ vs) = FairArm v.parse_fn v.code × FairArms vs

  arms-Take :
      (vs : List (Variant U)) → FairArms vs → AllTake 1 (map (digest_arm reference) vs) taken
  arms-Take [] h = tt
  arms-Take (v ∷ vs) (h, hs) = (arm-Takes v.parse_fn v.code h, arms-Take vs hs)

  -- With a lawful `nom`, the URC parser that is derived from an enum takes at least one byte where
  -- it finds a URC, and no more than there are, if the functions given by `parse` do so.
  pub derived_parser-Fair :
      (n : Nom) (vs : List (Variant U)) → IsNom n → FairArms vs → Fair (derived_parser n vs)
  unfolding derived_parser
  derived_parser-Fair n vs laws h =
      rw (IsNom-unique n laws) (to_result-Takes _ (alt-Takes 1 _ taken (arms-Take vs h)))
