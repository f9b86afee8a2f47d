-- ===== src/Extern/Nom/Steps.antt =====
-- One step of each documented combinator, for runs on inputs that are known in part.
use atat.Base.{◌≡◌, refl, List, ◌∷◌, Bytes}
use atat.Extern.Nom.Spec
use atat.Extern.Nom.Spec.{IResult, Parser, parsed, and_then}

pub and_then-eq :
    {O P : Type 0} {m : IResult O} {r : Bytes} {a : O} (f : Bytes → O → IResult P)
    → m ≡ parsed r a
    → and_then m f ≡ f r a
and_then-eq f e = rw e

module _ {O : Type 0} (p : Parser O) (ps : List (Parser O)) (i : Bytes) where
  pub alt-first : {r : Bytes} {o : O} → p i ≡ parsed r o → Spec.alt (p ∷ ps) i ≡ parsed r o
  unfolding Spec.alt
  alt-first e = rw (e, Spec.alt) refl

  pub alt-next : p i ≡ IResult.error → Spec.alt (p ∷ ps) i ≡ Spec.alt ps i
  unfolding Spec.alt
  alt-next e = rw (e, Spec.alt) refl

module _ {O P : Type 0} (p : Parser O) (q : Parser P) (i : Bytes) where
  pub pair-parsed :
      {s r : Bytes} {a : O} {b : P}
      → p i ≡ parsed s a
      → q s ≡ parsed r b
      → Spec.pair p q i ≡ parsed r (a, b)
  unfolding Spec.pair
  pair-parsed e e' = rw (e, e', Spec.pair) refl

  pub pair-error : p i ≡ IResult.error → Spec.pair p q i ≡ IResult.error
  unfolding Spec.pair
  pair-error e = rw (e, Spec.pair) refl

  pub pair-error_second :
      {s : Bytes} {a : O} → p i ≡ parsed s a → q s ≡ IResult.error → Spec.pair p q i ≡ IResult.error
  unfolding Spec.pair
  pair-error_second e e' = rw (e, e', Spec.pair) refl

module _ {O P : Type 0} (p : Parser O) (f : O → P) (i : Bytes) where
  pub map-parsed : {r : Bytes} {o : O} → p i ≡ parsed r o → Spec.map p f i ≡ parsed r (f o)
  unfolding Spec.map
  map-parsed e = rw (e, Spec.map) refl

  pub map-error : p i ≡ IResult.error → Spec.map p f i ≡ IResult.error
  unfolding Spec.map
  map-error e = rw (e, Spec.map) refl
