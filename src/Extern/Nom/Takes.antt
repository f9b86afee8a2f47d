-- ===== src/Extern/Nom/Takes.antt =====
-- How many bytes a parser takes, as a measure of what it returns, for each documented parser.
use atat.Base.{
  ℕ, ◌+◌, ◌-◌, ◌≤◌, ◌≡◌, refl, sym, ap, ◌∙◌, Bool, Option, some, none, List, [], ◌∷◌, ◌++◌, Bytes,
  length, length-append, length-take, length-drop, arith,
}
use atat.Extern.Nom.Laws.{span-append}
use atat.Extern.Nom.Spec
use atat.Extern.Nom.Spec.{IResult, Parser, parsed, and_then, is_digit, is_multispace, span}

-- On success `p` takes `f o` bytes off its input, where `o` is what it returns, and at least `k`.
abbrev pub Takes : {O : Type 0} → ℕ → Parser O → (O → ℕ) → Type 0
Takes {O} k p f = (i r : Bytes) (o : O) → p i ≡ parsed r o → (f o + length r ≡ length i) × (k ≤ f o)

-- Inversion of a successful sequence.
pub and_then-parsed :
    {O P : Type 0} (m : IResult O) (f : Bytes → O → IResult P) {r : Bytes} {b : P}
    → and_then m f ≡ parsed r b
    → (s : Bytes) × (a : O) × (m ≡ parsed s a) × (f s a ≡ parsed r b)
and_then-parsed (parsed s a) f e = (s, a, refl, e)
and_then-parsed IResult.incomplete f e = cc
and_then-parsed IResult.error f e = cc
and_then-parsed IResult.failure f e = cc

module _ {O P : Type 0} where
  pub pair-Takes :
      (k : ℕ) (p : Parser O) (q : Parser P) (f : O → ℕ) (g : P → ℕ)
      → Takes k p f
      → Takes 0 q g
      → Takes k (Spec.pair p q) (λ o. f o.0 + g o.1)
  unfolding Spec.pair
  pair-Takes k p q f g tp tq i r o e =
      let (s, a, h, e') = and_then-parsed (p i) _ e in
      let (u, b, h', e'') = and_then-parsed (q s) _ e' in ground (arith, tp i s a h, tq s u b h')

  -- A parser that turns what `p` returns into something that is measured alike.
  pub and_then-Takes :
      (k : ℕ) (p : Parser O) (f : O → ℕ) (g : P → ℕ) (h : O → P)
      → Takes k p f
      → ((o : O) → g (h o) ≡ f o)
      → Takes k (λ i. and_then (p i) (λ r o. parsed r (h o))) g
  and_then-Takes k p f g h tp same i r b e =
      let (s, a, e', e'') = and_then-parsed (p i) _ e in ground (arith, tp i s a e', same a)

  pub map-Takes :
      (k : ℕ) (p : Parser O) (f : O → ℕ) (g : P → ℕ) (h : O → P)
      → Takes k p f
      → ((o : O) → g (h o) ≡ f o)
      → Takes k (Spec.map p h) g
  unfolding Spec.map
  map-Takes k p f g h tp same = and_then-Takes k p f g h tp same

  pub map_res-Takes :
      (k : ℕ) (p : Parser O) (f : O → ℕ) (g : P → ℕ) (h : O → Option P)
      → Takes k p f
      → ((o : O) (b : P) → h o ≡ some b → g b ≡ f o)
      → Takes k (Spec.map_res p h) g
  unfolding Spec.map_res
  map_res-Takes k p f g h tp same i r b e =
      let (s, a, e', e'') = and_then-parsed (p i) _ e in ground (arith, tp i s a e', same a b)

module _ {O : Type 0} where
  abbrev pub AllTake : ℕ → List (Parser O) → (O → ℕ) → Type 0
  AllTake k [] f = Unit
  AllTake k (p ∷ ps) f = Takes k p f × AllTake k ps f

  pub AllTake-append :
      (k : ℕ) (ps qs : List (Parser O)) (f : O → ℕ)
      → AllTake k ps f
      → AllTake k qs f
      → AllTake k (ps ++ qs) f
  AllTake-append k [] qs f h h' = h'
  AllTake-append k (p ∷ ps) qs f (t, h) h' = (t, AllTake-append k ps qs f h h')

  pub alt-Takes :
      (k : ℕ) (ps : List (Parser O)) (f : O → ℕ) → AllTake k ps f → Takes k (Spec.alt ps) f
  unfolding Spec.alt
  alt-Takes k [] f h i r o e = cc
  alt-Takes k (p ∷ ps) f (t, h) i r o e = ground (arith, t i r o, alt-Takes k ps f h i r o)

  pub recognize-Takes :
      (k : ℕ) (p : Parser O) (f : O → ℕ) → Takes k p f → Takes k (Spec.recognize p) length
  unfolding Spec.recognize
  recognize-Takes k p f tp i r o e =
      let (s, a, e', e'') = and_then-parsed (p i) _ e in
      ground (arith, tp i s a e', length-take (length i - length s) i)

  pub opt-parsed :
      (p : Parser O) (i : Bytes) {r : Bytes} {o : O}
      → p i ≡ parsed r o
      → Spec.opt p i ≡ parsed r (some o)
  unfolding Spec.opt
  opt-parsed p i e = rw (e, Spec.opt) refl

  pub opt-error : (p : Parser O) (i : Bytes) → p i ≡ IResult.error → Spec.opt p i ≡ parsed i none
  unfolding Spec.opt
  opt-error p i e = rw (e, Spec.opt) refl

  pub not-Takes : (p : Parser O) → Takes 0 (Spec.not p) (λ _. 0)
  unfolding Spec.not
  not-Takes p i r o e = ground arith

  pub Takes-weaken : (k : ℕ) (p : Parser O) (f : O → ℕ) → Takes k p f → Takes 0 p f
  Takes-weaken k p f t i r o e = (ground (arith, t i r o e), omega arith)

  pub success-Takes : (o : O) (f : O → ℕ) → f o ≡ 0 → Takes 0 (Spec.success o) f
  unfolding Spec.success
  success-Takes o f z i r o' e = ground arith

pub tag-Takes : (c : ℕ) (t : Bytes) → Takes 1 (Spec.tag (c ∷ t)) length
unfolding Spec.tag
tag-Takes c t i r o e =
    ground (arith, length-take (length (c ∷ t)) i, length-drop (length (c ∷ t)) i)

pub line_ending-Takes : Takes 0 Spec.line_ending length
unfolding Spec.line_ending
line_ending-Takes [] r o e = cc
line_ending-Takes (c ∷ []) r o e = ground arith
line_ending-Takes (c ∷ d ∷ i) r o e = ground arith

span-length : (p : ℕ → Bool) (i : Bytes) → length (span p i).0 + length (span p i).1 ≡ length i
span-length p i = sym (length-append (span p i).0 (span p i).1) ∙ sym (ap length (span-append p i))

pub multispace0-Takes : Takes 0 Spec.multispace0 length
unfolding Spec.multispace0
multispace0-Takes i r o e = ground (arith, span-length is_multispace i)

pub digit1-Takes : Takes 0 Spec.digit1 length
unfolding Spec.digit1
digit1-Takes i r o e = ground (arith, span-length is_digit i)

-- At its place the end of the input takes nothing.
pub eof-Takes : Takes 0 Spec.eof (λ _. 0)
unfolding Spec.eof
eof-Takes [] r o e = ground arith
eof-Takes (c ∷ cs) r o e = cc

pub line_ending-Takes_some : Takes 1 Spec.line_ending length
unfolding Spec.line_ending
line_ending-Takes_some [] r o e = cc
line_ending-Takes_some (c ∷ []) r o e = ground arith
line_ending-Takes_some (c ∷ d ∷ i) r o e = ground arith

pub tag-Takes_any : (t : Bytes) → Takes 0 (Spec.tag t) length
unfolding Spec.tag
tag-Takes_any t i r o e = ground (arith, length-take (length t) i, length-drop (length t) i)
