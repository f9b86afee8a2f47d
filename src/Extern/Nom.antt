-- ===== src/Extern/Nom.antt =====
-- The part of the crate nom (version 7, on byte slices) that is used.
pub mod Spec
pub mod Laws
pub mod Takes
pub mod Steps
use mathlib.Core.Path.{fun_ext}
use atat.Base.{
  ℕ, ◌+◌, ◌≡◌, refl, Bool, true, false, Option, none, some, List, [], ◌∷◌, Bytes, codes,
}
use atat.Extern.Nom.Spec
use atat.Extern.Nom.Spec.{IResult, Parser}

-- The bytes parsers. A name that exists in nom's modules `complete` and `streaming` is used from one
-- of them only, which its comment names.
pub record Nom : Type 1 where
  -- `bytes::complete::take_until`
  pub take_until : Bytes → Parser Bytes
  -- `bytes::streaming::tag`
  pub tag : Bytes → Parser Bytes
  -- `bytes::streaming::tag_no_case`
  pub tag_no_case : Bytes → Parser Bytes
  -- `character::complete::{line_ending, multispace0, digit1}` and `combinator::eof`
  pub line_ending : Parser Bytes
  pub multispace0 : Parser Bytes
  pub digit1 : Parser Bytes
  pub eof : Parser Bytes
  -- `branch::alt` over a tuple of parsers, `sequence::tuple` over two
  pub alt : (O : Type 0) → List (Parser O) → Parser O
  pub pair : (O P : Type 0) → Parser O → Parser P → Parser (O × P)
  -- `combinator::{map, map_res, recognize, opt, not, success}`
  pub map : (O P : Type 0) → Parser O → (O → P) → Parser P
  pub map_res : (O P : Type 0) → Parser O → (O → Option P) → Parser P
  pub recognize : (O : Type 0) → Parser O → Parser Bytes
  pub opt : (O : Type 0) → Parser O → Parser (Option O)
  pub not : (O : Type 0) → Parser O → Parser (Unit {0})
  pub success : (O : Type 0) → O → Parser O

-- What nom documents of each of them.
pub record IsNom (n : Nom) : Type 1 where
  pub take_until_lem : (t i : Bytes) → n.take_until t i ≡ Spec.take_until t i
  pub tag_lem : (t i : Bytes) → n.tag t i ≡ Spec.tag t i
  pub tag_no_case_lem : (t i : Bytes) → n.tag_no_case t i ≡ Spec.tag_no_case t i
  pub line_ending_lem : (i : Bytes) → n.line_ending i ≡ Spec.line_ending i
  pub multispace0_lem : (i : Bytes) → n.multispace0 i ≡ Spec.multispace0 i
  pub digit1_lem : (i : Bytes) → n.digit1 i ≡ Spec.digit1 i
  pub eof_lem : (i : Bytes) → n.eof i ≡ Spec.eof i
  pub alt_lem : (O : Type 0) (ps : List (Parser O)) (i : Bytes) → n.alt O ps i ≡ Spec.alt ps i
  pub pair_lem :
      (O P : Type 0) (p : Parser O) (q : Parser P) (i : Bytes) → n.pair O P p q i ≡ Spec.pair p q i
  pub map_lem :
      (O P : Type 0) (p : Parser O) (f : O → P) (i : Bytes) → n.map O P p f i ≡ Spec.map p f i
  pub map_res_lem :
      (O P : Type 0) (p : Parser O) (f : O → Option P) (i : Bytes)
      → n.map_res O P p f i ≡ Spec.map_res p f i
  pub recognize_lem :
      (O : Type 0) (p : Parser O) (i : Bytes) → n.recognize O p i ≡ Spec.recognize p i
  pub opt_lem : (O : Type 0) (p : Parser O) (i : Bytes) → n.opt O p i ≡ Spec.opt p i
  pub not_lem : (O : Type 0) (p : Parser O) (i : Bytes) → n.not O p i ≡ Spec.not p i
  pub success_lem : (O : Type 0) (o : O) (i : Bytes) → n.success O o i ≡ Spec.success o i

-- A nom that does just what is documented.
abbrev pub reference : Nom
reference = record {
  take_until = Spec.take_until;
  tag = Spec.tag;
  tag_no_case = Spec.tag_no_case;
  line_ending = Spec.line_ending;
  multispace0 = Spec.multispace0;
  digit1 = Spec.digit1;
  eof = Spec.eof;
  alt = λ O. Spec.alt;
  pair = λ O P. Spec.pair;
  map = λ O P. Spec.map;
  map_res = λ O P. Spec.map_res;
  recognize = λ O. Spec.recognize;
  opt = λ O. Spec.opt;
  not = λ O. Spec.not;
  success = λ O. Spec.success;
}

-- The same nom: to unfold this name is to unfold the parsers.
unfoldable pub running : Nom
unfolding Spec.take_until Spec.tag Spec.tag_no_case Spec.line_ending Spec.multispace0 Spec.digit1
    Spec.eof Spec.alt Spec.pair Spec.map Spec.map_res Spec.recognize Spec.opt Spec.not Spec.success
running = reference

pub reference-IsNom : IsNom reference
reference-IsNom = record {
  take_until_lem = λ t i. refl;
  tag_lem = λ t i. refl;
  tag_no_case_lem = λ t i. refl;
  line_ending_lem = λ i. refl;
  multispace0_lem = λ i. refl;
  digit1_lem = λ i. refl;
  eof_lem = λ i. refl;
  alt_lem = λ O ps i. refl;
  pair_lem = λ O P p q i. refl;
  map_lem = λ O P p f i. refl;
  map_res_lem = λ O P p f i. refl;
  recognize_lem = λ O p i. refl;
  opt_lem = λ O p i. refl;
  not_lem = λ O p i. refl;
  success_lem = λ O o i. refl;
}

-- What is documented leaves no choice, so a fact about the code may be proved at `reference`.
pub IsNom-unique : (n : Nom) → IsNom n → n ≡ reference
IsNom-unique n h = λ j. record {
  take_until = λ t i. h.take_until_lem t i j;
  tag = λ t i. h.tag_lem t i j;
  tag_no_case = λ t i. h.tag_no_case_lem t i j;
  line_ending = λ i. h.line_ending_lem i j;
  multispace0 = λ i. h.multispace0_lem i j;
  digit1 = λ i. h.digit1_lem i j;
  eof = λ i. h.eof_lem i j;
  alt = λ O ps i. h.alt_lem O ps i j;
  pair = λ O P p q i. h.pair_lem O P p q i j;
  map = λ O P p f i. h.map_lem O P p f i j;
  map_res = λ O P p f i. h.map_res_lem O P p f i j;
  recognize = λ O p i. h.recognize_lem O p i j;
  opt = λ O p i. h.opt_lem O p i j;
  not = λ O p i. h.not_lem O p i j;
  success = λ O o i. h.success_lem O o i j;
}
