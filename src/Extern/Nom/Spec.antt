-- ===== src/Extern/Nom/Spec.antt =====
-- The documented results of nom's parsers, as functions on the input.
use mathlib.Core.Option
use atat.Base.{
  ℕ, ◌+◌, ◌-◌, Bool, true, false, ◌&&◌, ◌||◌, Option, none, some, List, [], ◌∷◌, ◌==◌, leb, length,
  take, drop, if◌then◌else◌, Bytes,
}

-- `IResult<&[u8], O>`: the rest of the input and the output, or nom's three kinds of `Err`.
pub data IResult (O : Type 0) : Type 0 where
  parsed : Bytes → O → IResult O
  incomplete : IResult O
  error : IResult O
  failure : IResult O

abbrev pub Parser : Type 0 → Type 0
Parser O = Bytes → IResult O

abbrev pub and_then : {O P : Type 0} → IResult O → (Bytes → O → IResult P) → IResult P
and_then (parsed r o) f = f r o
and_then incomplete f = incomplete
and_then error f = error
and_then failure f = failure

-- Whether `t` is a prefix, and if not, whether more input could make it one.
pub data Comparison : Type 0 where
  match short differ : Comparison

unfoldable pub compare_by : (ℕ → ℕ) → Bytes → Bytes → Comparison
compare_by f [] i = match
compare_by f (t ∷ ts) [] = short
compare_by f (t ∷ ts) (c ∷ cs) = if f t == f c then compare_by f ts cs else differ

abbrev same : ℕ → ℕ
same c = c

-- ASCII letters in lower case, as `tag_no_case` compares them.
abbrev pub lower : ℕ → ℕ
lower c = if leb b'A' c && leb c b'Z' then c + 32 else c

abbrev streaming : Comparison → Bytes → Bytes → IResult Bytes
streaming match t i = parsed (drop (length t) i) (take (length t) i)
streaming short t i = incomplete
streaming differ t i = error

-- The tag, if the input begins with it; `incomplete` where the input ends inside it.
unfoldable pub tag : Bytes → Parser Bytes
unfolding compare_by
tag t i = streaming (compare_by same t i) t i

unfoldable pub tag_no_case : Bytes → Parser Bytes
unfolding compare_by
tag_no_case t i = streaming (compare_by lower t i) t i

unfoldable pub is_prefix : Bytes → Bytes → Bool
is_prefix [] i = true
is_prefix (t ∷ ts) [] = false
is_prefix (t ∷ ts) (c ∷ cs) = if t == c then is_prefix ts cs else false

-- The input split in front of the first place where `t` stands.
unfoldable pub split_at : Bytes → Bytes → Option (Bytes × Bytes)
unfolding is_prefix
split_at t [] = if is_prefix t [] then some ([], []) else none
split_at t (c ∷ cs) =
    let rest = Option.map (λ (p : Bytes × Bytes). (c ∷ p.0, p.1)) (split_at t cs) in
    if is_prefix t (c ∷ cs) then some ([], c ∷ cs) else rest

abbrev until : Option (Bytes × Bytes) → IResult Bytes
until (some (before, rest)) = parsed rest before
until none = error

-- All that stands in front of the tag; an error without the tag.
unfoldable pub take_until : Bytes → Parser Bytes
unfolding split_at
take_until t i = until (split_at t i)

-- "\n" or "\r\n"
unfoldable pub line_ending : Parser Bytes
line_ending [] = error
line_ending (c ∷ []) = if c == b'\n' then parsed [] (c ∷ []) else error
line_ending (c ∷ d ∷ r) =
    if c == b'\n'
    then parsed (d ∷ r) (c ∷ [])
    else if c == b'\r' && d == b'\n'
    then parsed r (c ∷ d ∷ [])
    else error

-- The longest prefix whose bytes pass, and the rest.
unfoldable pub span : (ℕ → Bool) → Bytes → Bytes × Bytes
span p [] = ([], [])
span p (c ∷ cs) = let (a, b) = span p cs in if p c then (c ∷ a, b) else ([], c ∷ cs)

abbrev pub is_multispace : ℕ → Bool
is_multispace c = c == b' ' || c == b'\t' || c == b'\r' || c == b'\n'

abbrev pub is_digit : ℕ → Bool
is_digit c = leb b'0' c && leb c b'9'

unfoldable pub multispace0 : Parser Bytes
unfolding span
multispace0 i = let (a, b) = span is_multispace i in parsed b a

abbrev non_empty : Bytes × Bytes → IResult Bytes
non_empty ([], b) = error
non_empty (c ∷ a, b) = parsed b (c ∷ a)

unfoldable pub digit1 : Parser Bytes
unfolding span
digit1 i = non_empty (span is_digit i)

unfoldable pub eof : Parser Bytes
eof [] = parsed [] []
eof (c ∷ cs) = error

module _ {O : Type 0} where
  -- The first parser that does not end in `error`.
  unfoldable pub alt : List (Parser O) → Parser O
  alt [] i = error
  alt (p ∷ ps) i =
      let rest = alt ps i in
      elim (p i) [
        | parsed r o ↦ parsed r o
        | incomplete ↦ incomplete
        | error ↦ rest
        | failure ↦ failure
      ]

  -- The input that the parser consumes.
  unfoldable pub recognize : Parser O → Parser Bytes
  recognize p i = and_then (p i) (λ r o. parsed r (take (length i - length r) i))

  -- `none`, and nothing consumed, in place of `error`.
  unfoldable pub opt : Parser O → Parser (Option O)
  opt p i = elim (p i) [
    | parsed r o ↦ parsed r (some o)
    | incomplete ↦ incomplete
    | error ↦ parsed i none
    | failure ↦ failure
  ]

  unfoldable pub not : Parser O → Parser (Unit {0})
  not p i = elim (p i) [
    | parsed r o ↦ error
    | incomplete ↦ incomplete
    | error ↦ parsed i tt
    | failure ↦ failure
  ]

  unfoldable pub success : O → Parser O
  success o i = parsed i o

module _ {O P : Type 0} where
  unfoldable pub pair : Parser O → Parser P → Parser (O × P)
  pair p q i = and_then (p i) (λ r a. and_then (q r) (λ s b. parsed s (a, b)))

  unfoldable pub map : Parser O → (O → P) → Parser P
  map p f i = and_then (p i) (λ r a. parsed r (f a))

  unfoldable pub map_res : Parser O → (O → Option P) → Parser P
  map_res p f i = and_then (p i) (λ r a. elim (f a) [ some b ↦ parsed r b | none ↦ error ])
