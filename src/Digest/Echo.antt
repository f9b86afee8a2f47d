-- ===== src/Digest/Echo.antt =====
-- Step 1 of `AtDigester::digest` in atat/src/digest.rs: the spaces and the echo in front of an answer.
use atat.Base.{
  ℕ, ◌+◌, ◌-◌, ◌≤◌, ◌≡◌, ◌≢◌, refl, ap, ◌∙◌, Bool, true, false, Option, some, none, [], ◌∷◌, ◌++◌,
  Bytes, length, take, drop, length-append, length-drop, Option-cases, inl, inr, take-append,
  drop-append, Bool-cases, position, if◌then◌else◌, ltb, arith,
}
use mathlib.Core.Option.{get_or}
use atat.Base.Outcome.{done}
use atat.Digest.{AtDigester, digest, digest_urc}
use atat.Digest.Parser.{crlf, echo}
use atat.Digest.Trim.{trim_start_ascii_space, not_space}
use atat.Extern.Nom.{reference, running}
use atat.Extern.Nom.Laws.{split_at-some, Absent, split_at-first}
use atat.Extern.Nom.Takes.{opt-parsed, opt-error}
use atat.Extern.Nom.Spec.{IResult, parsed, split_at}

drop-shorter : (k : ℕ) (x : Bytes) → length (drop k x) ≤ length x
drop-shorter k x = omega (arith, length-drop k x)

pub trim_start-shorter : (x : Bytes) → length (trim_start_ascii_space x) ≤ length x
unfolding trim_start_ascii_space
trim_start-shorter x = elim (Option-cases (position not_space x)) [
  | inl e ↦ rw (e, trim_start_ascii_space) (omega arith)
  | inr (k, e) ↦ rw (e, trim_start_ascii_space) (drop-shorter k x)
]

-- The echo that a split at the first line end shows.
abbrev pub echo_of : Option (Bytes × Bytes) → IResult Bytes
echo_of (some (a, b)) = parsed b a
echo_of none = IResult.error

front-of-append : (a b : Bytes) → take (length (a ++ b) - length b) (a ++ b) ≡ a
front-of-append a b =
    let e : length (a ++ b) - length b ≡ length a = omega (arith, length-append a b) in
    rw e (take-append a b)

pub echo_lem :
    (buf : Bytes)
    → echo reference buf
      ≡ (if ltb (length buf) 2 then parsed buf [] else echo_of (split_at crlf buf))
unfolding echo running
echo_lem buf = elim (Option-cases (split_at crlf buf)) [
  | inl e ↦ rw (e, echo) refl
  | inr ((a, b), e) ↦
      let (whole, pre) = split_at-some crlf buf e in
      rw (e, echo) (rw whole (rw (front-of-append a b) refl))
]

-- What is left behind the echo, and the echo.
pub record Echoed (buf : Bytes) : Type 0 where
  pub left : Bytes
  pub skipped : Option Bytes
  pub runs : reference.opt Bytes (echo reference) buf ≡ parsed left skipped
  pub splits : buf ≡ get_or skipped [] ++ left

echoed_short : (buf : Bytes) → ltb (length buf) 2 ≡ true → Echoed buf
echoed_short buf h = record {
  left = buf;
  skipped = some [];
  runs = opt-parsed (echo reference) buf (echo_lem buf ∙ rw h);
  splits = refl;
}

echoed_line :
    (buf a b : Bytes) → ltb (length buf) 2 ≡ false → split_at crlf buf ≡ some (a, b) → Echoed buf
echoed_line buf a b h e = record {
  left = b;
  skipped = some a;
  runs = opt-parsed (echo reference) buf (echo_lem buf ∙ rw (h, e));
  splits = (split_at-some crlf buf e).0;
}

echoed_none : (buf : Bytes) → ltb (length buf) 2 ≡ false → split_at crlf buf ≡ none → Echoed buf
echoed_none buf h e = record {
  left = buf;
  skipped = none;
  runs = opt-error (echo reference) buf (echo_lem buf ∙ rw (h, e));
  splits = refl;
}

pub echoed : (buf : Bytes) → Echoed buf
echoed buf = elim (Bool-cases (ltb (length buf) 2)) [
  | inl h ↦ echoed_short buf h
  | inr h ↦ elim (Option-cases (split_at crlf buf)) [
    | inl e ↦ echoed_none buf h e
    | inr ((a, b), e) ↦ echoed_line buf a b h e
  ]
]

-- The bytes in front of what the digester looks at: the spaces, and then the echo.
abbrev pub skipped_bytes : Bytes → ℕ
skipped_bytes input =
    let buf = trim_start_ascii_space input in
    length input - length buf + length (get_or (echoed buf).skipped [])

pub digest_runs :
    (se : Bool) (d : AtDigester) (input : Bytes)
    → digest reference se d input
      ≡ done (
          digest_urc reference se d
            (echoed (trim_start_ascii_space input)).left
            (skipped_bytes input))
unfolding digest
digest_runs se d input = rw ((echoed (trim_start_ascii_space input)).runs, digest) refl

pub skipped_bytes-length :
    (input : Bytes)
    → length (echoed (trim_start_ascii_space input)).left + skipped_bytes input ≡ length input
skipped_bytes-length input =
    let x = echoed (trim_start_ascii_space input) in
    omega (
      arith,
      trim_start-shorter input,
      ap length x.splits,
      length-append (get_or x.skipped []) x.left,
    )

-- Spaces alone.
abbrev pub OnlySpaces : Bytes → Type 0
OnlySpaces [] = Unit
OnlySpaces (c ∷ cs) = (c ≡ b' ') × OnlySpaces cs

-- The bytes do not begin with a space.
abbrev pub NoSpaceFirst : Bytes → Type 0
NoSpaceFirst [] = Unit
NoSpaceFirst (c ∷ cs) = c ≢ b' '

position-OnlySpaces :
    (spaces : Bytes) (c : ℕ) (x : Bytes)
    → OnlySpaces spaces
    → c ≢ b' '
    → position not_space (spaces ++ c ∷ x) ≡ some (length spaces)
position-OnlySpaces [] c x h ne = ground arith
position-OnlySpaces (s ∷ spaces) c x (e, h) ne = ground (arith, position-OnlySpaces spaces c x h ne)

pub trim_start-OnlySpaces :
    (spaces : Bytes) (c : ℕ) (x : Bytes)
    → OnlySpaces spaces
    → c ≢ b' '
    → trim_start_ascii_space (spaces ++ c ∷ x) ≡ c ∷ x
unfolding trim_start_ascii_space
trim_start-OnlySpaces spaces c x h ne =
    rw (position-OnlySpaces spaces c x h ne, trim_start_ascii_space) (drop-append spaces (c ∷ x))

trim_start-echo :
    (spaces e tail : Bytes)
    → OnlySpaces spaces
    → NoSpaceFirst e
    → trim_start_ascii_space (spaces ++ (e ++ (crlf ++ tail))) ≡ e ++ (crlf ++ tail)
trim_start-echo spaces [] tail h ne =
    trim_start-OnlySpaces spaces b'\r' (b'\n' ∷ tail) h (omega arith)
trim_start-echo spaces (c ∷ e) tail h ne = trim_start-OnlySpaces spaces c _ h ne

digest_of :
    (se : Bool) (d : AtDigester) (input buf r : Bytes) (o : Option Bytes)
    → trim_start_ascii_space input ≡ buf
    → reference.opt Bytes (echo reference) buf ≡ parsed r o
    → digest reference se d input
      ≡ done (digest_urc reference se d r (length input - length buf + length (get_or o [])))
unfolding digest
digest_of se d input buf r o trimmed runs =
    let runs' : reference.opt Bytes (echo reference) (trim_start_ascii_space input) ≡ parsed r o =
      rw trimmed runs in
    rw (runs', digest) (rw trimmed)

-- Behind any spaces and any echo that holds no line end, the digester looks at what begins with the
-- first line end.
pub digest_behind_echo :
    (se : Bool) (d : AtDigester) (spaces e tail : Bytes)
    → OnlySpaces spaces
    → NoSpaceFirst e
    → Absent crlf e (crlf ++ tail)
    → digest reference se d (spaces ++ (e ++ (crlf ++ tail)))
      ≡ done (digest_urc reference se d (crlf ++ tail) (length spaces + length e))
digest_behind_echo se d spaces e tail hs he ha =
    let buf = e ++ (crlf ++ tail) in
    let long : ltb (length buf) 2 ≡ false = ground (arith, length-append e (crlf ++ tail)) in
    let runs : reference.opt Bytes (echo reference) buf ≡ parsed (crlf ++ tail) (some e) =
      opt-parsed (echo reference) buf (echo_lem buf ∙ rw (long, split_at-first crlf e tail ha)) in
    let count : length (spaces ++ buf) - length buf + length e ≡ length spaces + length e =
      omega (arith, length-append spaces buf) in
    digest_of se d _ buf _ _ (trim_start-echo spaces e tail hs he) runs
    ∙ ap (λ k. done (digest_urc reference se d (crlf ++ tail) k)) count
