-- ===== src/Digest/Takes.antt =====
-- What the parsers of atat/src/digest.rs consume: the length that each of them returns with a message.
use atat.Base.{
  ℕ, ◌+◌, ◌≤◌, ◌≡◌, refl, ap, ◌∙◌, Bool, true, false, Option, some, none, [], ◌∷◌, ◌++◌, Bytes,
  length, take, drop, length-append, drop-append, take-append, Option-cases, inl, inr, arith,
}
use atat.Digest.Parser.{
  Message, take_until_including, success_response, prompt_of, prompt_response, numeric_error,
  string_error, generic_error, connection_of, connection_error, error_response, string_arms,
  u16_from_digits,
}
use atat.Error.Connection.{ConnectionError}
use atat.Extern.Nom.{reference, running}
use atat.Extern.Nom.Laws.{
  compare_by-is_prefix, is_prefix-eq, split_at-some, Absent, split_at-first, Missing,
  split_at-Missing,
}
use atat.Extern.Nom.Takes.{
  Takes, pair-Takes, and_then-Takes, map-Takes, map_res-Takes, AllTake, AllTake-append, alt-Takes,
  recognize-Takes, not-Takes, Takes-weaken, success-Takes, tag-Takes, line_ending-Takes,
  multispace0-Takes, digit1-Takes, eof-Takes,
}
use atat.Extern.Nom.Spec.{IResult, parsed, lower, split_at, is_prefix}

-- What `take_until_including` returns for a split of its input.
abbrev pub including : Bytes → Option (Bytes × Bytes) → IResult (Bytes × Bytes)
including t (some (a, b)) = parsed (drop (length t) b) (a, t)
including t none = IResult.error

is_prefix-take : (t i : Bytes) → is_prefix t i ≡ true → take (length t) i ≡ t
is_prefix-take t i h = rw (is_prefix-eq t i h) (take-append t (drop (length t) i))

-- The tag is found by its exact bytes, so the letters' case that `tag_no_case` allows plays no part.
pub take_until_including_lem :
    (t i : Bytes) → take_until_including reference t i ≡ including t (split_at t i)
unfolding take_until_including running
take_until_including_lem t i = elim (Option-cases (split_at t i)) [
  | inl e ↦ rw (e, take_until_including) refl
  | inr ((a, b), e) ↦
      let (whole, pre) = split_at-some t i e in
      rw (e, take_until_including, compare_by-is_prefix lower t b pre, is_prefix-take t b pre) refl
]

pub take_until_including-first :
    (t a b : Bytes)
    → Absent t a (t ++ b)
    → take_until_including reference t (a ++ (t ++ b)) ≡ parsed b (a, t)
take_until_including-first t a b h =
    take_until_including_lem t (a ++ (t ++ b))
    ∙ ap (including t) (split_at-first t a b h)
    ∙ ap (λ r. parsed r (a, t)) (drop-append t b)

pub take_until_including-Missing :
    (t i : Bytes) → Missing t i → take_until_including reference t i ≡ IResult.error
take_until_including-Missing t i h =
    take_until_including_lem t i ∙ ap (including t) (split_at-Missing t i h)

abbrev pub both : Bytes × Bytes → ℕ
both o = length o.0 + length o.1

including-takes :
    (c : ℕ) (t i r : Bytes) (o : Bytes × Bytes) (x : Option (Bytes × Bytes))
    → split_at (c ∷ t) i ≡ x
    → including (c ∷ t) x ≡ parsed r o
    → (both o + length r ≡ length i) × (1 ≤ both o)
including-takes c t i r o none h e = cc
including-takes c t i r o (some (a, b)) h e =
    let (whole, pre) = split_at-some (c ∷ t) i h in
    ground (
      arith,
      ap length whole,
      length-append a b,
      ap length (is_prefix-eq (c ∷ t) b pre),
      length-append (c ∷ t) (drop (length (c ∷ t)) b),
    )

pub take_until_including-Takes :
    (c : ℕ) (t : Bytes) → Takes 1 (take_until_including reference (c ∷ t)) both
take_until_including-Takes c t i r o e =
    including-takes c t i r o _ refl (rw (take_until_including_lem (c ∷ t) i) at e)

abbrev size : Message → ℕ
size m = m.1

abbrev two : {A : Type 0} → A × ℕ → ℕ
two m = m.1

pub success_response-Takes : Takes 1 (success_response reference) size
unfolding success_response
success_response-Takes =
    and_then-Takes 1 _ (λ (t : (Bytes × Bytes) × Bytes). both t.0 + length t.1) size _
      (alt-Takes 1 _ _ (
        pair-Takes 1 _ _ _ _ (take_until_including-Takes _ _) (success-Takes _ _ refl),
        (pair-Takes 1 _ _ _ _ (take_until_including-Takes _ _) (success-Takes _ _ refl), tt),
      ))
      (λ o. refl)

prompt_of-Takes : (c : ℕ) → Takes 1 (prompt_of reference c) size
unfolding prompt_of
prompt_of-Takes c =
    and_then-Takes 1 _ (λ (t : (Bytes × Bytes) × (Bytes × Bytes)). both t.0 + (length t.1.0 + 0))
      size _
      (pair-Takes 1 _ _ _ _ (take_until_including-Takes c [])
        (pair-Takes 0 _ _ _ (λ _. 0) multispace0-Takes eof-Takes))
      (λ o. omega arith)

u16_from_digits_count : (ds : Bytes) (b : ℕ × ℕ) → u16_from_digits ds ≡ some b → b.1 ≡ length ds
unfolding u16_from_digits
u16_from_digits_count ds b h = ground arith

numeric_error-Takes : (c : ℕ) (t : Bytes) → Takes 1 (numeric_error reference (c ∷ t)) two
unfolding numeric_error
numeric_error-Takes c t =
    and_then-Takes 1 _ (λ (t : Bytes × ((ℕ × ℕ) × Bytes)). length t.0 + (t.1.0.1 + length t.1.1))
      two _
      (pair-Takes 1 _ _ _ _
        (recognize-Takes 1 _ _
          (pair-Takes 1 _ _ _ _ (take_until_including-Takes c t) multispace0-Takes))
        (pair-Takes 0 _ _ (λ (d : ℕ × ℕ). d.1) _
          (map_res-Takes 0 _ _ _ _ digit1-Takes u16_from_digits_count) line_ending-Takes))
      (λ o. omega arith)

string_error-Takes : (c : ℕ) (t : Bytes) → Takes 1 (string_error reference (c ∷ t)) two
unfolding string_error
string_error-Takes c t =
    and_then-Takes 1 _ (λ (t : Bytes × (Unit {0} × Bytes)). length t.0 + (0 + length t.1.1)) two _
      (pair-Takes 1 _ _ _ _ (recognize-Takes 1 _ _ (take_until_including-Takes c t)) (
        pair-Takes 0 _ _ _ _ (not-Takes _)
          (Takes-weaken 1 _ _ (recognize-Takes 1 _ _ (take_until_including-Takes _ _)))))
      (λ o. omega arith)

generic_error-Takes : Takes 1 (generic_error reference) (λ len. len)
unfolding generic_error
generic_error-Takes =
    and_then-Takes 1 _ both _ _
      (alt-Takes 1 _ _ (take_until_including-Takes _ _, (take_until_including-Takes _ _, tt)))
      (λ o. refl)

connection_of-Takes :
    (c : ℕ) (t : Bytes) (x : ConnectionError) → Takes 1 (connection_of reference (c ∷ t) x) two
unfolding connection_of
connection_of-Takes c t x = map-Takes 1 _ both two _ (take_until_including-Takes c t) (λ o. refl)

connection_error-Takes : Takes 1 (connection_error reference) two
unfolding connection_error
connection_error-Takes = alt-Takes 1 _ _ (
  connection_of-Takes _ _ _,
  (connection_of-Takes _ _ _, (connection_of-Takes _ _ _, (connection_of-Takes _ _ _, tt))),
)

string_arms-Take : (b : Bool) → AllTake 1 (string_arms reference b) size
unfolding string_arms
string_arms-Take true = (
  map-Takes 1 _ two size _ (string_error-Takes _ _) (λ o. refl),
  (map-Takes 1 _ two size _ (string_error-Takes _ _) (λ o. refl), tt),
)
string_arms-Take false = tt

pub error_response-Takes : (b : Bool) → Takes 1 (error_response reference b) size
unfolding error_response
error_response-Takes b = alt-Takes 1 _ _ (
  map-Takes 1 _ two size _ (numeric_error-Takes _ _) (λ o. refl),
  (
    map-Takes 1 _ two size _ (numeric_error-Takes _ _) (λ o. refl),
    AllTake-append 1 _ _ size (string_arms-Take b) (
      map-Takes 1 _ two size _ (numeric_error-Takes _ _) (λ o. refl),
      (
        map-Takes 1 _ _ size _ generic_error-Takes (λ o. refl),
        (
          map-Takes 1 _ two size _ connection_error-Takes (λ o. refl),
          (map-Takes 1 _ _ size _ (recognize-Takes 1 _ _ (tag-Takes _ _)) (λ o. refl), tt),
        ),
      ),
    ),
  ),
)

pub prompt_response-Takes : Takes 1 (prompt_response reference) size
unfolding prompt_response
prompt_response-Takes i r o e =
    ground (arith, prompt_of-Takes b'>' i r o, prompt_of-Takes b'@' i r o)
