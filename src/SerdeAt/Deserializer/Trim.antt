-- ===== src/SerdeAt/Deserializer/Trim.antt =====
-- `trim_ascii_whitespace` of serde_at/src/de/mod.rs, and what the text of an answer ends with.
use atat.Base.{
  ℕ, zero, suc, ◌+◌, ◌-◌, ◌/◌, ◌%◌, ◌<◌, ◌≡◌, refl, sym, ap, ◌∙◌, ◌⊎◌, inl, inr, true, false, not,
  [], ◌∷◌, ◌++◌, append-nil, append_assoc, ◌==◌, Bytes, codes, length, take, drop, middle,
  length-append, take-append, drop-append, position, rposition, if◌then◌else◌, if_true, if_false,
  Option, none, some, arith,
}
use mathlib.Core.Option
use atat.Base.Int.{ℤ, pos, negsuc}
use atat.Digest.Trim
use atat.Digest.Trim.{is_ascii_whitespace, not_whitespace}
use atat.Extern.Texts.{Texts, concat}
use atat.SerdeAt.Ser.Value.{Value, Fields, field}
use atat.SerdeAt.Ser.Text.{decimal_text}
use atat.SerdeAt.Ser.Fields.{signed_text, IsSigned}
use atat.SerdeAt.Deserializer.Shape.{Shape, Shapes}
use atat.SerdeAt.Deserializer.Slice.{slice_between, trim_ascii_whitespace}
use atat.SerdeAt.Deserializer.Elements.{
  IsPlain, IsRead, read_bool, read_char, read_unsigned, read_signed, read_str, read_option,
  read_newtype, read_unit, shown,
}
use atat.SerdeAt.Deserializer.Listed.{
  listed, all_shown, AreRead, read_no_more, read_present, read_absent, present_text, behind_comma,
}

-- The text ends with a character that is no whitespace.
pub record Ends (text : Bytes) : Type 0 where
  pub init : Bytes
  pub last : ℕ
  pub parts : text ≡ init ++ (last ∷ [])
  pub seen : is_ascii_whitespace last ≡ false

pub append-Ends : (a b : Bytes) → Ends b → Ends (a ++ b)
append-Ends a b y = record {
  init = a ++ y.init;
  last = y.last;
  parts = ap (λ t. a ++ t) y.parts ∙ sym (append_assoc a y.init (y.last ∷ []));
  seen = y.seen;
}

abbrev pub AreBlank : Bytes → Type 0
AreBlank [] = Unit
AreBlank (c ∷ cs) = (is_ascii_whitespace c ≡ true) × AreBlank cs

position-blank :
    (blank : Bytes) (c : ℕ) (cs : Bytes)
    → AreBlank blank
    → is_ascii_whitespace c ≡ false
    → position not_whitespace (blank ++ (c ∷ cs)) ≡ some (length blank)
position-blank [] c cs h seen = if_true (not_whitespace c) _ _ (ap not seen)
position-blank (b ∷ blank) c cs (space, spaces) seen =
    if_false (not_whitespace b) _ _ (ap not space)
    ∙ ap (Option.map suc) (position-blank blank c cs spaces seen)

abbrev rposition_step : ℕ → Option ℕ → Option ℕ
rposition_step b found = elim found [
  | some i ↦ some (suc i)
  | none ↦ if not_whitespace b then some 0 else none
]

rposition-none : (blank : Bytes) → AreBlank blank → rposition not_whitespace blank ≡ none
rposition-none [] h = refl
rposition-none (b ∷ blank) (space, spaces) =
    ap (rposition_step b) (rposition-none blank spaces)
    ∙ if_false (not_whitespace b) _ _ (ap not space)

rposition-blank :
    (init : Bytes) (last : ℕ) (blank : Bytes)
    → AreBlank blank
    → is_ascii_whitespace last ≡ false
    → rposition not_whitespace (init ++ (last ∷ blank)) ≡ some (length init)
rposition-blank [] last blank h seen =
    ap (rposition_step last) (rposition-none blank h)
    ∙ if_true (not_whitespace last) _ _ (ap not seen)
rposition-blank (b ∷ init) last blank h seen =
    ap (rposition_step b) (rposition-blank init last blank h seen)

-- Whitespace around a text is cut off.
pub trim_lem :
    (before : Bytes) (c : ℕ) (cs : Bytes) (behind : Bytes)
    → AreBlank before
    → AreBlank behind
    → is_ascii_whitespace c ≡ false
    → Ends (c ∷ cs)
    → trim_ascii_whitespace (before ++ ((c ∷ cs) ++ behind)) ≡ c ∷ cs
unfolding trim_ascii_whitespace
trim_lem before c cs behind blank blank' seen y =
    let whole = before ++ ((c ∷ cs) ++ behind) in
    let text : whole ≡ (before ++ y.init) ++ (y.last ∷ behind) =
      ap (λ t. before ++ (t ++ behind)) y.parts
      ∙ ap (λ t. before ++ t) (append_assoc y.init (y.last ∷ []) behind)
      ∙ sym (append_assoc before y.init (y.last ∷ behind)) in
    let last : rposition not_whitespace whole ≡ some (length (before ++ y.init)) =
      ap (rposition not_whitespace) text
      ∙ rposition-blank (before ++ y.init) y.last behind blank' y.seen in
    let size : suc (length (before ++ y.init)) ≡ length before + length (c ∷ cs) =
      omega (
        arith,
        length-append before y.init,
        ap length y.parts,
        length-append y.init (y.last ∷ []),
      ) in
    ap (λ o. slice_between whole o (rposition not_whitespace whole))
      (position-blank before c (cs ++ behind) blank seen)
    ∙ ap (slice_between whole (some (length before))) last
    ∙ ap (λ k. drop (length before) (take k whole)) size
    ∙ middle (length before) before (c ∷ cs) behind refl

-- The digester cuts off the same.
pub digest-trim_lem :
    (before : Bytes) (c : ℕ) (cs : Bytes) (behind : Bytes)
    → AreBlank before
    → AreBlank behind
    → is_ascii_whitespace c ≡ false
    → Ends (c ∷ cs)
    → Trim.trim_ascii_whitespace (before ++ ((c ∷ cs) ++ behind)) ≡ c ∷ cs
unfolding Trim.trim_ascii_whitespace
digest-trim_lem before c cs behind blank blank' seen y =
    let whole = before ++ ((c ∷ cs) ++ behind) in
    let text : whole ≡ (before ++ y.init) ++ (y.last ∷ behind) =
      ap (λ t. before ++ (t ++ behind)) y.parts
      ∙ ap (λ t. before ++ t) (append_assoc y.init (y.last ∷ []) behind)
      ∙ sym (append_assoc before y.init (y.last ∷ behind)) in
    let last : rposition not_whitespace whole ≡ some (length (before ++ y.init)) =
      ap (rposition not_whitespace) text
      ∙ rposition-blank (before ++ y.init) y.last behind blank' y.seen in
    let size : length (before ++ y.init) + 1 - length before ≡ length (c ∷ cs) =
      omega (
        arith,
        length-append before y.init,
        ap length y.parts,
        length-append y.init (y.last ∷ []),
      ) in
    let cut : Option ℕ → Option ℕ → Bytes = λ a b. elim a [
      | some from ↦ elim b [ some to ↦ take (to + 1 - from) (drop from whole) | none ↦ [] ]
      | none ↦ []
    ] in
    ap (λ a. cut a (rposition not_whitespace whole))
      (position-blank before c (cs ++ behind) blank seen)
    ∙ ap (cut (some (length before))) last
    ∙ ap (λ k. take k (drop (length before) whole)) size
    ∙ ap (take (length (c ∷ cs))) (drop-append before ((c ∷ cs) ++ behind))
    ∙ take-append (c ∷ cs) behind

decimal_text-Ends : (n v : ℕ) → 0 < n → Ends (decimal_text n v)
unfolding decimal_text
decimal_text-Ends zero v places = absurd (omega arith)
decimal_text-Ends (suc i) v places = record {
  init = if v / 10 == 0 then [] else decimal_text i (v / 10);
  last = v % 10 + b'0';
  parts = refl;
  seen = ground arith;
}

signed_text-Ends : (n half : ℕ) (v : ℤ) → IsSigned n half v → Ends (signed_text n v)
signed_text-Ends n half (pos v) (places, lt, fits) = decimal_text-Ends (n - 1) v (omega arith)
signed_text-Ends n half (negsuc v) (places, lt, fits) =
    append-Ends (b'-' ∷ []) (decimal_text (n - 1) (v + 1))
      (decimal_text-Ends (n - 1) (v + 1) (omega arith))

plain-seen : (c : ℕ) → IsPlain c → (c == 12) ≡ false → is_ascii_whitespace c ≡ false
plain-seen c plain no_feed = ground (arith, plain.no_space)

pub shown-Ends : {x : Texts} (s : Shape) (v : Value) → IsRead x s v → Ends (shown v)
shown-Ends s v (read_bool true) = record {
  init = codes "tru";
  last = b'e';
  parts = refl;
  seen = refl;
}
shown-Ends s v (read_bool false) = record {
  init = codes "fals";
  last = b'e';
  parts = refl;
  seen = refl;
}
shown-Ends s v (read_char c small plain no_feed) = record {
  init = [];
  last = c;
  parts = refl;
  seen = plain-seen c plain no_feed;
}
shown-Ends s v (read_unsigned n bound k places lt fits) = decimal_text-Ends n k places
shown-Ends s v (read_signed n half k fine) = signed_text-Ends n half k fine
shown-Ends s v (read_str n cs utf8 fits closed) = record {
  init = b'"' ∷ concat cs;
  last = b'"';
  parts = refl;
  seen = refl;
}
shown-Ends s v (read_option t w fine) = shown-Ends t w fine
shown-Ends s v (read_newtype t w fine) = shown-Ends t w fine
shown-Ends s v (read_unit n bound val vs places few fits small unit) =
    decimal_text-Ends n val places

pub same-Ends : (a b : Bytes) → a ≡ b → Ends b → Ends a
same-Ends a b same y = record {
  init = y.init;
  last = y.last;
  parts = same ∙ y.parts;
  seen = y.seen;
}

pub joined-Ends : (a b : Bytes) → Ends a → (b ≡ []) ⊎ Ends b → Ends (a ++ b)
joined-Ends a b y (inl empty) = same-Ends (a ++ b) a (ap (λ t. a ++ t) empty ∙ append-nil a) y
joined-Ends a b y (inr ends) = append-Ends a b ends

absent-Ends :
    (later : Bytes)
    → (later ≡ []) ⊎ Ends later
    → (behind_comma Value.none later ≡ []) ⊎ Ends (behind_comma Value.none later)
absent-Ends [] h = inl refl
absent-Ends (c ∷ cs) (inl empty) = absurd cc
absent-Ends (c ∷ cs) (inr ends) = inr (append-Ends (b',' ∷ []) (c ∷ cs) ends)

listed-Ends :
    {x : Texts} (ss : Shapes) (vs : Fields) → AreRead x ss vs → (listed vs ≡ []) ⊎ Ends (listed vs)
listed-Ends ss vs read_no_more = inl refl
listed-Ends ss vs (read_present s ts v ws fine others) = inr (
    same-Ends (listed (field v ws)) (b',' ∷ (shown v ++ listed ws))
      (present_text s v (listed ws) fine)
      (append-Ends (b',' ∷ []) (shown v ++ listed ws)
        (joined-Ends (shown v) (listed ws) (shown-Ends s v fine) (listed-Ends ts ws others))))
listed-Ends ss vs (read_absent s ts ws others) = absent-Ends (listed ws) (listed-Ends ts ws others)

-- The fields, of which the first one is there, end with a character that is no whitespace.
pub all_shown-Ends :
    {x : Texts} (s : Shape) (ss : Shapes) (v : Value) (vs : Fields)
    → IsRead x s v
    → AreRead x ss vs
    → Ends (all_shown (field v vs))
all_shown-Ends s ss v vs fine others =
    joined-Ends (shown v) (listed vs) (shown-Ends s v fine) (listed-Ends ss vs others)
