-- ===== src/SerdeAt/Deserializer/Listed.antt =====
-- The fields of a struct, one behind the other, as serde_at/src/de/seq.rs takes them out of an answer.
use atat.Base.{
  ℕ, ◌≡◌, refl, sym, ap, ◌∙◌, ◌⊎◌, inl, inr, true, false, [], ◌∷◌, ◌++◌, ◌==◌, Bytes, if_true,
  if_false, some, ok,
}
use atat.Extern.Texts.{Texts}
use atat.SerdeAt.De.{skip_whitespace}
use atat.SerdeAt.Ser.Value.{Value, Fields, no_more, field}
use atat.SerdeAt.Numbers.{NoDigitFirst}
use atat.SerdeAt.Deserializer.{Deserializer, Read, at, peek_in}
use atat.SerdeAt.Deserializer.Seq.{SeqAccess, counted, element, element_from, next_element}
use atat.SerdeAt.Deserializer.Shape.{Shape, Shapes, no_shapes, shape, deserialize_option}
use atat.SerdeAt.Deserializer.Elements.{
  IsPlain, IsRead, read_bool, read_char, read_unsigned, read_signed, read_str, read_option,
  read_newtype, read_unit, shown,
}
use atat.SerdeAt.Deserializer.Reads.{skip_plain}

-- The text of a field and those behind it. A field that is absent is left out at the end, and else it
-- is the empty text between commas.
abbrev pub behind_comma : Value → Bytes → Bytes
behind_comma Value.none [] = []
behind_comma Value.none (c ∷ cs) = b',' ∷ c ∷ cs
behind_comma v later = b',' ∷ (shown v ++ later)

-- The fields behind the first one.
abbrev pub listed : Fields → Bytes
listed no_more = []
listed (field v vs) = behind_comma v (listed vs)

-- All fields.
abbrev pub all_shown : Fields → Bytes
all_shown no_more = []
all_shown (field v vs) = shown v ++ listed vs

-- Fields of the types: options are absent, or there.
pub data AreRead (x : Texts) : Shapes → Fields → Type 0 where
  read_no_more : AreRead x no_shapes no_more
  read_present :
      (s : Shape) (ss : Shapes) (v : Value) (vs : Fields)
      → IsRead x s v
      → AreRead x ss vs
      → AreRead x (shape s ss) (field v vs)
  read_absent :
      (s : Shape) (ss : Shapes) (vs : Fields)
      → AreRead x ss vs
      → AreRead x (shape (Shape.option s) ss) (field Value.none vs)

-- Behind the fields there is nothing but whitespace, or the next answer.
abbrev pub IsBehind : Bytes → Type 0
IsBehind behind =
    NoDigitFirst behind
    × ((skip_whitespace behind ≡ []) ⊎ ((more : Bytes) × (skip_whitespace behind ≡ b'+' ∷ more)))

pub present_text :
    {x : Texts} (s : Shape) (v : Value) (later : Bytes)
    → IsRead x s v
    → behind_comma v later ≡ b',' ∷ (shown v ++ later)
present_text s v later (read_bool b) = refl
present_text s v later (read_char c small plain no_feed) = refl
present_text s v later (read_unsigned n bound k places lt fits) = refl
present_text s v later (read_signed n half k fine) = refl
present_text s v later (read_str n cs utf8 fits closed) = refl
present_text s v later (read_option t w fine) = refl
present_text s v later (read_newtype t w fine) = refl
present_text s v later (read_unit n bound val vs places few fits small unit) = refl

absent-cases :
    (later : Bytes)
    → (later ≡ []) ⊎ ((more : Bytes) × (later ≡ b',' ∷ more))
    → (behind_comma Value.none later ≡ [])
      ⊎ ((more : Bytes) × (behind_comma Value.none later ≡ b',' ∷ more))
absent-cases [] h = inl refl
absent-cases (c ∷ cs) h = inr (c ∷ cs, refl)

pub listed-cases :
    {x : Texts} (ss : Shapes) (vs : Fields)
    → AreRead x ss vs
    → (listed vs ≡ []) ⊎ ((more : Bytes) × (listed vs ≡ b',' ∷ more))
listed-cases ss vs read_no_more = inl refl
listed-cases ss vs (read_present s ts v ws fine others) =
    inr (shown v ++ listed ws, present_text s v (listed ws) fine)
listed-cases ss vs (read_absent s ts ws others) =
    absent-cases (listed ws) (listed-cases ts ws others)

pub listed-NoDigitFirst :
    {x : Texts} (ss : Shapes) (vs : Fields) (behind : Bytes)
    → AreRead x ss vs
    → NoDigitFirst behind
    → NoDigitFirst (listed vs ++ behind)
listed-NoDigitFirst ss vs behind fine free = elim (listed-cases ss vs fine) [
  | inl empty ↦ rw empty free
  | inr (more, same) ↦ rw same refl
]

module _ (read : Deserializer → Read Value) (a : SeqAccess) (d : Deserializer) where
  pub next-comma :
      (c : ℕ) (cs : Bytes)
      → IsPlain c
      → next_element read a (at (b',' ∷ c ∷ cs) d) ≡ element a (read (at (c ∷ cs) d))
  unfolding next_element skip_whitespace
  next-comma c cs plain =
      ap (λ r. peek_in r (at r d) λ k e. element a (read e)) (skip_plain c cs plain)

  pub next-first :
      (c : ℕ) (cs : Bytes)
      → a.first ≡ true
      → IsPlain c
      → next_element read a (at (c ∷ cs) d)
        ≡ element (record a { first = false }) (read (at (c ∷ cs) d))
  unfolding next_element
  next-first c cs first plain =
      ap (λ r. element_from read a (at r d) r) (skip_plain c cs plain)
      ∙ if_false (c == b',') _ _ plain.no_comma
      ∙ if_true a.first _ _ first

  -- An option between commas
  pub next-empty :
      (more : Bytes)
      → next_element (deserialize_option read) a (at (b',' ∷ b',' ∷ more) d)
        ≡ (ok (some Value.none, counted a), at (b',' ∷ more) d)
  unfolding next_element deserialize_option skip_whitespace
  next-empty more = refl

  -- An option behind the last field
  pub next-behind :
      (behind : Bytes)
      → a.first ≡ false
      → IsBehind behind
      → next_element (deserialize_option read) a (at behind d)
        ≡ (ok (some Value.none, counted a), at (skip_whitespace behind) d)
  unfolding next_element deserialize_option skip_whitespace
  next-behind behind first (free, inl nothing) =
      ap (λ r. element_from (deserialize_option read) a (at r d) r) nothing
      ∙ ap (λ r. (ok (some Value.none, counted a), at r d)) (sym nothing)
  next-behind behind first (free, inr (more, same)) =
      ap (λ r. element_from (deserialize_option read) a (at r d) r) same
      ∙ if_false a.first _ _ first
      ∙ ap (λ r. (ok (some Value.none, counted a), at r d)) (sym same)
