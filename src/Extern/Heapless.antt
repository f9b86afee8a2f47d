-- ===== src/Extern/Heapless.antt =====
-- The parts of the crate heapless that are used: `Vec::<u8, N>::from_slice`, and `String<N>` that grows.
use atat.Base.{
  ℕ, ◌+◌, ◌≤◌, le→leb, if_true, ◌≡◌, refl, [], ◌∷◌, ◌++◌, Bytes, Option, none, some, length, leb,
  if◌then◌else◌,
}

pub record Heapless : Type 0 where
  -- `Vec::<u8, N>::from_slice(s).ok()`
  pub from_slice : ℕ → Bytes → Option Bytes

-- A slice that fits the capacity is copied, and a longer one is an error.
pub record IsHeapless (h : Heapless) : Type 0 where
  pub from_slice_lem :
      (n : ℕ) (s : Bytes) → h.from_slice n s ≡ (if leb (length s) n then some s else none)

abbrev pub reference : Heapless
reference = record { from_slice = λ n s. if leb (length s) n then some s else none }

pub reference-IsHeapless : IsHeapless reference
reference-IsHeapless = record { from_slice_lem = λ n s. refl }

-- The bytes of a character in UTF-8.
abbrev pub char_size : ℕ → ℕ
char_size c = if leb c 127 then 1 else if leb c 2047 then 2 else if leb c 65535 then 3 else 4

abbrev pub text_size : Bytes → ℕ
text_size [] = 0
text_size (c ∷ cs) = char_size c + text_size cs

-- A text as its characters.
pub record Growing : Type 0 where
  -- `String::<N>::push_str(s).ok()`, and `push`, of one character.
  pub push_str : ℕ → Bytes → Bytes → Option Bytes

-- What fits is put at the end.
pub record IsGrowing (g : Growing) : Type 0 where
  pub push_str-fits :
      (n : ℕ) (text s : Bytes)
      → text_size text + text_size s ≤ n
      → g.push_str n text s ≡ some (text ++ s)

abbrev pub growing : Growing
growing = record {
  push_str = λ n text s. if leb (text_size text + text_size s) n then some (text ++ s) else none;
}

pub growing-IsGrowing : IsGrowing growing
growing-IsGrowing = record {
  push_str-fits =
      λ n text s fits. if_true (leb (text_size text + text_size s) n) _ _ (le→leb _ _ fits);
}
