-- ===== src/Digest/Trim.antt =====
-- `trim_ascii_whitespace` and `trim_start_ascii_space` of atat/src/digest.rs.
use atat.Base.{
  ℕ, ◌+◌, ◌-◌, Bool, not, ◌||◌, some, none, [], ◌==◌, Bytes, take, drop, position, rposition,
}

-- `u8::is_ascii_whitespace`
abbrev pub is_ascii_whitespace : ℕ → Bool
is_ascii_whitespace c = c == b' ' || c == b'\t' || c == b'\n' || c == 0x0c || c == b'\r'

abbrev pub not_whitespace : ℕ → Bool
not_whitespace c = not (is_ascii_whitespace c)

abbrev pub not_space : ℕ → Bool
not_space c = not (c == b' ')

-- The slice `x[from..=to]` between the first and the last byte that is no whitespace.
unfoldable pub trim_ascii_whitespace : Bytes → Bytes
trim_ascii_whitespace x = elim (position not_whitespace x) [
  | some from ↦ elim (rposition not_whitespace x) [
    | some to ↦ take (to + 1 - from) (drop from x)
    | none ↦ []
  ]
  | none ↦ []
]

unfoldable pub trim_start_ascii_space : Bytes → Bytes
trim_start_ascii_space x = elim (position not_space x) [ some offset ↦ drop offset x | none ↦ [] ]
