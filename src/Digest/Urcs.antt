-- ===== src/Digest/Urcs.antt =====
-- A URC behind an echo, as `AtDigester::digest` of atat/src/digest.rs takes it off the buffer.
use Prim.Native.Nat.{zero, suc}
use atat.Base.{ℕ, ◌≤◌, ◌≡◌, ◌≢◌, refl, ◌∙◌, Bool, [], ◌∷◌, ◌++◌, Bytes, length, drop, ok, arith}
use atat.Base.Outcome.{done}
use atat.Digest.{AtDigester, digest, digest_urc}
use atat.Digest.Echo.{NoSpaceFirst, digest_behind_echo}
use atat.Digest.Parser.{crlf}
use atat.Digest.Types.{DigestResult}
use atat.Extern.Nom.{Nom, IsNom, IsNom-unique, reference}
use atat.Extern.Nom.Laws.{Absent}

-- No space among the bytes.
abbrev pub NoSpaces : Bytes → Type 0
NoSpaces [] = Unit
NoSpaces (c ∷ cs) = (c ≢ b' ') × NoSpaces cs

NoSpaces-first : (k : ℕ) (e : Bytes) → NoSpaces e → NoSpaceFirst (drop k e)
NoSpaces-first zero [] h = tt
NoSpaces-first zero (c ∷ e) h = h.0
NoSpaces-first (suc k) [] h = tt
NoSpaces-first (suc k) (c ∷ e) (p, h) = NoSpaces-first k e h

Absent-drop : (k : ℕ) (t e b : Bytes) → Absent t e b → Absent t (drop k e) b
Absent-drop zero t e b h = h
Absent-drop (suc k) t [] b h = tt
Absent-drop (suc k) t (c ∷ e) b (p, h) = Absent-drop k t e b h

drop-append_short : (k : ℕ) (e b : Bytes) → k ≤ length e → drop k (e ++ b) ≡ drop k e ++ b
drop-append_short zero e b h = refl
drop-append_short (suc k) [] b h = absurd (omega arith)
drop-append_short (suc k) (c ∷ e) b h = drop-append_short k e b (omega arith)

urc_behind_echo :
    (se : Bool) (d : AtDigester) (e tail u : Bytes) (len : ℕ)
    → NoSpaceFirst e
    → Absent crlf e (crlf ++ tail)
    → d.urc_parser (crlf ++ tail) ≡ ok (u, len)
    → digest reference se d (e ++ (crlf ++ tail)) ≡ done (DigestResult.urc u, len)
unfolding digest_urc
urc_behind_echo se d e tail u len he ha urc = digest_behind_echo se d [] e tail tt he ha ∙ rw urc

-- With a lawful `nom`, a URC that is found behind an echo without spaces and line ends, and that is
-- no longer than the echo, is returned with a length that leaves the echo out, and when that many
-- bytes are taken off the buffer, the same URC is returned once more.
pub digest-urc_twice :
    (n : Nom) (se : Bool) (d : AtDigester) (e tail u : Bytes) (len : ℕ)
    → IsNom n
    → NoSpaces e
    → Absent crlf e (crlf ++ tail)
    → len ≤ length e
    → d.urc_parser (crlf ++ tail) ≡ ok (u, len)
    → (digest n se d (e ++ (crlf ++ tail)) ≡ done (DigestResult.urc u, len))
      × (digest n se d (drop len (e ++ (crlf ++ tail))) ≡ done (DigestResult.urc u, len))
digest-urc_twice n se d e tail u len laws hs ha le urc = rw (IsNom-unique n laws) (
  urc_behind_echo se d e tail u len (NoSpaces-first 0 e hs) ha urc,
  rw (drop-append_short len e (crlf ++ tail) le) (
      urc_behind_echo se d (drop len e) tail u len (NoSpaces-first len e hs)
        (Absent-drop len crlf e _ ha) urc),
)
