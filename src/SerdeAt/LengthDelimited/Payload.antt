-- ===== src/SerdeAt/LengthDelimited/Payload.antt =====
-- What `visit_bytes` of serde_at/src/de/length_delimited.rs makes of a length and what follows it.
use atat.Base.{
  ℕ, suc, ◌+◌, ◌≤◌, ◌<◌, ◌≡◌, refl, sym, ap, ◌∙◌, Bool, true, false, ◌&&◌, Option, some, [], ◌∷◌,
  ◌++◌, append_assoc, ◌==◌, Bytes, length, get_elem?, position, length-append, take-append, middle,
  leb, le→leb, if_true, if_false, ok, arith,
}
use atat.Base.Outcome.{done, panic}
use atat.Extern.Heapless.{Heapless, IsHeapless}
use atat.SerdeAt.LengthDelimited.{
  is_quote, in_quotes, to_delimited, copy, visit_payload, visit_len, visit_behind, visit_delimited,
}

abbrev pub NoComma : Bytes → Type 0
NoComma [] = Unit
NoComma (c ∷ cs) = ((c == b',') ≡ false) × NoComma cs

position-comma :
    (ds t : Bytes) → NoComma ds → position (λ c. c == b',') (ds ++ (b',' ∷ t)) ≡ some (length ds)
position-comma [] t none_there = refl
position-comma (d ∷ ds) t (other, none_there) =
    rw (position-comma ds t none_there) (if_false (d == b',') _ _ other)

-- The byte so far behind the comma.
get_elem?-behind :
    (ds t : Bytes) (k : ℕ) → get_elem? (ds ++ (b',' ∷ t)) (length ds + 1 + k) ≡ get_elem? t k
get_elem?-behind [] t k =
    let same : 0 + 1 + k ≡ suc k = omega arith in ap (get_elem? (b',' ∷ t)) same
get_elem?-behind (d ∷ ds) t k =
    let same : suc (length ds) + 1 + k ≡ suc (length ds + 1 + k) = omega arith in
    ap (get_elem? (d ∷ (ds ++ (b',' ∷ t)))) same ∙ get_elem?-behind ds t k

get_elem?-end : (p rest : Bytes) (c : ℕ) → get_elem? (p ++ (c ∷ rest)) (length p) ≡ some c
get_elem?-end [] rest c = refl
get_elem?-end (x ∷ p) rest c = get_elem?-end p rest c

not_first : (a b : Bool) → a ≡ false → (a && b) ≡ false
not_first true b h = absurd cc
not_first false b h = refl

not_both : (a b : Bool) → (a && (false && b)) ≡ false
not_both true b = refl
not_both false b = refl

all_three : (a b c : Bool) → a ≡ true → b ≡ true → c ≡ true → (a && (b && c)) ≡ true
all_three true true true ha hb hc = refl
all_three false b c ha hb hc = absurd cc
all_three true false c ha hb hc = absurd cc
all_three true true false ha hb hc = absurd cc

module _ (h : Heapless) (laws : IsHeapless h) (n : ℕ) (parse_len : Bytes → Option ℕ) where
  visit_lem :
      (ds t : Bytes) (len : ℕ)
      → NoComma ds
      → parse_len ds ≡ some len
      → visit_delimited h n parse_len (ds ++ (b',' ∷ t))
        ≡ visit_payload h n parse_len len (length ds + 1) (ds ++ (b',' ∷ t))
  unfolding visit_delimited
  visit_lem ds t len plain parses =
      ap (visit_behind h n parse_len (ds ++ (b',' ∷ t))) (position-comma ds t plain)
      ∙ ap (λ x. visit_len h n parse_len (length ds) (ds ++ (b',' ∷ t)) (parse_len x))
          (take-append ds (b',' ∷ t))
      ∙ ap (visit_len h n parse_len (length ds) (ds ++ (b',' ∷ t))) parses

  copy_lem :
      (a p rest : Bytes) (start : ℕ)
      → length a ≡ start
      → length p ≤ n
      → copy h n parse_len (length p) start (start + length p) (a ++ (p ++ rest))
        ≡ done (ok (record { len = length p; bytes = p }))
  unfolding copy
  copy_lem a p rest start size fits =
      if_true (leb (start + length p) (length (a ++ (p ++ rest)))) _ _
        (le→leb _ _ (omega (arith, length-append a (p ++ rest), length-append p rest)))
      ∙ ap (λ x. done (to_delimited h n parse_len (length p) (h.from_slice n x)))
          (middle start a p rest size)
      ∙ ap (λ x. done (to_delimited h n parse_len (length p) x))
          (laws.from_slice_lem n p ∙ if_true (leb (length p) n) _ _ (le→leb _ _ fits))

  unquoted_lem :
      (ds p rest : Bytes)
      → length p ≤ n
      → is_quote (get_elem? (p ++ rest) 0) ≡ false
      → visit_payload h n parse_len (length p) (length ds + 1) (ds ++ (b',' ∷ (p ++ rest)))
        ≡ done (ok (record { len = length p; bytes = p }))
  unfolding visit_payload
  unquoted_lem ds p rest fits other =
      let v : Bytes = ds ++ (b',' ∷ (p ++ rest)) in
      let start : ℕ = length ds + 1 in
      let here : start ≡ start + 0 = omega arith in
      let no_quote : is_quote (get_elem? v start) ≡ false =
        ap is_quote (ap (get_elem? v) here ∙ get_elem?-behind ds (p ++ rest) 0) ∙ other in
      if_false (in_quotes start (start + length p) v) _ _ (
        ap
          (λ q.
            leb (start + length p + 2) (length v)
            && (q && is_quote (get_elem? v (start + length p + 1))))
          no_quote
        ∙ not_both (leb (start + length p + 2) (length v))
            (is_quote (get_elem? v (start + length p + 1))))
      ∙ ap (copy h n parse_len (length p) start (start + length p))
          (sym (append_assoc ds (b',' ∷ []) (p ++ rest)))
      ∙ copy_lem (ds ++ (b',' ∷ [])) p rest start (length-append ds (b',' ∷ [])) fits

  quoted_lem :
      (ds p rest : Bytes)
      → length p ≤ n
      → visit_payload h n parse_len
          (length p)
          (length ds + 1)
          (ds ++ (b',' ∷ (b'"' ∷ (p ++ (b'"' ∷ rest)))))
        ≡ done (ok (record { len = length p; bytes = p }))
  unfolding visit_payload
  quoted_lem ds p rest fits =
      let t : Bytes = b'"' ∷ (p ++ (b'"' ∷ rest)) in
      let v : Bytes = ds ++ (b',' ∷ t) in
      let start : ℕ = length ds + 1 in
      let here : start ≡ start + 0 = omega arith in
      let there : start + length p + 1 ≡ start + suc (length p) = omega arith in
      let moved : start + length p + 1 ≡ start + 1 + length p = omega arith in
      if_true (in_quotes start (start + length p) v) _ _ (
        all_three _ _ _
          (le→leb (start + length p + 2) (length v)
            (omega (arith, length-append ds (b',' ∷ t), length-append p (b'"' ∷ rest))))
          (ap is_quote (ap (get_elem? v) here ∙ get_elem?-behind ds t 0))
          (ap is_quote (
            ap (get_elem? v) there
            ∙ get_elem?-behind ds t (suc (length p))
            ∙ get_elem?-end p rest b'"')))
      ∙ ap (λ end. copy h n parse_len (length p) (start + 1) end v) moved
      ∙ ap (copy h n parse_len (length p) (start + 1) (start + 1 + length p))
          (sym (append_assoc ds (b',' ∷ (b'"' ∷ [])) (p ++ (b'"' ∷ rest))))
      ∙ copy_lem (ds ++ (b',' ∷ (b'"' ∷ []))) p (b'"' ∷ rest) (start + 1)
          (omega (arith, length-append ds (b',' ∷ (b'"' ∷ [])))) fits

  -- With a lawful `from_slice`, from a text of a number, a comma, and as many bytes as the number
  -- says, which fit the capacity and do not begin with a quote, `visit_bytes` of a `LengthDelimited`
  -- reads that number and those bytes, whether the bytes are put in quotes or not, and whatever
  -- stands behind them.
  pub visit_delimited-payload :
      (ds p rest : Bytes)
      → NoComma ds
      → parse_len ds ≡ some (length p)
      → length p ≤ n
      → is_quote (get_elem? (p ++ rest) 0) ≡ false
      → (visit_delimited h n parse_len (ds ++ (b',' ∷ (p ++ rest)))
          ≡ done (ok (record { len = length p; bytes = p })))
        × (visit_delimited h n parse_len (ds ++ (b',' ∷ (b'"' ∷ (p ++ (b'"' ∷ rest)))))
            ≡ done (ok (record { len = length p; bytes = p })))
  visit_delimited-payload ds p rest plain parses fits other = (
    visit_lem ds (p ++ rest) (length p) plain parses ∙ unquoted_lem ds p rest fits other,
    visit_lem ds (b'"' ∷ (p ++ (b'"' ∷ rest))) (length p) plain parses ∙ quoted_lem ds p rest fits,
  )

  -- Where a number and a comma stand before fewer bytes than the number says, `visit_bytes` of a
  -- `LengthDelimited` panics.
  pub visit_delimited-panic :
      (ds t : Bytes) (len : ℕ)
      → NoComma ds
      → parse_len ds ≡ some len
      → length t < len
      → visit_delimited h n parse_len (ds ++ (b',' ∷ t)) ≡ panic
  unfolding visit_payload copy
  visit_delimited-panic ds t len plain parses short =
      let v : Bytes = ds ++ (b',' ∷ t) in
      let start : ℕ = length ds + 1 in
      visit_lem ds t len plain parses
      ∙ if_false (in_quotes start (start + len) v) _ _ (
          not_first (leb (start + len + 2) (length v))
            (is_quote (get_elem? v start) && is_quote (get_elem? v (start + len + 1)))
            (ground (arith, length-append ds (b',' ∷ t))))
      ∙ if_false (leb (start + len) (length v)) _ _ (ground (arith, length-append ds (b',' ∷ t)))
