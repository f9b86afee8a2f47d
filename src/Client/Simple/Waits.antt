-- ===== src/Client/Simple/Waits.antt =====
-- `wait_response` of atat/src/asynch/simple_client.rs ends, or comes to a read that gives nothing.
use mathlib.Core.Path.{subst}
use atat.Base.{
  ℕ, zero, suc, ◌+◌, ◌-◌, ◌≤◌, ◌<◌, ◌≡◌, refl, sym, ap, ◌∙◌, Bool-cases, inl, inr, Option, some,
  none, ◌++◌, ◌==◌, suc_plus, Bytes, length, take, drop, length-append, append-nil, [], ◌∷◌,
  length-take, length-drop, append_assoc, kept, Result, ok, err, arith,
}
use atat.Base.Outcome.{done, ◌>>=◌}
use atat.Error.{Error}
use atat.Response.{Response}
use atat.Client.Timer.{at_least_one}
use atat.Client.Simple.{SimpleClient, put_read, or_read_on, after_read, wait_response}
use atat.Client.Simple.Port.{Line, IsLine, Read, received}
use atat.Client.Simple.Receives.{Finds, Receives, unread, late, found, more, fruitless}
use atat.Client.Simple.Buffer.{waiting, digest_all-Digested}

no_bytes : (bs : Bytes) → length bs ≡ 0 → bs ≡ []
no_bytes [] h = refl
no_bytes (c ∷ cs) h = absurd (omega arith)

module _ (l : Line) where
  -- What a wait comes to: a result, with enough fuel, or a read that gives nothing, behind which no
  -- response is found, and from which it goes on in the same way.
  pub data Waits (deadline : ℕ) (c : SimpleClient l) (w : l.World) : Type 0 where
    ends :
        (fuel : ℕ) (t : SimpleClient l) (v : l.World) (r : Result Response Error)
        → Receives l deadline (length c.buf) c.digester (waiting l c) w (some r) (waiting l t) v
        → ((k : ℕ) → fuel ≤ k → wait_response l k deadline (c, w) ≡ done ((t, v), r))
        → Waits deadline c w
    jams :
        (fuel : ℕ) (t : SimpleClient l) (v : l.World)
        → Receives l deadline (length c.buf) c.digester (waiting l c) w none (waiting l t) v
        → ((k : ℕ) → wait_response l (fuel + k) deadline (c, w) ≡ wait_response l k deadline (t, v))
        → Waits deadline c w

  pub put_read-waiting :
      (bytes : Bytes) (c : SimpleClient l)
      → c.pos ≤ length c.buf
      → waiting l (put_read l bytes c) ≡ waiting l c ++ bytes
  unfolding put_read
  put_read-waiting bytes c fits =
      ap (take (c.pos + length bytes))
        (sym (append_assoc (waiting l c) bytes (drop (c.pos + length bytes) c.buf)))
      ∙ kept (c.pos + length bytes) (waiting l c ++ bytes) (drop (c.pos + length bytes) c.buf)
          (omega (arith, length-append (waiting l c) bytes, length-take c.pos c.buf))

  put_read-length :
      (bytes : Bytes) (c : SimpleClient l)
      → c.pos + length bytes ≤ length c.buf
      → length (put_read l bytes c).buf ≡ length c.buf
  unfolding put_read
  put_read-length bytes c fits = omega (
    arith,
    length-append (waiting l c) (bytes ++ drop (c.pos + length bytes) c.buf),
    length-append bytes (drop (c.pos + length bytes) c.buf),
    length-drop (c.pos + length bytes) c.buf,
    length-take c.pos c.buf,
  )

  -- The free part of the buffer.
  room :
      (c : SimpleClient l)
      → c.pos ≤ length c.buf
      → length (drop c.pos c.buf) ≡ length c.buf - length (waiting l c)
  room c fits = omega (arith, length-drop c.pos c.buf, length-take c.pos c.buf)

  -- The bytes that were read are digested, and it is read on where no response is found.
  behind-Waits :
      (deadline : ℕ) (c t : SimpleClient l) (w v : l.World) (bytes : Bytes) (k : ℕ)
      → l.read deadline (length c.buf - length (waiting l c)) w ≡ (received bytes, v)
      → Finds l c.digester (waiting l c ++ bytes) t.digester none k
      → waiting l t ≡ drop k (waiting l c ++ bytes)
      → length t.buf ≡ length c.buf
      → ((j : ℕ) → wait_response l (suc j) deadline (c, w) ≡ wait_response l j deadline (t, v))
      → Waits deadline t v
      → Waits deadline c w
  behind-Waits deadline c t w v bytes k reads finds rest size round
        (ends fuel u x r receives runs) =
      ends (suc fuel) u x r (more reads finds rest (rw (sym size) receives))
        (at_least_one (λ j. wait_response l j deadline (c, w)) _ fuel λ j le. round j ∙ runs j le)
  behind-Waits deadline c t w v bytes k reads finds rest size round (jams fuel u x receives runs) =
      jams (suc fuel) u x (more reads finds rest (rw (sym size) receives)) (λ j.
        ap (λ i. wait_response l i deadline (c, w)) (suc_plus fuel j) ∙ round (fuel + j) ∙ runs j)

  found-Waits :
      (deadline : ℕ) (c t : SimpleClient l) (w v : l.World) (bytes : Bytes) (o : Option Response)
      (k : ℕ)
      → l.read deadline (length c.buf - length (waiting l c)) w ≡ (received bytes, v)
      → Finds l c.digester (waiting l c ++ bytes) t.digester o k
      → waiting l t ≡ drop k (waiting l c ++ bytes)
      → length t.buf ≡ length c.buf
      → ((j : ℕ)
          → wait_response l (suc j) deadline (c, w)
            ≡ or_read_on l v (λ u. wait_response l j deadline (u, v)) (t, o))
      → Waits deadline t v
      → Waits deadline c w
  found-Waits deadline c t w v bytes (some r) k reads finds rest size round later =
      ends 1 t v (ok r) (found reads finds rest)
        (at_least_one (λ j. wait_response l j deadline (c, w)) _ 0 λ j le. round j)
  found-Waits deadline c t w v bytes none k reads finds rest size round later =
      behind-Waits deadline c t w v bytes k reads finds rest size round later

  -- A read gave nothing.
  fruitless-Waits :
      (deadline : ℕ) (c t : SimpleClient l) (w v : l.World) (bytes : Bytes) (o : Option Response)
      (k : ℕ)
      → bytes ≡ []
      → l.read deadline (length c.buf - length (waiting l c)) w ≡ (received bytes, v)
      → Finds l c.digester (waiting l c ++ bytes) t.digester o k
      → waiting l t ≡ drop k (waiting l c ++ bytes)
      → ((j : ℕ)
          → wait_response l (suc j) deadline (c, w)
            ≡ or_read_on l v (λ u. wait_response l j deadline (u, v)) (t, o))
      → Waits deadline c w
  fruitless-Waits deadline c t w v bytes (some r) k empty reads finds rest round =
      ends 1 t v (ok r) (found reads finds rest)
        (at_least_one (λ j. wait_response l j deadline (c, w)) _ 0 λ j le. round j)
  fruitless-Waits deadline c t w v bytes none k empty reads finds rest round =
      let same : waiting l c ++ bytes ≡ waiting l c =
        ap (λ b. waiting l c ++ b) empty ∙ append-nil (waiting l c) in
      jams 1 t v
        (fruitless (reads ∙ ap (λ b. (received b, v)) empty)
          (subst (λ input. Finds l c.digester input t.digester none k) same finds)
          (rest ∙ ap (drop k) same))
        (λ j.
          let one : 1 + j ≡ suc j = omega arith in
          ap (λ i. wait_response l i deadline (c, w)) one ∙ round j)

  module _ (laws : IsLine l) where
    read-Waits :
        (n deadline : ℕ) (c : SimpleClient l) (w : l.World) (x : Read × l.World)
        → ((t : SimpleClient l) (v : l.World)
            → laws.reads_left deadline v < n
            → t.pos ≤ length t.buf
            → length t.buf ≤ 256
            → Waits deadline t v)
        → laws.reads_left deadline w < suc n
        → c.pos ≤ length c.buf
        → length c.buf ≤ 256
        → l.read deadline (length (drop c.pos c.buf)) w ≡ x
        → Waits deadline c w
    unfolding wait_response put_read
    read-Waits n deadline c w (Read.failed, v) later patience fits small e =
        ends 1 c v (err Error.read) (unread (rw (sym (room c fits)) e)) (
          at_least_one (λ j. wait_response l j deadline (c, w)) _ 0 λ j le. ap (after_read l c _) e)
    read-Waits n deadline c w (Read.late, v) later patience fits small e =
        ends 1 c v (err Error.timeout) (late (rw (sym (room c fits)) e)) (
          at_least_one (λ j. wait_response l j deadline (c, w)) _ 0 λ j le. ap (after_read l c _) e)
    read-Waits n deadline c w (received bytes, v) later patience fits small e =
        let fit : length bytes ≤ length (drop c.pos c.buf) =
          laws.read_fits deadline _ w v bytes e in
        let whole : length (put_read l bytes c).buf ≡ length c.buf =
          put_read-length bytes c (omega (arith, length-drop c.pos c.buf)) in
        let h =
          digest_all-Digested l laws (c.pos + length bytes) (put_read l bytes c) (omega arith)
            (omega (arith, whole, length-drop c.pos c.buf)) (omega (arith, whole)) in
        let reads : l.read deadline (length c.buf - length (waiting l c)) w ≡ (received bytes, v) =
          rw (sym (room c fits)) e in
        let finds : Finds l c.digester (waiting l c ++ bytes) h.after.digester h.found h.taken =
          rw (sym (put_read-waiting bytes c fits)) h.finds in
        let rest : waiting l h.after ≡ drop h.taken (waiting l c ++ bytes) =
          h.remains ∙ ap (drop h.taken) (put_read-waiting bytes c fits) in
        let round : (j : ℕ)
            → wait_response l (suc j) deadline (c, w)
              ≡ or_read_on l v (λ t. wait_response l j deadline (t, v)) (h.after, h.found) =
          λ j.
            ap (after_read l c _) e
            ∙ ap (λ y. y >>= or_read_on l v λ t. wait_response l j deadline (t, v)) h.runs in
        elim (Bool-cases (length bytes == 0)) [
          | inl nothing ↦
              fruitless-Waits deadline c h.after w v bytes h.found h.taken
                (no_bytes bytes (ground arith)) reads finds rest round
          | inr some_read ↦
              let fewer : laws.reads_left deadline v < laws.reads_left deadline w =
                laws.reads_end deadline _ w v bytes e (ground arith) in
              found-Waits deadline c h.after w v bytes h.found h.taken reads finds rest
                (h.same_length ∙ whole) round
                (later h.after v (omega arith)
                  (omega (arith, h.left, h.same_length, whole, length-drop c.pos c.buf))
                  (omega (arith, h.same_length, whole)))
        ]

    bounded-Waits :
        (n deadline : ℕ) (c : SimpleClient l) (w : l.World)
        → laws.reads_left deadline w < n
        → c.pos ≤ length c.buf
        → length c.buf ≤ 256
        → Waits deadline c w
    bounded-Waits zero deadline c w patience fits small = absurd (omega arith)
    bounded-Waits (suc n) deadline c w patience fits small =
        read-Waits n deadline c w _ (λ t v fewer. bounded-Waits n deadline t v fewer) patience fits
          small refl

    -- With a lawful digester, a line that gives a byte at least in finitely many reads only before
    -- the deadline, and a buffer of at most 256 bytes in which the waiting bytes fit,
    -- `wait_response` of `SimpleClient` comes to this without a panic: with enough fuel it returns
    -- the first prompt or response that the digester finds in the waiting and the received bytes, as
    -- a response that converts back to what was found, with what is behind it left in the buffer, or
    -- the failure of a read, or `Timeout`; or it comes to a read that gives nothing, as at the end
    -- of the input or in a full buffer, behind which no response is found, and it goes on from
    -- there.
    pub wait_response-Waits :
        (deadline : ℕ) (c : SimpleClient l) (w : l.World)
        → c.pos ≤ length c.buf
        → length c.buf ≤ 256
        → Waits deadline c w
    wait_response-Waits deadline c w fits small =
        bounded-Waits (suc (laws.reads_left deadline w)) deadline c w (omega arith) fits small
