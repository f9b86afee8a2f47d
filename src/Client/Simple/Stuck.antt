-- ===== src/Client/Simple/Stuck.antt =====
-- `wait_response` of atat/src/asynch/simple_client.rs on a buffer that is full of bytes without a message.
use atat.Base.{
  ℕ, zero, suc, ◌+◌, ◌≤◌, ◌≡◌, refl, ap, ◌∙◌, Bool-cases, inl, inr, none, [], ◌++◌, ◌==◌, Bytes,
  length, take, drop, length-drop, take-append-drop, if_true, arith,
}
use atat.Base.Outcome.{done, out_of_fuel, ◌>>=◌}
use atat.Digest.Types.{DigestResult}
use atat.Client.Simple.{
  SimpleClient, Waited, put_read, digest_all, or_read_on, after_read, wait_response,
}
use atat.Client.Simple.Port.{Line, received}
use atat.Client.Simple.Buffer.{waiting}

plus_zero : (k : ℕ) → k + 0 ≡ k
plus_zero k = omega arith

module _ (l : Line) where
  -- A read into an empty buffer returns at once, with nothing.
  abbrev pub ReadsNothing : Type 0
  ReadsNothing =
      (deadline : ℕ) (w : l.World) → (v : l.World) × (l.read deadline 0 w ≡ (received [], v))

  -- The buffer is full, and the digester finds nothing in it, takes nothing and stays as it is.
  pub record IsStuck (c : SimpleClient l) : Type 0 where
    pub full : c.pos ≡ length c.buf
    pub finds_nothing :
        l.digest c.digester (waiting l c) ≡ done (c.digester, (DigestResult.nothing, 0))

  digest_all-IsStuck :
      (fuel : ℕ) (c : SimpleClient l)
      → c.pos ≤ fuel
      → IsStuck c
      → digest_all l fuel c ≡ done (c, none)
  unfolding digest_all
  digest_all-IsStuck zero c le h = if_true (c.pos == 0) _ _ (ground arith)
  digest_all-IsStuck (suc fuel) c le h = elim (Bool-cases (c.pos == 0)) [
    | inl empty ↦ rw (empty, digest_all) refl
    | inr more ↦ rw (more, h.finds_nothing, digest_all) refl
  ]

  put_read-nil : (c : SimpleClient l) → put_read l [] c ≡ c
  unfolding put_read
  put_read-nil c =
      ap (λ k. record c { buf = take c.pos c.buf ++ drop k c.buf; pos = k }) (plus_zero c.pos)
      ∙ ap (λ b. record c { buf = b }) (take-append-drop c.pos c.buf)

  -- Where a read into an empty buffer returns at once with nothing, on a buffer that is full of
  -- bytes in which the digester finds nothing and takes nothing, `wait_response` of `SimpleClient`
  -- does not return with any number of rounds, not even when the deadline has passed.
  pub wait_response-IsStuck :
      (fuel deadline : ℕ) (c : SimpleClient l) (w : l.World)
      → ReadsNothing
      → IsStuck c
      → wait_response l fuel deadline (c, w) ≡ out_of_fuel
  unfolding wait_response
  wait_response-IsStuck zero deadline c w law h = refl
  wait_response-IsStuck (suc fuel) deadline c w law h =
      let (v, reads) = law deadline w in
      let no_room : length (drop c.pos c.buf) ≡ 0 =
        omega (arith, length-drop c.pos c.buf, h.full) in
      let go : Bytes → l.World → Waited l = λ bytes u.
        digest_all l (c.pos + length bytes) (put_read l bytes c)
        >>= or_read_on l u λ t. wait_response l fuel deadline (t, u) in
      ap (λ room. after_read l c go (l.read deadline room w)) no_room
      ∙ ap (after_read l c go) reads
      ∙ ap
          (λ x.
            digest_all l (c.pos + 0) x >>= or_read_on l v λ t. wait_response l fuel deadline (t, v))
          (put_read-nil c)
      ∙ ap (λ x. x >>= or_read_on l v λ t. wait_response l fuel deadline (t, v))
          (digest_all-IsStuck (c.pos + 0) c (omega arith) h)
      ∙ wait_response-IsStuck fuel deadline c v law h
