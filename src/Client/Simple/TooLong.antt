-- ===== src/Client/Simple/TooLong.antt =====
-- `wait_response` of atat/src/asynch/simple_client.rs, which copies a response into 256 bytes however long the
-- buffer is.
use atat.Base.{
  ℕ, zero, suc, ◌+◌, ◌≤◌, ◌<◌, ◌≡◌, refl, ap, ◌∙◌, false, ◌++◌, ◌==◌, Bytes, length, drop, Result,
  arith,
}
use atat.Base.Outcome.{done, panic, ◌>>=◌}
use atat.Digest.Types.{DigestResult}
use atat.Error.{InternalError}
use atat.Extern.Heapless.{IsHeapless}
use atat.Response.Conversion.{payload, response_from-panic}
use atat.Client.Simple.{
  SimpleClient, Waited, put_read, response_in, digest_all, or_read_on, after_read, wait_response,
}
use atat.Client.Simple.Port.{Line, received}
use atat.Client.Simple.Buffer.{waiting}
use atat.Client.Simple.Waits.{put_read-waiting}

module _ (l : Line) (heapless_laws : IsHeapless l.heapless) where
  digest_all-panic :
      (fuel : ℕ) (c : SimpleClient l) (d : l.Digester) (resp : Result Bytes InternalError) (k : ℕ)
      → c.pos ≤ fuel
      → 0 < c.pos
      → l.digest c.digester (waiting l c) ≡ done (d, (DigestResult.response resp, k))
      → 256 < length (payload resp)
      → digest_all l fuel c ≡ panic
  unfolding digest_all
  digest_all-panic zero c d resp k enough some_there e long = absurd (omega arith)
  digest_all-panic (suc fuel) c d resp k enough some_there e long =
      let more : (c.pos == 0) ≡ false = ground arith in
      let stops : response_in l (DigestResult.response resp) ≡ panic =
        rw (response_from-panic l.heapless heapless_laws 256 resp long) refl in
      rw (more, e, stops, digest_all) refl

  -- With a lawful `Vec::from_slice`, in a buffer of any length in which the waiting bytes fit, where
  -- a read gives a byte at least, and the digester finds a response that carries more than 256 bytes
  -- in what waits then, `wait_response` of `SimpleClient` panics.
  pub wait_response-panic :
      (fuel deadline : ℕ) (c : SimpleClient l) (w v : l.World) (bytes : Bytes) (d : l.Digester)
      (resp : Result Bytes InternalError) (k : ℕ)
      → c.pos ≤ length c.buf
      → 0 < length bytes
      → l.read deadline (length (drop c.pos c.buf)) w ≡ (received bytes, v)
      → l.digest c.digester (waiting l c ++ bytes) ≡ done (d, (DigestResult.response resp, k))
      → 256 < length (payload resp)
      → wait_response l (suc fuel) deadline (c, w) ≡ panic
  unfolding wait_response put_read
  wait_response-panic fuel deadline c w v bytes d resp k fits some_read reads e long =
      let go : Bytes → l.World → Waited l = λ bs u.
        digest_all l (c.pos + length bs) (put_read l bs c)
        >>= or_read_on l u λ t. wait_response l fuel deadline (t, u) in
      ap (after_read l c go) reads
      ∙ ap (λ x. x >>= or_read_on l v λ t. wait_response l fuel deadline (t, v))
          (digest_all-panic (c.pos + length bytes) (put_read l bytes c) d resp k (omega arith)
            (omega arith) (ap (l.digest c.digester) (put_read-waiting l bytes c fits) ∙ e) long)
