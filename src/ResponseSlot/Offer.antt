-- ===== src/ResponseSlot/Offer.antt =====
-- An answer that is offered to a response slot: an idle slot takes it, a slot in use drops it.
use atat.Base.{
  ℕ, ◌≤◌, ◌≡◌, refl, Bytes, Bool, true, false, Option, some, none, [], Result, ok, err, length,
  Bool-cases, inl, inr,
}
use atat.Base.Outcome.{Outcome, done}
use atat.Error.{InternalError}
use atat.Extern.Heapless.{Heapless, IsHeapless}
use atat.Extern.Sync.{Sync, IsSync}
use atat.Response.{Response, result_from}
use atat.Response.Conversion.{payload}
use atat.ResponseSlot.Exchange.{
  Delivered, signal_prompt-Delivered, signal_response-Delivered, signal_in_use,
}
use atat.ResponseSlot.{
  ResponseSlot, SlotInUseError, Signalled, slot_in_use, signal_prompt, signal_response,
}

pub data Answer : Type 0 where
  prompt : ℕ → Answer
  response : Result Bytes InternalError → Answer

module _ (y : Sync) where
  -- The slot `t` that a slot `s` becomes when an answer, if any, is offered to it; the flag is whether
  -- another answer waits in `s`.
  abbrev pub Offered : Bool → Option Answer → ResponseSlot y → ResponseSlot y → Type 0
  Offered true o s t = t ≡ s
  Offered false none s t = t ≡ s
  Offered false (some (prompt c)) s t = Delivered y (Response.prompt c) t
  Offered false (some (response r)) s t = (x : Response) × (result_from x ≡ r) × Delivered y x t

  -- A run of one of the `signal_*` that offers `o`.
  pub record Offers (o : Option Answer) (s : ResponseSlot y) (run : Outcome (Signalled y))
      : Type 0 where
    pub after : ResponseSlot y
    pub status : Result (Unit {0}) SlotInUseError
    pub runs : run ≡ done (after, status)
    pub offered : Offered (y.signaled s.flag) o s after
    pub unlocked : y.locked after.lock ≡ false

module _ (y : Sync) (laws : IsSync y) (h : Heapless) (n : ℕ) (s : ResponseSlot y)
    (free : y.locked s.lock ≡ false) where
  pub offer_prompt : (c : ℕ) → Offers y (some (prompt c)) s (signal_prompt y c s)
  offer_prompt c = elim (Bool-cases (y.signaled s.flag)) [
    | inl waiting ↦ record {
      after = s;
      status = err slot_in_use;
      runs = (signal_in_use y laws h n c (ok []) s waiting).0;
      offered = rw waiting refl;
      unlocked = free;
    }
    | inr quiet ↦
        let (t, runs, held) = signal_prompt-Delivered y laws c s quiet free in
        record {
          after = t;
          status = ok tt;
          runs = runs;
          offered = rw quiet held;
          unlocked = held.2;
        }
  ]

  pub offer_response :
      (r : Result Bytes InternalError)
      → IsHeapless h
      → length (payload r) ≤ n
      → Offers y (some (response r)) s (signal_response y h n r s)
  offer_response r hl fits = elim (Bool-cases (y.signaled s.flag)) [
    | inl waiting ↦ record {
      after = s;
      status = err slot_in_use;
      runs = (signal_in_use y laws h n 0 r s waiting).1;
      offered = rw waiting refl;
      unlocked = free;
    }
    | inr quiet ↦
        let (t, x, runs, held, back) =
          signal_response-Delivered y laws h n r s hl fits quiet free in
        record {
          after = t;
          status = ok tt;
          runs = runs;
          offered = rw quiet (x, back, held);
          unlocked = held.2;
        }
  ]
