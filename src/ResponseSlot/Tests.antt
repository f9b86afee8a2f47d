-- ===== src/ResponseSlot/Tests.antt =====
-- The response slot of atat/src/response_slot.rs at inputs.
use atat.Base.{◌≡◌, refl, Bytes, codes, true, false, Result, ok, err, arith}
use atat.Base.Outcome.{done, panic}
use atat.Error.{InternalError}
use atat.Error.Cme.{CmeError}
use atat.Extern.Heapless
use atat.Extern.Sync.{flags, flags-IsSync}
use atat.Response.{Response, prompt, response_from, result_from}
use atat.Response.Conversion.{result_from-response_from}
use atat.ResponseSlot.{
  ResponseSlot, slot_in_use, guard, get, try_get, signal_prompt, signal_response,
}
use atat.ResponseSlot.Exchange.{
  Delivered, signal_response-Delivered, signal_prompt-Delivered, signal_in_use, try_get-signaled,
  get-then_signal,
}

abbrev quiet : ResponseSlot flags
quiet = record { lock = false; contents = prompt b'>'; flag = false }

abbrev waiting : ResponseSlot flags
waiting = record { lock = false; contents = prompt b'>'; flag = true }

abbrev answer : Result Bytes InternalError
answer = ok (codes "+CSQ: 99,99")

signal_response-Delivered_example :
    (t : ResponseSlot flags) × (x : Response) × (signal_response flags Heapless.reference 16 answer
        quiet
      ≡ done (t, ok tt))
    × Delivered flags x t
    × (result_from x ≡ answer)
signal_response-Delivered_example =
    signal_response-Delivered flags flags-IsSync Heapless.reference 16 answer quiet
      Heapless.reference-IsHeapless (omega arith) refl refl

prompt_in_quiet :
    (t : ResponseSlot flags) × (signal_prompt flags b'@' quiet ≡ done (t, ok tt))
    × Delivered flags (prompt b'@') t
prompt_in_quiet = signal_prompt-Delivered flags flags-IsSync b'@' quiet refl refl

in_use_while_waiting :
    (signal_prompt flags b'@' waiting ≡ done (waiting, err slot_in_use))
    × (signal_response flags Heapless.reference 16 answer waiting ≡ done (waiting, err slot_in_use))
in_use_while_waiting =
    signal_in_use flags flags-IsSync Heapless.reference 16 b'@' answer waiting refl

signaled_while_waiting :
    (t : ResponseSlot flags) × (try_get flags waiting ≡ done (guard t))
    × (t.contents ≡ prompt b'>')
    × (t.flag ≡ true)
    × (t.lock ≡ true)
signaled_while_waiting = try_get-signaled flags flags-IsSync waiting refl refl

get-then_signal_example :
    (t : ResponseSlot flags) × (get flags waiting ≡ done (guard t))
    × (t.contents ≡ prompt b'>')
    × (signal_prompt flags b'@' t ≡ panic)
    × (signal_response flags Heapless.reference 16 answer t ≡ panic)
get-then_signal_example =
    get-then_signal flags flags-IsSync Heapless.reference 16 b'@' answer waiting refl refl

result_from-response_from_example :
    (s : Response) × (response_from Heapless.reference 4
        (err (InternalError.cme_error CmeError.area_not_allowed))
      ≡ done s)
    × (result_from s ≡ err (InternalError.cme_error CmeError.area_not_allowed))
result_from-response_from_example =
    result_from-response_from Heapless.reference Heapless.reference-IsHeapless 4
      (err (InternalError.cme_error CmeError.area_not_allowed)) (omega arith)
