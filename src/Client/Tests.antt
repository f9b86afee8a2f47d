-- ===== src/Client/Tests.antt =====
-- The blocking client of atat/src/blocking/ on a world whose clock goes on by a millisecond at every
-- look, and in which an answer arrives when it shows 25, behind the first deadline.
use atat.Base.{
  inl, inr, ℕ, zero, suc, ◌+◌, ◌≡◌, refl, ◌∙◌, Bool, true, false, Option, some, none, [], ◌++◌,
  Bytes, codes, ◌==◌, ltb, if◌then◌else◌, Result, ok, err, arith,
}
use atat.Base.Outcome.{Outcome, done}
use atat.Error.{Error, InternalError}
use atat.Extern.Sync.{flags, flags-IsSync}
use atat.Response.{ok_response, result_from}
use atat.ResponseSlot.{ResponseSlot, try_get, reset}
use atat.Client.{
  Client, Config, AtatCmd, State, new_config, with_get_response_timeout, send, poll, timer_wait,
}
use atat.Client.Surroundings.{Platform, IsPlatform, ticks}
use atat.Client.Retry.{TimesOut, send_retry, send_retry-TimesOut}
use atat.Client.AsyncRetry.{
  Repeats, Fails, async_send_retry, async_send_retry-first, async_send_retry-Fails,
}
use atat.Client.Timer.{Ends, Passes, timer_wait-Ends}

record Bench : Type 0 where
  time : ℕ
  shared : ResponseSlot flags
  line : Bytes

abbrev deliver : Bool → ResponseSlot flags → ResponseSlot flags
deliver true s = record { lock = s.lock; contents = ok_response (codes "+CSQ: 9,99"); flag = true }
deliver false s = s

abbrev bench : Platform flags
bench = record {
  World = Bench;
  slot = λ w. w.shared;
  put_slot = λ s w. record w { shared = s };
  now = λ w. (w.time, record w { time = suc w.time; shared = deliver (w.time == 25) w.shared });
  write_all = λ bytes w. (true, record w { line = w.line ++ bytes });
  flush = λ w. (true, w);
}

deliver-lock : (b : Bool) (s : ResponseSlot flags) → (deliver b s).lock ≡ s.lock
deliver-lock true s = refl
deliver-lock false s = refl

ticks-time : (k : ℕ) (w : Bench) → (ticks bench k w).time ≡ w.time + k
ticks-time zero w = omega arith
ticks-time (suc k) w = omega (arith, ticks-time k (bench.now w).1)

bench-IsPlatform : IsPlatform bench
bench-IsPlatform = record {
  now_reaches = λ t w. (t, omega (arith, ticks-time t w));
  slot-put_slot = λ s w. refl;
  now_unlocked = λ w free. deliver-lock (w.time == 25) w.shared ∙ free;
  write_all_unlocked = λ bytes w free. free;
  flush_unlocked = λ w free. free;
}

-- The answer to the command before, which came too late, is in the slot.
abbrev begin : Bench
begin = record {
  time = 7;
  shared = record { lock = false; contents = ok_response (codes "late"); flag = true };
  line = [];
}

abbrev parse_any : Result Bytes InternalError → Result Bytes Error
parse_any (ok bs) = ok bs
parse_any (err e) = err Error.parse

abbrev csq : AtatCmd Bytes
csq = record {
  write = λ buf. done (codes "AT+CSQ\r", 7);
  parse = parse_any;
  expects_response_code = true;
  max_timeout_ms = 1000;
  attempts = 3;
}

-- The deadline is 22 at first, and 30 from 18 on.
abbrev put_off : Config Bench
put_off = with_get_response_timeout new_config λ start timeout w. if ltb w.time 18 then 22 else 30

abbrev client : Client Bench
client = record { buf = []; cooldown_timer = some 12; config = put_off }

wait_at_bench :
    (v : Bench) × Passes flags flags-IsSync bench bench-IsPlatform 12 begin v
    × Ends (λ fuel. timer_wait flags bench fuel 12 begin) v
wait_at_bench = timer_wait-Ends flags flags-IsSync bench bench-IsPlatform 12 begin

-- The answer that is returned is the one that arrived behind the request.
sent_answer : (Outcome (State flags bench × Result Bytes Error)) → Option (Result Bytes Error)
sent_answer (done (s, r)) = some r
sent_answer _ = none

csq_answer : sent_answer (send flags bench csq 100 (client, begin)) ≡ some (ok (codes "+CSQ: 9,99"))
unfolding sent_answer send poll try_get reset result_from
csq_answer = refl

-- A device that answers from the third attempt on; the state counts the attempts.
abbrev third : ℕ → Outcome (ℕ × Result Bytes Error)
third zero = done (1, err Error.timeout)
third (suc zero) = done (2, err Error.timeout)
third (suc (suc n)) = done (suc (suc (suc n)), ok [])

send_retry-TimesOut_example : send_retry third 2 0 ≡ done (2, err Error.timeout)
send_retry-TimesOut_example =
    send_retry-TimesOut third 2 0 2
      (TimesOut.once_more refl (TimesOut.once_more refl TimesOut.no_more))

-- The same device where it is sent to by the async client, with answers that do not parse at first.
abbrev garbled : ℕ → Outcome (ℕ × Result Bytes Error)
garbled zero = done (1, err Error.parse)
garbled (suc zero) = done (2, err Error.timeout)
garbled (suc (suc n)) = done (suc (suc (suc n)), ok [])

not_repeated : ¬ Repeats {R = Bytes} true (ok [])
not_repeated (inl h) = absurd cc
not_repeated (inr h) = absurd cc

async_send_retry-first_example : async_send_retry true garbled 3 0 ≡ done (3, ok [])
async_send_retry-first_example =
    async_send_retry-first true garbled 3 2 0 2 3 (ok []) (omega arith)
      (Fails.once_more refl (inr (refl, refl)) (Fails.once_more refl (inl refl) Fails.no_more)) refl
      not_repeated

async_send_retry-Fails_example : async_send_retry true garbled 2 0 ≡ done (2, err Error.timeout)
async_send_retry-Fails_example =
    async_send_retry-Fails true garbled 2 0 2
      (Fails.once_more refl (inr (refl, refl)) (Fails.once_more refl (inl refl) Fails.no_more))
