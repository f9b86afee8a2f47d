-- ===== src/Client/Async/Tests.antt =====
-- The async client of atat/src/asynch/client.rs, whose deadline is put off before the answer arrives.
use atat.Base.{
  ℕ, ◌+◌, ◌≡◌, refl, Bool, true, false, Option, none, some, Bytes, codes, leb, ltb, if◌then◌else◌,
  Result, ok, err,
}
use atat.Base.Outcome.{Outcome, done}
use atat.Error.{Error}
use atat.Extern.Sync.{flags}
use atat.Response.{ok_response, result_from}
use atat.ResponseSlot.{ResponseSlot, get, reset}
use atat.Client.{Client, Config, AtatCmd, new_config, with_get_response_timeout}
use atat.Client.Simple.Port.{finished}
use atat.Client.Async.{AsyncPlatform, State, send}

record Desk : Type 0 where
  time : ℕ
  shared : ResponseSlot flags

-- The answer arrives at 25.
abbrev arrive : Bool → ℕ → Desk → Desk
arrive true expires w = record {
  time = 25;
  shared = record {
    lock = w.shared.lock;
    contents = ok_response (codes "+CSQ: 9,99");
    flag = true;
  };
}
arrive false expires w = record w { time = w.time + expires }

abbrev desk : AsyncPlatform flags
desk = record {
  World = Desk;
  slot = λ w. w.shared;
  put_slot = λ s w. record w { shared = s };
  now = λ w. w.time;
  sleep_until = λ t w. w;
  write_all = λ duration bytes w. (finished, w);
  flush = λ duration w. (finished, w);
  select = λ expires w. arrive (leb 25 expires) expires w;
}

abbrev morning : Desk
morning = record {
  time = 0;
  shared = record { lock = false; contents = ok_response (codes "late"); flag = true };
}

abbrev csq : AtatCmd Bytes
csq = record {
  write = λ buf. done (codes "AT+CSQ\r", 7);
  parse = λ r. elim r [ ok bs ↦ ok bs | err e ↦ err Error.parse ];
  expects_response_code = true;
  max_timeout_ms = 10;
  attempts = 1;
}

-- The deadline is 10 at first, and 30 from then on.
abbrev put_off : Config Desk
put_off = with_get_response_timeout new_config λ start timeout w. if ltb w.time 5 then 10 else 30

abbrev client : Client Desk
client = record { buf = codes ""; cooldown_timer = some 0; config = put_off }

-- The answer that is returned is the one that arrived behind the request, after the first deadline.
sent_answer : Outcome (State flags desk × Result Bytes Error) → Option (Result Bytes Error)
sent_answer (done (s, r)) = some r
sent_answer _ = none

csq_answer : sent_answer (send flags desk csq 3 (client, morning)) ≡ some (ok (codes "+CSQ: 9,99"))
unfolding sent_answer send get reset result_from
csq_answer = refl
