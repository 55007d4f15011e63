-- ===== src/Select/Tests.antt =====
-- src/select.rs: a select of two cases, at concrete calls.
use mlua_isle.Base.{
  ℕ, ◌≡◌, refl, true, false, [], ◌∷◌, none, some, arith, update, List, get_elem?, ◌<◌,
}
use mlua_isle.Chan.{send_only, may_take, claimed, same_select, take_offer, mark_taken, claim}
use mlua_isle.Chan.Tests.{sample_env, chan_of, offering, sending}
use mlua_isle.Chan.Receive.{Receiving}
use mlua_isle.Chan.Receive
use mlua_isle.Chan.Send.{Sending}
use mlua_isle.Select.{
  World, Arm, recv, send, timer, SelectFuture, poll, poll_take, poll_arms, take_delivered,
  find_delivered, resolve, focus, unfocus, received, fired, wait_send, wait_select, sent,
}
use mlua_isle.Select
use mlua_isle.Hub.{Hub, next_select_turn}
use mlua_isle.Select.Cases.{
  Entry, case_table, timer_ud, chan_ud, function_field, Cases, no_default, read_cases, read_arms,
  read_case, read_handler, read_opts,
}
use mlua_isle.Select.Choices.{choice_has_handler, handler_at}
use mlua_isle.Select.Resolve.{HasChosen}
use mlua_isle.Select.Chosen.{poll-HasChosen, OthersLeft, choice_state}
use mlua_isle.Select.Waits.{wait_select-exact, AnswersCancel}

-- Channel 0 has an offer, the other channels are empty rendezvous channels.
abbrev pub world : World sample_env
world = record {
  chans = update (λ c. (chan_of 0).core) 0 offering.core;
  heap = offering.heap;
  now = 10;
  tasks = λ i. record { done = false; result = none; joined = false; known = true; wakers = [] };
}

abbrev waiting : Receiving
waiting = record { select = some 5; waiter = none }

abbrev late : Arm sample_env
late = timer 20 false

-- A receive on channel 1, which has no offer, and a timer that is not due.
abbrev patient : SelectFuture sample_env
patient = record { arms = recv 1 waiting ∷ late ∷ []; start = 1; mark = 5 }

-- A receive on channel 0, whose offer is open, and the timer.
abbrev eager : SelectFuture sample_env
eager = record { arms = late ∷ recv 0 waiting ∷ []; start = 0; mark = 5 }

-- A receive waits on channel 1, with the waiter 3.
abbrev waiting_world : World sample_env
waiting_world = record world {
  chans = update world.chans 1 (record ((chan_of 0).core) { waiters = 3 ∷ [] });
}

-- That receive, and the receive on channel 0.
abbrev pair : SelectFuture sample_env
pair = record {
  arms = recv 1 (record { select = some 5; waiter = some 3 }) ∷ recv 0 waiting ∷ [];
  start = 0;
  mark = 5;
}

poll-HasChosen_example :
    HasChosen 1 pair (poll pair 7 waiting_world).1 (poll pair 7 waiting_world).0
    × OthersLeft 1 (choice_state pair 7 waiting_world) (poll pair 7 waiting_world).0
unfolding poll poll_take poll_arms take_delivered find_delivered focus unfocus Receive.poll resolve
    Receive.poll_rendezvous Receive.poll_offers Receive.wait Receive.slot_of take_offer
    Select.delivered may_take claimed same_select mark_taken claim Select.recv_values
poll-HasChosen_example = poll-HasChosen pair 7 waiting_world 1 (received 9) (omega arith) refl

abbrev posted : Sending sample_env
posted = record sending { value = none; offer = some 0 }

-- The offer of channel 0 is taken.
abbrev taken_world : World sample_env
taken_world = record world { heap = mark_taken 0 world.heap }

-- The timer, and the send of that offer.
abbrev sent_select : SelectFuture sample_env
sent_select = record { arms = late ∷ send 0 posted ∷ []; start = 0; mark = 5 }

wait_select-exact_example :
    AnswersCancel sent_select taken_world (wait_select (some true) sent_select 7 taken_world)
wait_select-exact_example = wait_select-exact sent_select 7 taken_world

abbrev sample_hub : Hub
sample_hub = record {
  entries = [];
  next_id = 0;
  preempt_every = none;
  checks = 0;
  deferred = 0;
  select_turn = 5;
}

-- A timer that is due, and a receive on channel 1, each with a handler.
abbrev entries : List (Entry sample_env)
entries =
    case_table (record {
      kind = "timer";
      target = timer_ud 4;
      value = sample_env.nil;
      handler = function_field 3;
    })
    ∷ case_table (record {
      kind = "recv";
      target = chan_ud 1;
      value = sample_env.nil;
      handler = function_field 8;
    })
    ∷ []

abbrev select_mark : ℕ
select_mark = world.heap.next

abbrev cases : Cases sample_env
cases = record {
  arms = timer 4 false ∷ recv 1 (record { select = some select_mark; waiter = none }) ∷ [];
  mark = select_mark;
  handlers = 3 ∷ 8 ∷ [];
  default = no_default;
  start = 1;
}

abbrev select_of : SelectFuture sample_env
select_of = record { arms = timer 4 false ∷ late ∷ []; start = 1; mark = select_mark }

choice_has_handler_example :
    (1 < 2)
    × ((x : ℕ) × (get_elem? (3 ∷ 8 ∷ []) 0 ≡ some x)
        × (handler_at entries 0 ≡ some (function_field x)))
unfolding read_cases read_arms read_case read_handler read_opts next_select_turn poll poll_take
    poll_arms take_delivered find_delivered resolve Select.delivered Receive.new send_only
choice_has_handler_example =
    choice_has_handler sample_env (λ n. "n") "task.select" entries none sample_hub world cases
      select_of 7 0 world fired refl refl (omega arith) refl
