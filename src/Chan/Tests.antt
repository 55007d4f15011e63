-- ===== src/Chan/Tests.antt =====
-- src/chan.rs: channels of numbers, at concrete calls.
use mlua_isle.Base.{
  ℕ, zero, suc, ◌+◌, ◌-◌, ◌≡◌, ◌≤◌, ◌<◌, refl, true, false, String, List, [], ◌∷◌, ◌++◌, Option,
  none, some, ok, Poll, ready, pending, inl, count, length, arith, update,
}
use mlua_isle.Tokio.{Env, TryItem, item, empty, TryReserve, permit, full}
use mlua_isle.Chan.{
  Chan, Heap, offered, take_offer, may_take, claimed, same_select, get_or, may_fill,
}
use mlua_isle.Chan.Ops.{poll_recv, poll_send}
use mlua_isle.Chan.Receive.{Receiving}
use mlua_isle.Chan.Receive
use mlua_isle.Chan.Send.{Sending, delivered}
use mlua_isle.Chan.Send
use mlua_isle.Chan.Trace.{Op, recv, send, shut, exec, run, received}
use mlua_isle.Chan.Quiet.{IsQuiet, poll_recv-IsQuiet, poll_send-IsQuiet}
use mlua_isle.Chan.Wakeups.{receiver_woken, sender_woken}
use mlua_isle.Chan.Fifo.{run_fifo, run-IsBounded}
use mlua_isle.Chan.Rendezvous.{IsFormed, weigh, weigh_opt, weigh_list}
use mlua_isle.Chan.Conserve.{weigh-receive_rendezvous}
use mlua_isle.Chan.Deliver.{weigh-send_rendezvous}
use mlua_isle.Chan.Exclusive.{IsFirst, take_offer-IsFirst}
use mlua_isle.Chan.Parties.{
  Move, receives, leaves, sends, retracts, shuts, act_all, act_all-IsFormed,
}

abbrev take_item : List ℕ → List ℕ × TryItem ℕ
take_item [] = ([], empty)
take_item (v ∷ vs) = (vs, item v)

abbrev poll_item : List ℕ → List ℕ × Poll (Option ℕ)
poll_item [] = ([], pending)
poll_item (v ∷ vs) = (vs, ready (some v))

abbrev take_room : ℕ → ℕ × TryReserve
take_room free = elim free [ zero ↦ (0, full) | suc n ↦ (n, permit) ]

-- Numbers as values; a host's receiver is its queue, a host's sender the room that it has.
abbrev pub sample_env : Env
sample_env = record {
  Value = ℕ;
  nil = 0;
  Failure = String;
  runtime = λ s. s;
  cancel_error = "cancelled";
  Item = ℕ;
  into_lua = λ v. ok v;
  from_lua = λ v. ok v;
  Rx = List ℕ;
  poll_recv = poll_item;
  try_recv = take_item;
  close_rx = λ r. r;
  rx_is_closed = λ r. false;
  rx_len = length;
  rx_capacity = λ r. 8;
  Tx = ℕ;
  Ticket = ℕ;
  try_reserve = take_room;
  reserve = λ t. (t, 0);
  poll_reserve = λ t k w. (t - 1, ready true);
  drop_ticket = λ t k. t;
  send_permit = λ t v. t;
  drop_permit = λ t. t + 1;
  drop_sender = λ t. t;
  tx_is_closed = λ t. false;
  tx_free = λ t. t;
  tx_capacity = λ t. 8;
}

abbrev pub empty_heap : Heap sample_env
empty_heap = record {
  offer_at = λ a. record { value = none; state = offered; waker = 0; select = none };
  waiter_at = λ a. record { slot = none; waker = 0; select = none };
  claimed_at = λ m. false;
  waker_at = λ a. 0;
  next = 0;
  woken = [];
}

abbrev pub chan_of : ℕ → Chan sample_env
chan_of cap = record {
  core = record {
    buf = [];
    cap = cap;
    closed = false;
    recv_wakers = [];
    send_wakers = [];
    source = none;
    offers = [];
    waiters = [];
    ticker = false;
    sink = none;
    sink_waiters = [];
  };
  heap = empty_heap;
}

fresh-IsQuiet : (cap : ℕ) → IsQuiet (chan_of cap)
fresh-IsQuiet cap = record { receivers = λ e n. absurd (n refl); senders = λ n. absurd (n refl) }

-- Task 7 waits for a value.
abbrev waited_for : Chan sample_env
waited_for = (poll_recv 7 (chan_of 1)).0

receiver_woken_example : count 7 waited_for.woken < count 7 (run (send 3 5 ∷ []) waited_for).0.woken
unfolding poll_recv poll_send exec run
receiver_woken_example =
    receiver_woken 7 (send 3 5 ∷ []) waited_for (poll_recv-IsQuiet 7 (chan_of 1) (fresh-IsQuiet 1))
      refl (omega arith) (inl cc)

-- The channel is full, and task 8 waits for room.
abbrev filled_up : Chan sample_env
filled_up = (poll_send 8 (some 6) (poll_send 8 (some 5) (chan_of 1)).0).0

sender_woken_example : count 8 filled_up.woken < count 8 (run (recv 7 ∷ []) filled_up).0.woken
unfolding poll_recv poll_send exec run
sender_woken_example =
    sender_woken 8 (recv 7 ∷ []) filled_up
      (poll_send-IsQuiet 8 (some 6) (poll_send 8 (some 5) (chan_of 1)).0
        (poll_send-IsQuiet 8 (some 5) (chan_of 1) (fresh-IsQuiet 1)))
      (omega arith) (inl (omega arith))

-- Two sends, one receive and a close.
abbrev traffic : List (Op sample_env)
traffic = send 1 5 ∷ send 2 6 ∷ recv 3 ∷ shut ∷ []

run_fifo_example : let (t, rs, vs) = run traffic (chan_of 2) in rs ++ t.buf ≡ vs
run_fifo_example =
    run_fifo traffic (chan_of 2) (record { no_source = refl; no_sink = refl; room = omega arith })
      (tt, (tt, (tt, (tt, tt))))

run-IsBounded_example : length (run traffic (chan_of 2)).0.buf ≤ (run traffic (chan_of 2)).0.cap
run-IsBounded_example =
    run-IsBounded traffic (chan_of 2) (tt, (tt, (tt, (tt, tt)))) (omega arith) (omega arith)

-- The value 5 is queued.
abbrev one_queued : Chan sample_env
one_queued = record (chan_of 2) { core = record ((chan_of 2).core) { buf = 5 ∷ [] } }

-- A sender offers 9 at address 0 of a rendezvous channel.
abbrev pub offering : Chan sample_env
offering = record {
  core = record ((chan_of 0).core) { offers = 0 ∷ [] };
  heap = record empty_heap {
    offer_at =
        update empty_heap.offer_at 0
          (record { value = some 9; state = offered; waker = 4; select = some 2 });
    next = 1;
  };
}

offering-IsFormed : IsFormed offering
offering-IsFormed = record {
  offers_once = λ a. ground arith;
  offers_used = λ a l. ground arith;
  offers_open = λ a c. ground arith;
  offers_full = λ a c. ground arith;
  waiters_once = λ a. omega arith;
  waiters_used = λ a l. refl;
}

abbrev plain : Receiving
plain = record { select = none; waiter = none }

weigh-receive_rendezvous_example :
    let (t, r, out) = Receive.poll_rendezvous plain 7 offering in
    weigh (λ v. v) t + weigh_list (λ v. v) (received out) ≡ weigh (λ v. v) offering
weigh-receive_rendezvous_example =
    weigh-receive_rendezvous (λ v. v) plain 7 offering offering-IsFormed tt

-- A receiver waits at address 1, and a sender left 9 in its slot.
abbrev slot_filled : Chan sample_env
slot_filled = record {
  core = record ((chan_of 0).core) { waiters = 1 ∷ [] };
  heap = record empty_heap {
    waiter_at = update empty_heap.waiter_at 1 (record { slot = some 9; waker = 4; select = none });
    next = 2;
  };
}

abbrev pub sending : Sending sample_env
sending = record {
  value = some 3;
  select = none;
  offer = none;
  eager = false;
  reserve = none;
  sink_wait = none;
}

weigh-send_rendezvous_example :
    let (t, d, out) = Send.poll_rendezvous sending 7 offering in
    weigh (λ v. v) t + weigh_opt (λ v. v) d.value ≡ weigh (λ v. v) offering + 3
weigh-send_rendezvous_example = weigh-send_rendezvous (λ v. v) sending 7 offering offering-IsFormed

take_offer-IsFirst_example :
    let t = (take_offer none offering).0 in
    (a : ℕ) × IsFirst (may_take offering.heap none) a offering.offers
    × (get_or (offering.offer_at a).value 0 ≡ 9)
    × ((d : Sending sample_env) (w : ℕ)
        → d.offer ≡ some a
        → (delivered d t ≡ true) × ((Send.poll_rendezvous d w t).2 ≡ ready (ok tt)))
    × ((me' : Option ℕ) (m b : ℕ)
        → (offering.offer_at a).select ≡ some m
        → ((t.offer_at b).select ≡ some m → may_take t.heap me' b ≡ false)
          × ((t.waiter_at b).select ≡ some m → may_fill t.heap me' b ≡ false))
unfolding take_offer may_take claimed same_select
take_offer-IsFirst_example = take_offer-IsFirst none offering 9 refl

-- A receive takes the offer, a send offers 3, a receive and a send are dropped, and the channel
-- closes.
abbrev moves : List (Move sample_env)
moves = receives plain 7 ∷ sends sending 8 ∷ leaves plain ∷ retracts sending ∷ shuts ∷ []

act_all-IsFormed_example : IsFormed (act_all moves offering)
act_all-IsFormed_example =
    act_all-IsFormed moves offering (tt, ((λ e. refl), (tt, (tt, (tt, tt))))) offering-IsFormed
