-- ===== src/Select.antt =====
-- src/select.rs: the cases of a select and the future that polls them. Channels and tasks are named
-- by numbers; time is a number too, and a timer is its deadline.
pub mod Rounds
pub mod Queues
pub mod Left
pub mod Resolve
pub mod Chosen
pub mod Waits
pub mod Cases
pub mod Choices
pub mod Tests
use mlua_isle.Base.{
  ℕ, zero, suc, ◌+◌, ◌%◌, Bool, true, false, ◌&&◌, not, List, [], ◌∷◌, ◌++◌, map, Option, none,
  some, Result, ok, err, Poll, ready, pending, map_poll, ◌==◌, if◌then◌else◌, update, length,
  get_elem?, set, leb, String,
}
use mlua_isle.Tokio.{Env}
use mlua_isle.Chan.{remove_first, Chan, ChanCore, Heap, claim}
use mlua_isle.Chan.Ops.{Closed, closed_channel, Received, unrecv}
use mlua_isle.Chan.Receive.{Receiving}
use mlua_isle.Chan.Receive
use mlua_isle.Chan.Send.{Sending, Sent}
use mlua_isle.Chan.Send

-- A `task.spawn` task with its handle: `joined` is the handle's `_joined`, `known` whether the
-- registry has the task, `wakers` the waits for its end that are registered, by their wakers.
pub record Task (E : Env) : Type 0 where
  pub done : Bool
  pub result : Option (List E.Value)
  pub joined : Bool
  pub known : Bool
  pub wakers : List ℕ

pub record World (E : Env) : Type 0 where
  pub chans : ℕ → ChanCore E
  pub heap : Heap E
  pub now : ℕ
  pub tasks : ℕ → Task E

-- The values of a case: `v, true`, `nil, false`, `true` or `false`, none, and those of `join`, which
-- for a cancelled task are `false, task.CANCELLED`.
pub data Values (E : Env) : Type 0 where
  received : E.Value → Values E
  ended : Values E
  sent : Bool → Values E
  fired : Values E
  joined_with : List E.Value → Values E
  joined_cancelled : Values E

-- `waiting` is `wait`, by the waker with which it is registered.
pub record TaskArm (E : Env) : Type 0 where
  pub id : ℕ
  pub waiting : Option ℕ
  pub taken : Option (Option (List E.Value))

pub data Arm (E : Env) : Type 0 where
  recv : ℕ → Receiving → Arm E
  send : ℕ → Sending E → Arm E
  timer : ℕ → Bool → Arm E
  task : TaskArm E → Arm E

-- The wait is dropped, and leaves the list.
abbrev pub stop_waiting : Option ℕ → List ℕ → List ℕ
stop_waiting none ws = ws
stop_waiting (some k) ws = remove_first (λ x. x == k) ws

-- A wait that is polled: a new one joins the list, and one that is there takes the new waker.
abbrev pub keep_waiting : Option ℕ → ℕ → List ℕ → List ℕ
keep_waiting none k ws = ws ++ k ∷ []
keep_waiting (some old) k [] = k ∷ []
keep_waiting (some old) k (x ∷ ws) = if x == old then k ∷ ws else x ∷ keep_waiting (some old) k ws

module _ {E : Env} where
  -- One channel with the heap, and the world after a change of them.
  unfoldable pub focus : ℕ → World E → Chan E
  focus c w = record { core = w.chans c; heap = w.heap }

  unfoldable pub unfocus : ℕ → Chan E → World E → World E
  unfocus c s w = record w { chans = update w.chans c s.core; heap = s.heap }

  unfoldable pub recv_values : Option E.Value → Values E
  recv_values (some v) = received v
  recv_values none = ended

  unfoldable pub set_task : ℕ → Task E → World E → World E
  set_task i t w = record w { tasks = update w.tasks i t }

  abbrev pub join_values : Option (List E.Value) → Values E
  join_values (some vs) = joined_with vs
  join_values none = joined_cancelled

  -- `TaskArm::join`.
  unfoldable pub join : TaskArm E → World E → World E × TaskArm E × Result (Values E) E.Failure
  unfolding set_task
  join a w =
      let t = w.tasks a.id in
      if t.joined then (w, a, err (E.runtime "task already joined")) else (
        set_task a.id (record t { joined = true; known = false; result = none }) w,
        record a { taken = some t.result },
        ok (join_values t.result),
      )

  -- `TaskArm::poll_take`, which keeps one wait.
  unfoldable pub poll_task :
      TaskArm E → ℕ → World E → World E × TaskArm E × Poll (Result (Values E) E.Failure)
  unfolding set_task
  poll_task a k w =
      let t = w.tasks a.id in
      if t.done
      then (let (w', a', out) = join (record a { waiting = none }) w in (w', a', ready out))
      else (
        set_task a.id (record t { wakers = keep_waiting a.waiting k t.wakers }) w,
        record a { waiting = some k },
        pending,
      )

  abbrev pub map_received : Received E → Result (Values E) E.Failure
  map_received (ok got) = ok (recv_values got)
  map_received (err e) = err e

  abbrev pub map_sent : Result Sent E.Failure → Result (Values E) E.Failure
  map_sent (ok (ok u)) = ok (sent true)
  map_sent (ok (err c)) = ok (sent false)
  map_sent (err e) = err e

  -- `Arm::poll_take`, for the task `k`.
  unfoldable pub poll_take :
      Arm E → ℕ → World E → World E × Arm E × Poll (Result (Values E) E.Failure)
  unfolding focus unfocus
  poll_take (recv c r) k w =
      let (s, r', out) = Receive.poll r k (focus c w) in
      (unfocus c s w, recv c r', map_poll map_received out)
  poll_take (send c d) k w =
      let (s, d', out) = Send.poll d k (focus c w) in
      (unfocus c s w, send c d', map_poll map_sent out)
  poll_take (timer deadline asleep) k w =
      if leb deadline w.now
      then (w, timer deadline asleep, ready (ok fired))
      else (w, timer deadline true, pending)
  poll_take (task a) k w = let (w', a', out) = poll_task a k w in (w', task a', out)

  unfoldable pub delivered : Arm E → World E → Bool
  delivered (send c d) w = Send.delivered d (focus c w)
  delivered (recv c r) w = false
  delivered (timer t a) w = false
  delivered (task a) w = false

  unfoldable pub withdraw : Arm E → World E → World E × Arm E
  unfolding focus unfocus set_task
  withdraw (recv c r) w = let (s, r') = Receive.withdraw r (focus c w) in (unfocus c s w, recv c r')
  withdraw (send c d) w = let (s, d') = Send.withdraw d (focus c w) in (unfocus c s w, send c d')
  withdraw (timer t a) w = (w, timer t a)
  withdraw (task a) w =
      let t = w.tasks a.id in
      (
        set_task a.id (record t { wakers = stop_waiting a.waiting t.wakers }) w,
        task (record a { waiting = none }),
      )

  unfoldable pub untake_task :
      TaskArm E → Option (Option (List E.Value)) → World E → World E × TaskArm E
  unfolding set_task
  untake_task a none w = (w, a)
  untake_task a (some out) w = (
    set_task a.id (record (w.tasks a.id) { result = out; known = true; joined = false }) w,
    record a { taken = none },
  )

  abbrev pub received_value : Values E → Option E.Value
  received_value (received v) = some v
  received_value ended = none
  received_value (sent b) = none
  received_value fired = none
  received_value (joined_with vs) = none
  received_value joined_cancelled = none

  unfoldable pub give_back : ℕ → Option E.Value → World E → World E
  unfolding focus unfocus
  give_back c none w = w
  give_back c (some v) w = unfocus c (unrecv v (focus c w)) w

  unfoldable pub untake : Arm E → Values E → World E → World E × Arm E
  unfolding give_back untake_task
  untake (recv c r) vs w = (give_back c (received_value vs) w, recv c r)
  untake (task a) vs w = let (w', a') = untake_task a a.taken w in (w', task a')
  untake (send c d) vs w = (w, send c d)
  untake (timer t a) vs w = (w, timer t a)

-- What a select ends with: the position of its case and the values, or a failure.
abbrev pub Outcome : Env → Type 0
Outcome E = Result (ℕ × Values E) E.Failure

abbrev pub is_at : Option ℕ → ℕ → Bool
is_at none j = false
is_at (some i) j = j == i

-- The cases, the position where the poll starts and the select's mark.
pub record SelectFuture (E : Env) : Type 0 where
  pub arms : List (Arm E)
  pub start : ℕ
  pub mark : ℕ

module _ {E : Env} where
  unfoldable pub claim_mark : ℕ → World E → World E
  unfolding claim
  claim_mark m w = record w {
    heap = record (w.heap) { claimed_at = claim (some m) w.heap.claimed_at };
  }

  -- The arms from position `j` on withdraw, but for the one at `chosen`.
  unfoldable pub withdraw_but : Option ℕ → ℕ → List (Arm E) → World E → World E × List (Arm E)
  withdraw_but chosen j [] w = (w, [])
  withdraw_but chosen j (a ∷ as') w =
      let (w', a') = if is_at chosen j then (w, a) else withdraw a w in
      let (w'', rest) = withdraw_but chosen (suc j) as' w' in (w'', a' ∷ rest)

  unfoldable pub resolve : ℕ → SelectFuture E → World E → World E × SelectFuture E
  unfolding claim_mark withdraw_but
  resolve chosen f w =
      let (w', arms) = withdraw_but (some chosen) 0 f.arms (claim_mark f.mark w) in
      (w', record f { arms = arms })

  unfoldable pub withdraw_all : SelectFuture E → World E → World E × SelectFuture E
  unfolding claim_mark withdraw_but
  withdraw_all f w =
      let (w', arms) = withdraw_but none 0 f.arms (claim_mark f.mark w) in
      (w', record f { arms = arms })

  -- The position of the first arm, counted from `j`, whose value a receiver took.
  unfoldable pub find_delivered : ℕ → List (Arm E) → World E → Option ℕ
  find_delivered j [] w = none
  find_delivered j (a ∷ as') w = if delivered a w then some j else find_delivered (suc j) as' w

  unfoldable pub take_delivered :
      SelectFuture E → World E → World E × SelectFuture E × Option (Outcome E)
  unfolding find_delivered resolve
  take_delivered f w = elim (find_delivered 0 f.arms w) [
    | none ↦ (w, f, none)
    | some i ↦ (let (w', f') = resolve i f w in (w', f', some (ok (i, sent true))))
  ]

  abbrev pub with_index : ℕ → Result (Values E) E.Failure → Outcome E
  with_index i (ok vs) = ok (i, vs)
  with_index i (err e) = err e

  -- The rounds `k` to `k + rounds - 1` of the loop over the arms.
  unfoldable pub poll_arms :
      ℕ → ℕ → SelectFuture E → ℕ → World E → World E × SelectFuture E × Poll (Outcome E)
  unfolding resolve
  poll_arms zero k f p w = (w, f, pending)
  poll_arms (suc rounds) k f p w =
      let i = (f.start + k) % length f.arms in
      elim (get_elem? f.arms i) [
        | none ↦ (w, f, pending)
        | some a ↦
            (let (w', a', out) = poll_take a p w in
              let f' = record f { arms = set f.arms i a' } in
              elim out [
                | ready r ↦ (let (w'', f'') = resolve i f' w' in (w'', f'', ready (with_index i r)))
                | pending ↦ poll_arms rounds (suc k) f' p w'
              ])
      ]

  -- `SelectFuture::poll`, for the task `p`.
  unfoldable pub poll : SelectFuture E → ℕ → World E → World E × SelectFuture E × Poll (Outcome E)
  unfolding take_delivered poll_arms
  poll f p w =
      let (w', f', got) = take_delivered f w in
      elim got [ some out ↦ (w', f', ready out) | none ↦ poll_arms (length f.arms) 0 f p w ]

  unfoldable pub make_eager : Arm E → Arm E
  make_eager (send c d) = send c (Send.set_eager d)
  make_eager (recv c r) = recv c r
  make_eager (timer t a) = timer t a
  make_eager (task a) = task a

  -- `poll_now`; `noop` is the number of the waker that wakes nobody.
  unfoldable pub poll_now :
      ℕ → SelectFuture E → World E → World E × SelectFuture E × Option (Outcome E)
  unfolding make_eager poll withdraw_all
  poll_now noop f w =
      let (w', f', out) = poll (record f { arms = map make_eager f.arms }) noop w in
      elim out [
        | ready r ↦ (w', f', some r)
        | pending ↦ (let (w'', f'') = withdraw_all f' w' in (w'', f'', none))
      ]

  -- One poll of `wait_select`; `token` is whether the current token, if there is one, is cancelled.
  unfoldable pub wait_select :
      Option Bool → SelectFuture E → ℕ → World E → World E × SelectFuture E × Poll (Outcome E)
  wait_select none f p w = poll f p w
  wait_select (some false) f p w = poll f p w
  wait_select (some true) f p w =
      let (w', f', got) = take_delivered f w in
      elim got [ some out ↦ (w', f', ready out) | none ↦ (w', f', ready (err E.cancel_error)) ]

  -- One poll of `wait_send`.
  unfoldable pub wait_send :
      Option Bool → Sending E → ℕ → Chan E → Chan E × Sending E × Poll (Result Sent E.Failure)
  wait_send none d p s = Send.poll d p s
  wait_send (some false) d p s = Send.poll d p s
  wait_send (some true) d p s =
      (s, d, ready (if Send.delivered d s then ok (ok tt) else err E.cancel_error))
