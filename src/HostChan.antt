-- ===== src/HostChan.antt =====
-- src/host_chan.rs: host channels, and the requests that Lua answers. What tokio's channels do is an
-- argument; the one-shot channel of an answer is what was sent into it, and whether its ends are there.
pub mod Acts
pub mod Once
pub mod Waits
mod Tests
use Prim.Native.String.{◌++◌}
use mlua_isle.Base.{
  String, ℕ, Bool, true, false, Option, none, some, Result, ok, err, Poll, ready, pending,
  if◌then◌else◌, ◌==◌, ltb, ◌/◌,
}
use mlua_isle.Error.{IsleError, LuaErrorKind, failure}
use mlua_isle.Error.Convert.{MluaError, runtime_error}

-- `usize::MAX` on a 64-bit target.
abbrev pub usize_max : ℕ
usize_max = 18446744073709551615

abbrev pub max_cap : ℕ
max_cap = usize_max / 8

unfoldable pub setup_error : String → IsleError
unfolding failure
setup_error message = IsleError.init (failure LuaErrorKind.external message)

-- The checks of `channel` and `channel_to_host`, whose names and messages are arguments: `attached`, what
-- `channel_ctor` gives, and the capacity. `build` is the call of the constructor.
unfoldable pub set_up :
    {Ctor Table : Type 0}
    → (unattached missing zero_cap large : String) → (attached : Bool)
    → Result (Option Ctor) IsleError
    → (cap : ℕ) → (build : Ctor → Result Table IsleError) → Result Table IsleError
unfolding setup_error
set_up unattached missing zero_cap large false ctor cap build = err (setup_error unattached)
set_up unattached missing zero_cap large true (err e) cap build = err e
set_up unattached missing zero_cap large true (ok none) cap build = err (setup_error missing)
set_up unattached missing zero_cap large true (ok (some c)) cap build =
    if cap == 0
    then err (setup_error zero_cap)
    else (if ltb max_cap cap then err (setup_error large) else build c)

unfoldable pub channel :
    {Ctor Table : Type 0}
    → Bool
    → Result (Option Ctor) IsleError
    → ℕ
    → (Ctor → Result Table IsleError)
    → Result Table IsleError
unfolding set_up
channel =
    set_up "runtime::channel: the VM is not attached (call Vm::attach first)"
      "runtime::channel: the VM's task library was not created (call Vm::task_lib first)"
      "runtime::channel: cap = 0 (rendezvous) is not supported yet"
      "runtime::channel: cap is too large"

unfoldable pub channel_to_host :
    {Ctor Table : Type 0}
    → Bool
    → Result (Option Ctor) IsleError
    → ℕ
    → (Ctor → Result Table IsleError)
    → Result Table IsleError
unfolding set_up
channel_to_host =
    set_up "runtime::channel_to_host: the VM is not attached (call Vm::attach first)"
      "runtime::channel_to_host: the VM's task library was not created (call Vm::task_lib first)"
      "runtime::channel_to_host: cap must be >= 1" "runtime::channel_to_host: cap is too large"

-- What a send or a receive of tokio's channel gives, and what it becomes.
pub data SendOutcome : Type 0 where
  sent full closed : SendOutcome

pub data TrySendError (V : Type 0) : Type 0 where
  full closed : V → TrySendError V

pub data ReceiveOutcome (V : Type 0) : Type 0 where
  received : V → ReceiveOutcome V
  empty disconnected : ReceiveOutcome V

pub data TryRecvError : Type 0 where
  empty closed : TryRecvError

unfoldable pub try_send : {V : Type 0} → V → SendOutcome → Option (TrySendError V)
try_send v SendOutcome.sent = none
try_send v SendOutcome.full = some (TrySendError.full v)
try_send v SendOutcome.closed = some (TrySendError.closed v)

unfoldable pub into_inner : {V : Type 0} → TrySendError V → V
into_inner (TrySendError.full v) = v
into_inner (TrySendError.closed v) = v

unfoldable pub try_recv : {V : Type 0} → ReceiveOutcome V → Result V TryRecvError
try_recv (received v) = ok v
try_recv ReceiveOutcome.empty = err TryRecvError.empty
try_recv disconnected = err TryRecvError.closed

-- `open_reply`: the answer can be sent.
pub data ReplyState : Type 0 where
  open_reply answered closed : ReplyState

-- The one-shot channel of an answer: what was sent, and whether its sender and its receiver are there.
pub record Answer (Resp E : Type 0) : Type 0 where
  pub value : Option (Result Resp E)
  pub sender : Bool
  pub receiver : Bool

-- A request: the state of its userdata, and its answer.
pub record Request (Resp E : Type 0) : Type 0 where
  pub state : ReplyState
  pub answer : Answer Resp E

pub data RequestError (Req E : Type 0) : Type 0 where
  closed : Req → RequestError Req E
  no_reply : RequestError Req E
  rejected : E → RequestError Req E

-- `answered_error`.
unfoldable pub answered_error : String → ReplyState → Option MluaError
answered_error method open_reply = none
answered_error method answered =
    some (runtime_error ("req:" ++ method ++ ": request already answered"))
answered_error method ReplyState.closed =
    some (runtime_error ("req:" ++ method ++ ": request is closed"))

module _ {Resp E : Type 0} where
  -- The sender is dropped.
  abbrev pub drop_sender : Answer Resp E → Answer Resp E
  drop_sender a = record a { sender = false }

  -- `tx.send`, which gives whether the requester still waits.
  abbrev pub send : Result Resp E → Answer Resp E → Answer Resp E × Bool
  send v a =
      if a.receiver
      then (record a { value = some v; sender = false }, true)
      else (record a { sender = false }, false)

  -- The requester stops waiting.
  unfoldable pub give_up : Request Resp E → Request Resp E
  give_up r = record r { answer = record r.answer { receiver = false } }

  -- `RequestUd::answer`.
  unfoldable pub answer :
      String → Result Resp E → Request Resp E → Request Resp E × Result Bool MluaError
  unfolding answered_error
  answer method v r = elim r.state [
    | open_reply ↦
        let (a, delivered) = send v r.answer in
        (record { state = answered; answer = a }, ok delivered)
    | answered ↦ (r, err (runtime_error ("req:" ++ method ++ ": request already answered")))
    | ReplyState.closed ↦ (r, err (runtime_error ("req:" ++ method ++ ": request is closed")))
  ]

  -- `reply` and `reject`: `convert` is the conversion of the argument, which may run Lua code.
  unfoldable pub reply_with :
      {A : Type 0}
      → String
      → (A → Result Resp E)
      → (Request Resp E → Request Resp E × Result A MluaError)
      → Request Resp E
      → Request Resp E × Result Bool MluaError
  unfolding answered_error answer
  reply_with method wrap convert r = elim (answered_error method r.state) [
    | some e ↦ (r, err e)
    | none ↦
        let (s, converted) = convert r in
        elim converted [ err e ↦ (s, err e) | ok v ↦ answer method (wrap v) s ]
  ]

  unfoldable pub reply :
      (Request Resp E → Request Resp E × Result Resp MluaError)
      → Request Resp E
      → Request Resp E × Result Bool MluaError
  unfolding reply_with
  reply = reply_with "reply" ok

  unfoldable pub reject :
      (Request Resp E → Request Resp E × Result E MluaError)
      → Request Resp E
      → Request Resp E × Result Bool MluaError
  unfolding reply_with
  reject = reply_with "reject" err

  unfoldable pub is_open : Request Resp E → Bool
  is_open r = elim r.state [ open_reply ↦ true | _ ↦ false ]

  unfoldable pub replied : Request Resp E → Bool
  replied r = elim r.state [ answered ↦ true | _ ↦ false ]

  -- `__close`, and the drop of a userdata that is collected.
  unfoldable pub close : Request Resp E → Request Resp E
  close r = elim r.state [
    | open_reply ↦ record { state = ReplyState.closed; answer = drop_sender r.answer }
    | answered ↦ r
    | ReplyState.closed ↦ r
  ]

  -- A request that the channel took, with its `into_lua`: `converted` is whether its value was converted
  -- and its userdata was built.
  unfoldable pub into_lua : (converted : Bool) → Request Resp E
  into_lua true = record {
    state = open_reply;
    answer = record { value = none; sender = true; receiver = true };
  }
  into_lua false = record {
    state = ReplyState.closed;
    answer = record { value = none; sender = false; receiver = true };
  }

  -- One poll of the wait for the answer in `Sender::request`.
  unfoldable pub wait_answer :
      {Req : Type 0} → Answer Resp E → Poll (Result Resp (RequestError Req E))
  wait_answer a = elim a.value [
    | some (ok v) ↦ ready (ok v)
    | some (err e) ↦ ready (err (rejected e))
    | none ↦ if a.sender then pending else ready (err no_reply)
  ]

  -- One poll of `Sender::request` after its send: `accepted` is what the send gave.
  unfoldable pub request :
      {Req : Type 0}
      → Req
      → (accepted : Bool) → Answer Resp E
      → Poll (Result Resp (RequestError Req E))
  unfolding wait_answer
  request req true a = wait_answer a
  request req false a = ready (err (RequestError.closed req))
