-- ===== src/Tokio.antt =====
-- What the program uses of the crates `mlua` and `tokio`, which are not part of it: the values of
-- a Lua VM, their conversions, the two ends of a `tokio::sync::mpsc` channel, and `Notify`.
use mlua_isle.Base.{ℕ, ◌≡◌, ◌<◌, Bool, true, List, Option, Result, Poll, String, count}

-- `Receiver::try_recv`.
pub data TryItem (T : Type 0) : Type 0 where
  item : T → TryItem T
  empty disconnected : TryItem T

-- `Sender::try_reserve_owned`; a permit is room taken in the channel.
pub data TryReserve : Type 0 where
  permit full closed : TryReserve

-- `Rx` is the state of a channel as its receiver sees it, `Tx` as its senders see it. An `Item` is
-- a value of the host's type, a `Ticket` a `reserve_owned` future, and a waker is its number.
-- `poll_reserve` answers whether the room was given (`false`: the channel is closed).
pub record Env : Type 1 where
  pub Value : Type 0
  pub nil : Value
  pub Failure : Type 0
  pub runtime : String → Failure
  pub cancel_error : Failure
  pub Item : Type 0
  pub into_lua : Item → Result Value Failure
  pub from_lua : Value → Result Item Failure
  pub Rx : Type 0
  pub poll_recv : Rx → Rx × Poll (Option Item)
  pub try_recv : Rx → Rx × TryItem Item
  pub close_rx : Rx → Rx
  pub rx_is_closed : Rx → Bool
  pub rx_len : Rx → ℕ
  pub rx_capacity : Rx → ℕ
  pub Tx : Type 0
  pub Ticket : Type 0
  pub try_reserve : Tx → Tx × TryReserve
  pub reserve : Tx → Tx × Ticket
  pub poll_reserve : Tx → Ticket → ℕ → Tx × Poll Bool
  pub drop_ticket : Tx → Ticket → Tx
  pub send_permit : Tx → Item → Tx
  pub drop_permit : Tx → Tx
  pub drop_sender : Tx → Tx
  pub tx_is_closed : Tx → Bool
  pub tx_free : Tx → ℕ
  pub tx_capacity : Tx → ℕ

-- `tokio::sync::Notify`: its state, the registration of a waker (`Notified::enable`), and its two
-- calls with the wakers that they wake.
pub record Notify : Type 1 where
  pub State : Type 0
  pub empty : State
  pub enable : ℕ → State → State
  pub notify_one : State → State × List ℕ
  pub notify_waiters : State → State × List ℕ

-- What the documentation of `Notify` says of a registered waker: `notify_waiters` wakes it.
pub record NotifyLaws (N : Notify) : Type 0 where
  pub waits : ℕ → N.State → Bool
  pub enabled : (w : ℕ) (s : N.State) → waits w (N.enable w s) ≡ true
  pub wakes : (w : ℕ) (s : N.State) → waits w s ≡ true → 0 < count w (N.notify_waiters s).1
