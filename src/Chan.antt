-- ===== src/Chan.antt =====
-- src/chan.rs: the state of the channels of one VM. The shared cells (`Rc`) are addresses in a heap,
-- a waker is the number of its task, and `woken` lists the wakers in the order in which they are
-- woken.
pub mod Ops
pub mod Receive
pub mod Send
pub mod Trace
pub mod Quiet
pub mod Remember
pub mod Wakeups
pub mod Fifo
pub mod Totals
pub mod Rendezvous
pub mod Conserve
pub mod Deliver
pub mod Formed
pub mod Exclusive
pub mod Parties
pub mod Tests
use mlua_isle.Base.{
  String, ℕ, suc, ◌+◌, Bool, true, false, ◌&&◌, not, List, [], ◌∷◌, ◌++◌, map, Option, none, some,
  Result, ok, err, Poll, ready, pending, is_some, ◌==◌, if◌then◌else◌, update,
}
use mlua_isle.Tokio.{Env}

pub data OfferState : Type 0 where
  offered taken withdrawn : OfferState

-- A mark of a select is its address.
pub record Offer (E : Env) : Type 0 where
  pub value : Option E.Value
  pub state : OfferState
  pub waker : ℕ
  pub select : Option ℕ

pub record Waiter (E : Env) : Type 0 where
  pub slot : Option E.Value
  pub waker : ℕ
  pub select : Option ℕ

-- `next` is the first address that is not in use.
pub record Heap (E : Env) : Type 0 where
  pub offer_at : ℕ → Offer E
  pub waiter_at : ℕ → Waiter E
  pub claimed_at : ℕ → Bool
  pub waker_at : ℕ → ℕ
  pub next : ℕ
  pub woken : List ℕ

-- `HostRx`: the receiving end, and the wakers registered with its `FanOut`.
pub record HostRx (E : Env) : Type 0 where
  pub rx : E.Rx
  pub fan : List ℕ

-- `HostTx`: the sending end, which Lua's `close` gives up (`live`), and its capacity.
pub record HostTx (E : Env) : Type 0 where
  pub tx : E.Tx
  pub live : Bool
  pub capacity : ℕ

pub record ChanCore (E : Env) : Type 0 where
  pub buf : List E.Value
  pub cap : ℕ
  pub closed : Bool
  pub recv_wakers : List ℕ
  pub send_wakers : List ℕ
  pub source : Option (HostRx E)
  pub offers : List ℕ
  pub waiters : List ℕ
  pub ticker : Bool
  pub sink : Option (HostTx E)
  pub sink_waiters : List ℕ

-- One channel and the heap, which is what an operation on a channel reads and writes.
pub record Chan (E : Env) : Type 0 where
  pub core : ChanCore E
  pub open core use *
  pub heap : Heap E
  pub open heap use *

unfoldable pub with_cap : (E : Env) → ℕ → Option (HostRx E) → ChanCore E
with_cap E cap source = record {
  buf = [];
  cap = cap;
  closed = false;
  recv_wakers = [];
  send_wakers = [];
  source = source;
  offers = [];
  waiters = [];
  ticker = false;
  sink = none;
  sink_waiters = [];
}

unfoldable pub new : (E : Env) → ℕ → ChanCore E
unfolding with_cap
new E cap = with_cap E cap none

unfoldable pub new_ticker : (E : Env) → ChanCore E
unfolding with_cap
new_ticker E = record (with_cap E 1 none) { ticker = true }

unfoldable pub new_host : (E : Env) → E.Rx → ChanCore E
unfolding with_cap
new_host E rx = with_cap E (E.rx_capacity rx) (some (record { rx = rx; fan = [] }))

unfoldable pub new_to_host : (E : Env) → E.Tx → ChanCore E
unfolding with_cap
new_to_host E tx = record (with_cap E (E.tx_capacity tx) none) {
  sink = some (record { tx = tx; live = true; capacity = E.tx_capacity tx });
}

abbrev pub contains : List ℕ → ℕ → Bool
contains [] w = false
contains (x ∷ xs) w = if x == w then true else contains xs w

-- `register`: at the end of the list, unless it is there.
unfoldable pub register : List ℕ → ℕ → List ℕ
register ws w = if contains ws w then ws else ws ++ w ∷ []

abbrev pub find : (ℕ → Bool) → List ℕ → Option ℕ
find p [] = none
find p (x ∷ xs) = if p x then some x else find p xs

abbrev pub remove_first : (ℕ → Bool) → List ℕ → List ℕ
remove_first p [] = []
remove_first p (x ∷ xs) = if p x then xs else x ∷ remove_first p xs

-- `retain(|x| !Rc::ptr_eq(x, a))`.
abbrev pub remove : ℕ → List ℕ → List ℕ
remove a [] = []
remove a (x ∷ xs) = if x == a then remove a xs else x ∷ remove a xs

abbrev pub get_or {ℓ} : {A : Type ℓ} → Option A → A → A
get_or none d = d
get_or (some a) d = a

abbrev pub is_offered : OfferState → Bool
is_offered offered = true
is_offered _ = false

unfoldable pub same_select : Option ℕ → Option ℕ → Bool
same_select (some a) (some b) = a == b
same_select (some a) none = false
same_select none b = false

-- `SelectMark::claim`, for the select of an offer if it has one.
unfoldable pub claim : Option ℕ → (ℕ → Bool) → ℕ → Bool
claim none f = f
claim (some m) f = update f m true

module _ {E : Env} where
  unfoldable pub set_core : Chan E → ChanCore E → Chan E
  set_core s c = record s { core = c }

  unfoldable pub wake_all : List ℕ → Chan E → Chan E
  wake_all ws s = record s { heap = record (s.heap) { woken = s.woken ++ ws } }

  -- `claimed`: whether the select of a mark has its case.
  unfoldable pub claimed : Heap E → Option ℕ → Bool
  claimed h none = false
  claimed h (some m) = h.claimed_at m

  -- The wakers of every waiting receiver; the plain ones are taken off the channel.
  unfoldable pub receiver_wakers : Chan E → List ℕ
  receiver_wakers s = s.recv_wakers ++ map (λ a. (s.waiter_at a).waker) s.waiters

  unfoldable pub wake_receivers : Chan E → Chan E
  unfolding receiver_wakers set_core wake_all
  wake_receivers s =
      wake_all (receiver_wakers s) (set_core s (record (s.core) { recv_wakers = [] }))

  unfoldable pub wake_senders : Chan E → Chan E
  unfolding set_core wake_all
  wake_senders s = wake_all s.send_wakers (set_core s (record (s.core) { send_wakers = [] }))

  unfoldable pub wake_plain_receivers : Chan E → Chan E
  unfolding set_core wake_all
  wake_plain_receivers s =
      wake_all s.recv_wakers (set_core s (record (s.core) { recv_wakers = [] }))

  unfoldable pub may_fill : Heap E → Option ℕ → ℕ → Bool
  unfolding claimed same_select
  may_fill h me a =
      let w = h.waiter_at a in
      not (is_some w.slot) && (not (claimed h w.select) && not (same_select w.select me))

  unfoldable pub may_take : Heap E → Option ℕ → ℕ → Bool
  unfolding claimed same_select
  may_take h me a =
      let o = h.offer_at a in
      is_offered o.state && (not (claimed h o.select) && not (same_select o.select me))

  -- `fill_waiter`, with the wake of the receiver whose slot was filled, which each caller makes.
  -- `false`: no receiver may pair with `me`, and nothing changed.
  unfoldable pub fill_waiter : E.Value → Option ℕ → Chan E → Chan E × Bool
  unfolding may_fill wake_all
  fill_waiter v me s = elim (find (may_fill s.heap me) s.waiters) [
    | none ↦ (s, false)
    | some a ↦ (
      wake_all ((s.waiter_at a).waker ∷ []) (record s {
        heap = record (s.heap) {
          waiter_at = update s.waiter_at a (record (s.waiter_at a) { slot = some v });
        };
      }),
      true,
    )
  ]

  -- The heap after the offer at `a` was taken.
  unfoldable pub mark_taken : ℕ → Heap E → Heap E
  unfolding claim
  mark_taken a h = record h {
    offer_at = update h.offer_at a (record (h.offer_at a) { value = none; state = taken });
    claimed_at = claim (h.offer_at a).select h.claimed_at;
  }

  -- `take_offer`, with the wake of the sender, which each caller makes.
  unfoldable pub take_offer : Option ℕ → Chan E → Chan E × Option E.Value
  unfolding may_take mark_taken set_core wake_all
  take_offer me s = elim (find (may_take s.heap me) s.offers) [
    | none ↦ (s, none)
    | some a ↦ (
      wake_all ((s.offer_at a).waker ∷ []) (record s {
        core = record (s.core) { offers = remove_first (may_take s.heap me) s.offers };
        heap = mark_taken a s.heap;
      }),
      some (get_or (s.offer_at a).value E.nil),
    )
  ]

  -- Why a channel is send-only (`send_only`) or receive-only (`receive_only`) on the Lua side.
  unfoldable pub send_only : ChanCore E → Option String
  send_only c = elim c.sink [
    | none ↦ none
    | some t ↦ some "a channel to the host; the host receives"
  ]

  unfoldable pub receive_only : ChanCore E → Option String
  receive_only c = elim c.source [
    | some r ↦ some "a host channel; the host sends"
    | none ↦ if c.ticker then some "a ticker" else none
  ]
