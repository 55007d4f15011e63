-- ===== src/Chan/Receive.antt =====
-- src/chan.rs, `Receiving`: a receive in progress, which on a rendezvous channel holds a waiter.
use mlua_isle.Base.{
  ℕ, suc, not, [], ◌∷◌, ◌++◌, Option, none, some, is_some, ok, Poll, ready, pending, ◌==◌, ◌||◌,
  if◌then◌else◌, update,
}
use mlua_isle.Tokio.{Env}
use mlua_isle.Chan.{Chan, set_core, wake_receivers, take_offer, remove}
use mlua_isle.Chan.Ops.{Received, poll_recv}

pub record Receiving : Type 0 where
  pub select : Option ℕ
  pub waiter : Option ℕ

unfoldable pub new : Option ℕ → Receiving
new select = record { select = select; waiter = none }

module _ {E : Env} where
  unfoldable pub slot_of : Chan E → Option ℕ → Option E.Value
  slot_of s none = none
  slot_of s (some a) = (s.waiter_at a).slot

  -- `slot.borrow_mut().take()`.
  unfoldable pub empty_slot : ℕ → Chan E → Chan E
  empty_slot a s = record s {
    heap = record (s.heap) {
      waiter_at = update s.waiter_at a (record (s.waiter_at a) { slot = none });
    };
  }

  unfoldable pub take_slot : Option ℕ → Chan E → Chan E
  unfolding empty_slot
  take_slot none s = s
  take_slot (some a) s = empty_slot a s

  -- `forget`: the waiter leaves the channel.
  unfoldable pub forget : Option ℕ → Chan E → Chan E
  unfolding set_core
  forget none s = s
  forget (some a) s = set_core s (record (s.core) { waiters = remove a s.waiters })

  -- The new waiter of task `w`, at the end of the queue.
  unfoldable pub post_waiter : Option ℕ → ℕ → Chan E → Chan E
  post_waiter select w s = record s {
    core = record (s.core) { waiters = s.waiters ++ s.next ∷ [] };
    heap = record (s.heap) {
      waiter_at = update s.waiter_at s.next (record { slot = none; waker = w; select = select });
      next = suc s.next;
    };
  }

  unfoldable pub set_waiter_waker : ℕ → ℕ → Chan E → Chan E
  set_waiter_waker a w s = record s {
    heap = record (s.heap) {
      waiter_at = update s.waiter_at a (record (s.waiter_at a) { waker = w });
    };
  }

  -- The receiver waits, with the waiter that it has or a new one.
  unfoldable pub wait : Receiving → ℕ → Chan E → Chan E × Receiving
  unfolding post_waiter set_waiter_waker
  wait r w s = elim r.waiter [
    | some a ↦ (set_waiter_waker a w s, r)
    | none ↦ (post_waiter r.select w s, record r { waiter = some s.next })
  ]

  -- The receive has no value in its slot and none at the front.
  unfoldable pub poll_offers : Receiving → ℕ → Chan E → Chan E × Receiving × Poll (Received E)
  unfolding forget wait
  poll_offers r w s =
      let (t, got) = take_offer r.select s in
      elim got [
        | some v ↦ (forget r.waiter t, record r { waiter = none }, ready (ok (some v)))
        | none ↦
            if s.closed
            then (forget r.waiter s, record r { waiter = none }, ready (ok none))
            else (let (t', r') = wait r w s in (t', r', pending))
      ]

  unfoldable pub poll_rendezvous : Receiving → ℕ → Chan E → Chan E × Receiving × Poll (Received E)
  unfolding slot_of take_slot forget set_core poll_offers
  poll_rendezvous r w s = elim (slot_of s r.waiter) [
    | some v ↦
        (forget r.waiter (take_slot r.waiter s), record r { waiter = none }, ready (ok (some v)))
    | none ↦ elim s.buf [
      | v ∷ rest ↦ (
        forget r.waiter (set_core s (record (s.core) { buf = rest })),
        record r { waiter = none },
        ready (ok (some v)),
      )
      | [] ↦ poll_offers r w s
    ]
  ]

  unfoldable pub poll : Receiving → ℕ → Chan E → Chan E × Receiving × Poll (Received E)
  unfolding poll_rendezvous
  poll r w s =
      if not (s.cap == 0) || is_some s.source
      then (let (t, out) = poll_recv w s in (t, r, out))
      else poll_rendezvous r w s

  -- A value that `try_send` left goes back to the front.
  unfoldable pub give_back : Option E.Value → Chan E → Chan E
  unfolding set_core wake_receivers
  give_back none s = s
  give_back (some v) s = wake_receivers (set_core s (record (s.core) { buf = v ∷ s.buf }))

  unfoldable pub withdraw : Receiving → Chan E → Chan E × Receiving
  unfolding forget take_slot slot_of give_back
  withdraw r s = (
    give_back (slot_of s r.waiter) (take_slot r.waiter (forget r.waiter s)),
    record r { waiter = none },
  )
