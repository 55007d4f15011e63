-- ===== src/Cancel/Tests.antt =====
-- src/hook.rs: a token with two generations below it, and a second token, at concrete calls.
use mlua_isle.Base.{
  ℕ, ltb, ◌≡◌, ◌<◌, ◌⊎◌, refl, Bool, true, false, List, [], ◌∷◌, none, count, arith, update,
}
use mlua_isle.Tokio.{Notify, NotifyLaws}
use mlua_isle.Cancel.{
  Tree, Inner, cancel, cancel_in, is_cancelled, child_token, cancelled, each, sweep, new, alloc,
  new_inner, add_child, mark, enable,
}
use mlua_isle.Cancel.Trace.{TokenOp, makes, derives, run, exec, no_tokens, run-IsLinked}
use mlua_isle.Cancel.Reach.{parents, IsUnder, itself, below, cancel_reaches, cancel_spares}
use mlua_isle.Cancel.Await.{cancelled_not_missed}

-- The wakers that are registered, and a permit is not kept.
abbrev pub list_notify : Notify
list_notify = record {
  State = List ℕ;
  empty = [];
  enable = λ w ws. w ∷ ws;
  notify_one = λ ws. ([], ws);
  notify_waiters = λ ws. ([], ws);
}

list_notify_laws : NotifyLaws list_notify
list_notify_laws = record {
  waits = λ w ws. ltb 0 (count w ws);
  enabled = λ w ws. ground arith;
  wakes = λ w ws h. ground arith;
}

-- Token 0 has the child 1 and the grandchild 2; token 3 stands alone.
abbrev family : List TokenOp
family = makes ∷ derives 0 ∷ derives 1 ∷ makes ∷ []

abbrev tree : Tree list_notify
tree = run family no_tokens

cancel_reaches_example : is_cancelled 2 (cancel 0 tree) ≡ true
unfolding exec new alloc child_token add_child sweep new_inner
cancel_reaches_example =
    cancel_reaches 0 2 tree (run-IsLinked family) (omega arith) refl
      (below 2 refl (below 1 refl itself))

cancel_spares_example : (is_cancelled 2 tree ≡ true) ⊎ IsUnder (parents tree) 1 2
unfolding exec new alloc child_token add_child sweep new_inner is_cancelled cancel cancel_in mark
cancel_spares_example = cancel_spares 1 2 tree (run-IsLinked family) (omega arith) refl

abbrev full_node : Inner list_notify
full_node = record { flag = false; parent = none; children = 1 ∷ 2 ∷ []; sweep_at = 2; notify = [] }

abbrev second_only : ℕ → Bool
second_only c = update (λ i. false) 2 true c

cancelled_not_missed_example :
    let (u, returned) = cancelled 2 7 [] (3 ∷ []) tree in
    let v = each cancel (0 ∷ []) u in (returned ≡ true) ⊎ (count 7 u.woken < count 7 v.woken)
unfolding exec new alloc child_token add_child sweep new_inner is_cancelled cancel cancel_in mark
    cancelled enable
cancelled_not_missed_example =
    cancelled_not_missed list_notify_laws 2 7 [] (3 ∷ []) (0 ∷ []) tree refl
