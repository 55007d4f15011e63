-- ===== src/Hub/Tests.antt =====
-- src/hub.rs: a hub with one callback for each 300 instructions, at concrete counts.
use mlua_isle.Base.{
  ℕ, zero, suc, ◌+◌, ◌*◌, ◌≡◌, ◌≤◌, ◌<◌, Bool, true, false, List, [], ◌∷◌, ◌++◌, ◌⊎◌, ok, none,
  some, arith,
}
use mlua_isle.Hub.{Hub, install, count, remove_hook}
use mlua_isle.Hub.Dispatch.{Callbacks, dispatch, noted, firing, is_ok}
use mlua_isle.Hub.Calls.{dispatch-firing}
use mlua_isle.Hub.Interval.{AllAtLeast, install-interval}
use mlua_isle.Hub.Deferral.{raises, cancel_latency}

abbrev counting : Hub
counting = record {
  entries =
      record {
        id = 0;
        triggers = record {
          on_calls = false;
          on_returns = false;
          every_line = false;
          every_nth_instruction = some 300;
        };
        counted = 0;
      }
      ∷ [];
  next_id = 1;
  preempt_every = none;
  checks = 0;
  deferred = 0;
  select_turn = 0;
}

install-interval_example :
    let (t, step, cancel_every) = install counting in
    (1 ≤ step)
    × (step ≤ 1000)
    × AllAtLeast step counting.entries
    × (1000 ≤ step * cancel_every)
    × (step * cancel_every < 1000 + step)
install-interval_example = install-interval counting

-- Each count lands in the async poll chunk.
abbrev polls : ℕ → List (Bool × Bool)
polls zero = []
polls (suc n) = (true, false) ∷ polls n

cancel_latency_example : raises 2 (polls 34) counting ≡ true
cancel_latency_example =
    cancel_latency 2 (polls 34) counting (omega arith) (omega arith) (omega arith) (omega arith)

-- A callback that removes itself.
abbrev removes_itself : Callbacks ℕ
removes_itself i (h, s) = (((remove_hook i h).0, s + 1), ok false)

dispatch-firing_example :
    let ((u, (calls, v)), answer) =
      dispatch (noted removes_itself) count false false false 300 4 (counting, ([], 0)) in
    (left : List ℕ) × (firing count 300 counting.entries ≡ calls ++ left)
    × ((is_ok answer ≡ false) ⊎ (left ≡ []))
dispatch-firing_example = dispatch-firing removes_itself count false false false 300 4 counting 0
