-- ===== src/Thread/Tests.antt =====
-- src/thread.rs: a request that is cancelled and returns, at concrete calls.
use mlua_isle.Base.{◌≡◌, ◌⊎◌, Bool, true, List, [], ◌∷◌, none, some, ok, err}
use mlua_isle.Error.{IsleError}
use mlua_isle.Protect.{Value, other, Traces, call, wrap_call}
use mlua_isle.Protect.Agree.{values_of}
use mlua_isle.Protect.Tests.{plain_lua}
use mlua_isle.Thread.{cancelled_wins, root_answer}
use mlua_isle.Thread.Roots.{root_like_sync}

-- The function returns the value 5.
abbrev returns_five : Traces → Traces × (Bool × List Value)
returns_five t = (t, (true, other 5 ∷ []))

root_like_sync_example :
    let t : Traces = λ i. none in
    let root =
      root_answer plain_lua "" true
        (some (ok (wrap_call plain_lua true 1 (λ x. values_of (returns_five x)) t).1)) in
    let sync =
      cancelled_wins
        (call plain_lua none true 1
          (λ x. let (a, values) = values_of (returns_five x) in (a, ok values))
          t).1
        true in
    (root ≡ sync)
    ⊎ ((true ≡ true) × (root ≡ err IsleError.cancelled) × ((vs : List Value) × (sync ≡ ok vs)))
root_like_sync_example = root_like_sync plain_lua "" true 1 returns_five (λ i. none) true
