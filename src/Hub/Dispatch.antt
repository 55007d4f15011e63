-- ===== src/Hub/Dispatch.antt =====
-- src/hub.rs: the calls of the registered callbacks. A callback can register and remove callbacks, and
-- `S` is all else that it changes; it answers whether it yields.
use mlua_isle.Base.{
  ℕ, Bool, true, false, ◌||◌, List, [], ◌∷◌, ◌++◌, Result, ok, err, ◌==◌, if◌then◌else◌,
}
use mlua_isle.Error.Convert.{MluaError, cancel_error}
use mlua_isle.Hub.{Hub, Entry, DebugEvent, count, fires, count_check}

-- The counter of an entry, which the registered entry and a snapshot share.
abbrev pub set_counted : ℕ → ℕ → List Entry → List Entry
set_counted i c [] = []
set_counted i c (e ∷ es) = (if e.id == i then record e { counted = c } else e) ∷ set_counted i c es

abbrev pub Callbacks : Type 0 → Type 0
Callbacks S = ℕ → Hub × S → (Hub × S) × Result Bool MluaError

-- The loop of `dispatch` over the snapshot of the entries.
unfoldable pub call_entries :
    {S : Type 0}
    → Callbacks S
    → DebugEvent
    → ℕ
    → List Entry
    → Bool
    → Hub × S
    → (Hub × S) × Result Bool MluaError
unfolding fires
call_entries cb event step [] want_yield w = (w, ok want_yield)
call_entries {S} cb event step (e ∷ es) want_yield (h, s) =
    let (e', fire) = fires event step e in
    let w : Hub × S = (record h { entries = set_counted e.id e'.counted h.entries }, s) in
    elim fire [
      | false ↦ call_entries cb event step es want_yield w
      | true ↦
          let (u, answer) = cb e.id w in
          elim answer [
            | err x ↦ (u, err x)
            | ok yields ↦ call_entries cb event step es (want_yield || yields) u
          ]
    ]

-- `dispatch`: what it answers is whether the coroutine yields.
unfoldable pub dispatch :
    {S : Type 0}
    → Callbacks S
    → DebugEvent
    → Bool
    → Bool
    → Bool
    → ℕ
    → ℕ
    → Hub × S
    → (Hub × S) × Result Bool MluaError
unfolding call_entries count_check
dispatch cb count cancelled in_async_poll is_root step cancel_every (h, s) =
    let (g, raised, yields) = count_check cancelled in_async_poll is_root cancel_every h in
    if raised
    then ((g, s), err cancel_error)
    else call_entries cb count step g.entries yields (g, s)
dispatch cb event cancelled in_async_poll is_root step cancel_every (h, s) =
    call_entries cb event step h.entries false (h, s)

-- The callbacks of the entries that fire, in the order of their registration.
abbrev pub firing : DebugEvent → ℕ → List Entry → List ℕ
firing event step [] = []
firing event step (e ∷ es) =
    if (fires event step e).1 then e.id ∷ firing event step es else firing event step es

-- Callbacks that note their calls.
abbrev pub noted : {S : Type 0} → Callbacks S → Callbacks (List ℕ × S)
noted cb i (h, (calls, s)) =
    let ((h', s'), answer) = cb i (h, s) in ((h', (calls ++ i ∷ [], s')), answer)

abbrev pub is_ok : {A E : Type 0} → Result A E → Bool
is_ok (ok a) = true
is_ok (err e) = false
