-- ===== src/Hub.antt =====
-- src/hub.rs: the one debug hook of a VM, which checks for a cancel, counts for preemption and
-- decides which registered callbacks run. A callback is its number.
pub mod Interval
pub mod Deferral
pub mod Dispatch
pub mod Calls
mod Tests
use Prim.Native.Nat.{max, min}
use mlua_isle.Base.{
  ℕ, ◌+◌, ◌-◌, ◌/◌, ◌%◌, Bool, true, false, ◌&&◌, ◌||◌, not, List, [], ◌∷◌, ◌++◌, Option, none,
  some, Result, ok, err, ltb, leb, ◌==◌, if◌then◌else◌, length,
}

abbrev pub cancel_check_interval : ℕ
cancel_check_interval = 1000

abbrev pub max_deferred : ℕ
max_deferred = 16

-- `HookTriggers` of mlua.
pub record HookTriggers : Type 0 where
  pub on_calls : Bool
  pub on_returns : Bool
  pub every_line : Bool
  pub every_nth_instruction : Option ℕ

pub record Entry : Type 0 where
  pub id : ℕ
  pub triggers : HookTriggers
  pub counted : ℕ

-- `preempt_every` is that of the VM's settings.
pub record Hub : Type 0 where
  pub entries : List Entry
  pub next_id : ℕ
  pub preempt_every : Option ℕ
  pub checks : ℕ
  pub deferred : ℕ
  pub select_turn : ℕ

pub data DebugEvent : Type 0 where
  count line call tail_call ret unknown : DebugEvent

abbrev pub nth_or : Option ℕ → ℕ → ℕ
nth_or none d = d
nth_or (some n) d = n

-- What one entry adds to the triggers.
unfoldable pub add_triggers : HookTriggers → HookTriggers → HookTriggers
add_triggers acc t = record {
  on_calls = acc.on_calls || t.on_calls;
  on_returns = acc.on_returns || t.on_returns;
  every_line = acc.every_line || t.every_line;
  every_nth_instruction = elim t.every_nth_instruction [
    | none ↦ acc.every_nth_instruction
    | some n ↦ some (max (min (nth_or acc.every_nth_instruction n) n) 1)
  ];
}

unfoldable pub merge : HookTriggers → List Entry → HookTriggers
unfolding add_triggers
merge acc [] = acc
merge acc (e ∷ es) = merge (add_triggers acc e.triggers) es

abbrev pub cancel_only : HookTriggers
cancel_only = record {
  on_calls = false;
  on_returns = false;
  every_line = false;
  every_nth_instruction = some cancel_check_interval;
}

-- `install`: the triggers of the hook, its step, and at each how many counts a cancel is looked for.
unfoldable pub install : Hub → HookTriggers × ℕ × ℕ
unfolding merge
install h =
    let t = merge cancel_only h.entries in
    let step = nth_or t.every_nth_instruction 1 in
    (t, step, max ((cancel_check_interval + (step - 1)) / step) 1)

-- A check for a cancel: whether it is raised.
unfoldable pub check_cancel : Bool → Bool → Hub → Hub × Bool
check_cancel cancelled in_async_poll h =
    if cancelled
    then (if ltb h.deferred max_deferred && in_async_poll
        then (record h { deferred = h.deferred + 1 }, false)
        else (record h { deferred = 0 }, true))
    else (h, false)

-- Whether the counts so far are a turn to yield.
unfoldable pub preempts : Option ℕ → ℕ → Bool
preempts none turns = false
preempts (some n) turns = turns % max n 1 == 0

-- The count of `dispatch`: the hub, whether a cancel is raised and whether the coroutine yields.
unfoldable pub count_check : Bool → Bool → Bool → ℕ → Hub → Hub × Bool × Bool
unfolding check_cancel preempts
count_check cancelled in_async_poll is_root cancel_every h =
    let checks = (h.checks + 1) % 4294967296 in
    let g = record h { checks = checks } in
    if checks % cancel_every == 0
    then (let (g', raised) = check_cancel cancelled in_async_poll g in
        (g', raised, not raised && (preempts h.preempt_every (checks / cancel_every) && is_root)))
    else (g, false, false)

-- Whether an event fires an entry, and the entry afterwards.
unfoldable pub fires : DebugEvent → ℕ → Entry → Entry × Bool
fires count step e = elim e.triggers.every_nth_instruction [
  | some n ↦
      (let c = (e.counted + step) % 4294967296 in
        if leb n c then (record e { counted = 0 }, true) else (record e { counted = c }, false))
  | none ↦ (e, false)
]
fires line step e = (e, e.triggers.every_line)
fires call step e = (e, e.triggers.on_calls)
fires tail_call step e = (e, e.triggers.on_calls)
fires ret step e = (e, e.triggers.on_returns)
fires unknown step e = (e, false)

-- `add_hook` and `remove_hook`, which re-install the hook afterwards.
unfoldable pub add_hook : HookTriggers → Hub → Hub × ℕ
add_hook t h = (
  record h {
    next_id = h.next_id + 1;
    entries = h.entries ++ record { id = h.next_id; triggers = t; counted = 0 } ∷ [];
  },
  h.next_id,
)

abbrev pub retain : ℕ → List Entry → List Entry
retain i [] = []
retain i (e ∷ es) = if e.id == i then retain i es else e ∷ retain i es

unfoldable pub remove_hook : ℕ → Hub → Hub × Bool
remove_hook i h =
    let kept = retain i h.entries in
    (record h { entries = kept }, not (length kept == length h.entries))

-- The counter is a `usize` of 64 bits.
unfoldable pub next_select_turn : Hub → Hub × ℕ
next_select_turn h =
    (record h { select_turn = (h.select_turn + 1) % 18446744073709551616 }, h.select_turn)
