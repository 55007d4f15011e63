-- ===== src/Protect.antt =====
-- src/protect.rs: Lua called under `xpcall`, and the failure made of what it raised. `traces` is the
-- registry table of the message handler; a thread is named by a number. A call of `take` itself does not
-- fail here.
pub mod Agree
pub mod Tests
use Prim.Native.String.{find, len}
use mlua_isle.Base.{
  ℕ, Bool, true, false, List, [], ◌∷◌, ◌++◌, Option, none, some, String, Result, ok, err, leb,
  if◌then◌else◌, update,
}
use mlua_isle.Error.{IsleError, LuaErrorKind, LuaFailure, failure}
use mlua_isle.Error.Convert.{Mlua, MluaError, to_isle}

-- A Lua value: the variants that the source names; every other one is `other`.
pub data Value : Type 0 where
  nil : Value
  boolean : Bool → Value
  string : String → Value
  error : MluaError → Value
  other : ℕ → Value

-- What Lua does with values: `rawequal`, `tostring`, which can fail, and the `Debug` of mlua.
pub record Lua : Type 0 where
  pub mlua : Mlua
  pub rawequal : Value → Value → Bool
  pub to_string : Value → Option String
  pub debug : Value → String

-- The error value that the handler saw, and its traceback.
pub record Entry : Type 0 where
  pub stored : Value
  pub traceback : String

abbrev pub Traces : Type 0
Traces = ℕ → Option Entry

-- `room`: whether there is stack for the handler, and its table is there. It returns the error unchanged.
unfoldable pub trace_handler : Bool → ℕ → Value → String → Traces → Traces × Value
trace_handler room thread e trace traces = (
  if room then update traces thread (some (record { stored = e; traceback = trace })) else traces,
  e,
)

-- What is taken for `e`, and the entry is cleared.
abbrev pub take_entry : Lua → Value → Option Entry → Bool × Option String
take_entry L e none = (false, none)
take_entry L e (some entry) =
    if L.rawequal e entry.stored then (true, some entry.traceback) else (false, none)

unfoldable pub take_handler : Lua → Bool → ℕ → Value → Traces → Traces × (Bool × Option String)
take_handler L room thread e traces =
    if room
    then (update traces thread none, take_entry L e (traces thread))
    else (traces, (false, none))

-- Whether a text contains another: `find` answers with one more than the length where it does not.
abbrev pub contains : String → String → Bool
contains s t = leb (find s t) (len s)

unfoldable pub message_of : Lua → Value → String
message_of L (string s) = elim (L.to_string (string s)) [ some t ↦ t | none ↦ s ]
message_of L v = elim (L.to_string v) [ some t ↦ t | none ↦ L.debug v ]

unfoldable pub unhandled_kind : String → LuaErrorKind
unhandled_kind message =
    if contains message "not enough memory"
    then LuaErrorKind.memory
    else if contains message "error in error handling"
    then LuaErrorKind.other
    else LuaErrorKind.runtime

abbrev pub or_trace : Option String → Option String → Option String
or_trace none trace = trace
or_trace (some t) trace = some t

abbrev pub add_trace : Option String → IsleError → IsleError
add_trace trace (IsleError.lua f) =
    IsleError.lua (record f { traceback = or_trace f.traceback trace })
add_trace trace e = e

-- `error_from_value` at a value that is not an error of mlua.
unfoldable pub raised : Lua → Value → Bool → Option String → IsleError
unfolding failure unhandled_kind message_of
raised L v handled trace =
    let message = message_of L v in
    if handled
    then IsleError.lua (record (failure LuaErrorKind.runtime message) { traceback = trace })
    else IsleError.lua (failure (unhandled_kind message) message)

unfoldable pub error_from_value : Lua → Value → Bool → Option String → IsleError
unfolding raised
error_from_value L (error e) handled trace = add_trace trace (to_isle L.mlua e)
error_from_value L v handled trace = raised L v handled trace

abbrev pub first_or_nil : List Value → Value
first_or_nil [] = nil
first_or_nil (v ∷ vs) = v

abbrev pub tail : List Value → List Value
tail [] = []
tail (v ∷ vs) = vs

-- What `call` makes of the values of `xpcall`.
unfoldable pub call_result :
    Lua → Bool → ℕ → List Value → Traces → Traces × Result (List Value) IsleError
unfolding take_handler error_from_value
call_result L room thread (boolean true ∷ vs) traces = (traces, ok vs)
call_result L room thread out traces =
    let e = first_or_nil (tail out) in
    let (traces', (handled, trace)) = take_handler L room thread e traces in
    (traces', err (error_from_value L e handled trace))

-- `call`; `parts` is the error of the installation, and `xpcall` what Lua does: the handler's entries
-- that it leaves, and its values.
unfoldable pub call :
    Lua
    → Option IsleError
    → Bool
    → ℕ
    → (Traces → Traces × Result (List Value) MluaError)
    → Traces
    → Traces × Result (List Value) IsleError
unfolding take_handler call_result
call L (some e) room thread xpcall traces = (traces, err e)
call L none room thread xpcall traces =
    let (after, out) = xpcall (take_handler L room thread nil traces).0 in
    elim out [
      | err e ↦ (after, err (to_isle L.mlua e))
      | ok values ↦ call_result L room thread values after
    ]

-- `WRAP_CALL`, the Lua code that runs a root, from its `take` on; `mark`, which comes first, is left out.
abbrev pub take_values : Bool × Option String → List Value
take_values (handled, none) = boolean handled ∷ []
take_values (handled, some trace) = boolean handled ∷ string trace ∷ []

abbrev pub is_truthy : Value → Bool
is_truthy nil = false
is_truthy (boolean b) = b
is_truthy _ = true

unfoldable pub finish : Lua → Bool → ℕ → List Value → Traces → Traces × List Value
unfolding take_handler
finish L room thread out traces =
    let e = first_or_nil (tail out) in
    let (after, taken) = take_handler L room thread e traces in
    if is_truthy (first_or_nil out)
    then (traces, boolean true ∷ tail out)
    else (after, boolean false ∷ e ∷ take_values taken)

unfoldable pub wrap_call :
    Lua → Bool → ℕ → (Traces → Traces × List Value) → Traces → Traces × List Value
unfolding take_handler finish
wrap_call L room thread xpcall traces =
    let (after, out) = xpcall (take_handler L room thread nil traces).0 in
    finish L room thread out after

abbrev pub is_true : List Value → Bool
is_true (boolean true ∷ vs) = true
is_true _ = false

abbrev pub trace_of : List Value → Option String
trace_of (v ∷ string s ∷ vs) = some s
trace_of _ = none

-- `unwrap_root`; `unexpected` is the message for what `WRAP_CALL` does not produce.
unfoldable pub unwrap_root : Lua → String → List Value → Result (List Value) IsleError
unfolding error_from_value failure
unwrap_root L unexpected (boolean true ∷ vs) = ok vs
unwrap_root L unexpected (boolean false ∷ vs) =
    err (error_from_value L (first_or_nil vs) (is_true (tail vs)) (trace_of (tail vs)))
unwrap_root L unexpected vs = err (IsleError.lua (failure LuaErrorKind.other unexpected))
