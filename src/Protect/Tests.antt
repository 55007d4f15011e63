-- ===== src/Protect/Tests.antt =====
-- src/protect.rs: a function that raises a text, at concrete calls.
use mlua_isle.Base.{ℕ, ◌≡◌, refl, Bool, true, false, List, [], ◌∷◌, none, some, ok, err, ◌==◌}
use mlua_isle.Error.{IsleError, LuaErrorKind}
use mlua_isle.Error.Tests.{plain}
use mlua_isle.Protect.{
  Value, other, Lua, Traces, trace_handler, take_handler, call, call_result, wrap_call, unwrap_root,
}
use mlua_isle.Protect.Agree.{root_agrees, values_of}

abbrev pub same_value : Value → Value → Bool
same_value (other i) (other j) = i == j
same_value _ _ = false

abbrev pub plain_lua : Lua
plain_lua = record {
  mlua = plain;
  rawequal = same_value;
  to_string = λ v. some "boom";
  debug = λ v. "";
}

-- The handler sees the value 4, which is then raised.
abbrev pub raises_four : Traces → Traces × (Bool × List Value)
raises_four t = ((trace_handler true 1 (other 4) "trace" t).0, (false, other 4 ∷ []))

root_agrees_example :
    let t = λ (i : ℕ). none in
    let (after, out) = wrap_call plain_lua true 1 (λ x. values_of (raises_four x)) t in
    (after, unwrap_root plain_lua "" out)
    ≡ call plain_lua none true 1
        (λ x. let (a, values) = values_of (raises_four x) in (a, ok values))
        t
root_agrees_example = root_agrees plain_lua "" true 1 raises_four (λ i. none)

-- The failure has the traceback of the handler.
raised_four :
    (call plain_lua none true 1
      (λ x. let (a, values) = values_of (raises_four x) in (a, ok values))
      (λ i. none)).1
    ≡ err (
        IsleError.lua
          (record { kind = LuaErrorKind.runtime; message = "boom"; traceback = some "trace" }))
unfolding call call_result trace_handler take_handler
raised_four = refl
