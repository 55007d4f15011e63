-- ===== src/Protect/Agree.antt =====
-- src/protect.rs: a request that is called, and one that runs as a root.
use mlua_isle.Base.{
  ℕ, ◌≡◌, refl, ap, Bool, true, false, List, ◌∷◌, Option, none, some, String, ok, err,
}
use mlua_isle.Protect.{
  Value, nil, boolean, Lua, Traces, take_handler, take_values, call_result, call, finish, wrap_call,
  unwrap_root, error_from_value, first_or_nil,
}

unwrap_taken :
    (L : Lua) (u : String) (e : Value) (taken : Bool × Option String)
    → unwrap_root L u (boolean false ∷ e ∷ take_values taken)
      ≡ err (error_from_value L e taken.0 taken.1)
unfolding unwrap_root
unwrap_taken L u e (true, none) = refl
unwrap_taken L u e (false, none) = refl
unwrap_taken L u e (true, some t) = refl
unwrap_taken L u e (false, some t) = refl

finish_agrees :
    (L : Lua) (u : String) (room : Bool) (thread : ℕ) (success : Bool) (values : List Value)
    (traces : Traces)
    → let (after, out) = finish L room thread (boolean success ∷ values) traces in
      (after, unwrap_root L u out) ≡ call_result L room thread (boolean success ∷ values) traces
unfolding finish call_result unwrap_root
finish_agrees L u room thread true values traces = refl
finish_agrees L u room thread false values traces =
    let (after, taken) = take_handler L room thread (first_or_nil values) traces in
    ap (λ r. (after, r)) (unwrap_taken L u (first_or_nil values) taken)

-- The values of `xpcall`: first whether it succeeded.
abbrev pub values_of : Traces × (Bool × List Value) → Traces × List Value
values_of (traces, (success, values)) = (traces, boolean success ∷ values)

-- What `unwrap_root` makes of the values of `wrap_call` is what `call` answers for the same function
-- when the installation did not fail, and both leave the same entries in the table of the handler,
-- whatever the function does to that table and whatever it returns or raises. The token of a root, for
-- which `run_root` gives another answer once it is cancelled, is not looked at here.
pub root_agrees :
    (L : Lua) (u : String) (room : Bool) (thread : ℕ)
    (xpcall : Traces → Traces × (Bool × List Value)) (traces : Traces)
    → let (after, out) = wrap_call L room thread (λ t. values_of (xpcall t)) traces in
      (after, unwrap_root L u out)
      ≡ call L none room thread
          (λ t. let (a, values) = values_of (xpcall t) in (a, ok values))
          traces
unfolding wrap_call call
root_agrees L u room thread xpcall traces =
    let (after, (success, values)) = xpcall (take_handler L room thread nil traces).0 in
    finish_agrees L u room thread success values after
