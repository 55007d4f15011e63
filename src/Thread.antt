-- ===== src/Thread.antt =====
-- src/thread.rs: the bodies of the requests, run under the token of the request, and the answer of a root
-- in src/scope.rs. `Env` is what they call: mlua, the attachment of the VM and the call under `xpcall`.
pub mod Roots
mod Tests
use Prim.Native.String.{◌++◌}
use mlua_isle.Base.{
  ℕ, Bool, true, false, List, Option, none, some, String, Result, ok, err, Poll, ready, pending,
  if◌then◌else◌,
}
use mlua_isle.Error.{IsleError}
use mlua_isle.Error.Convert.{Mlua, MluaError, to_isle, cancel_error}
use mlua_isle.Protect.{Lua, Value, unwrap_root}

-- `State` is the VM, with the tokens that other threads cancel; the first argument of what runs code is
-- the current token of the thread. `global` gives nothing where the global is not a function.
pub record Env : Type 1 where
  pub State : Type 0
  pub Function : Type 0
  pub Values : Type 0
  pub Answer : Type 0
  pub mlua : Mlua
  pub ensure_attached : State → State × Option IsleError
  pub load : String → State → State × Result Function MluaError
  pub global : String → State → State × Result (Option Function) MluaError
  pub registry_value : ℕ → State → State × Result Function MluaError
  pub no_values : Values
  pub call : Option ℕ → Function → Values → State → State × Result Values IsleError
  pub from_lua : Option ℕ → Values → State → State × Result Answer MluaError
  pub is_cancelled : ℕ → State → Bool

-- `current`: the current token of the thread.
pub record Vm (E : Env) : Type 0 where
  pub lua : E.State
  pub current : Option ℕ

abbrev pub Run : Env → Type 0 → Type 0
Run E A = Vm E → Vm E × Result A IsleError

unfoldable pub cancelled_wins : {A : Type 0} → Result A IsleError → Bool → Result A IsleError
cancelled_wins (ok a) cancelled = ok a
cancelled_wins (err e) cancelled = if cancelled then err IsleError.cancelled else err e

module _ {E : Env} where
  -- The `?` operator.
  abbrev pub after_ok :
      {A B : Type 0} → Vm E × Result A IsleError → (A → Run E B) → Vm E × Result B IsleError
  after_ok (vm, ok a) next = next a vm
  after_ok (vm, err e) next = (vm, err e)

  abbrev pub put : {A : Type 0} → Vm E → E.State × Result A IsleError → Vm E × Result A IsleError
  put vm (s, r) = (record vm { lua = s }, r)

  -- An error of mlua becomes one of the crate.
  abbrev pub put_mlua :
      {A : Type 0} → Vm E → E.State × Result A MluaError → Vm E × Result A IsleError
  put_mlua vm (s, ok a) = (record vm { lua = s }, ok a)
  put_mlua vm (s, err e) = (record vm { lua = s }, err (to_isle E.mlua e))

  -- `ensure_attached`, and then the rest with `EnterGuard`, whose drop restores the token.
  unfoldable pub entered : {A : Type 0} → ℕ → Run E A → Run E A
  entered token body vm =
      let (s, failed) = E.ensure_attached vm.lua in
      let (after, r) = body (record { lua = s; current = some token }) in
      elim failed [
        | some e ↦ (record vm { lua = s }, err e)
        | none ↦ (record after { current = vm.current }, r)
      ]

  unfoldable pub load_eval : String → Vm E → E.State × Result E.Function MluaError
  load_eval code vm =
      let (s', r) = E.load ("return " ++ code) vm.lua in
      elim r [ ok f ↦ (s', ok f) | err e ↦ E.load code s' ]

  -- What a sync request makes of the values of its call, under its token.
  unfoldable pub convert : ℕ → Vm E × Result E.Values IsleError → Vm E × Result E.Answer IsleError
  unfolding cancelled_wins
  convert token (vm, result) =
      after_ok (vm, cancelled_wins result (E.is_cancelled token vm.lua))
        (λ values v. put_mlua v (E.from_lua v.current values v.lua))

  unfoldable pub protected : E.Function → E.Values → Run E E.Values
  protected f args vm = put vm (E.call vm.current f args vm.lua)

  unfoldable pub eval_body : String → ℕ → Run E E.Answer
  unfolding load_eval convert protected
  eval_body code token vm =
      convert token (after_ok (put_mlua vm (load_eval code vm)) (λ f. protected f E.no_values))

  unfoldable pub execute_eval : String → ℕ → Run E E.Answer
  unfolding entered eval_body
  execute_eval code token = entered token (eval_body code token)

  unfoldable pub execute_exec : {A : Type 0} → Run E A → ℕ → Run E A
  unfolding entered
  execute_exec f token = entered token f

  unfoldable pub global_function : String → Run E E.Function
  global_function name vm =
      after_ok (put_mlua vm (E.global name vm.lua))
        (λ found v. elim found [ some f ↦ (v, ok f) | none ↦ (v, err (IsleError.not_found name)) ])

  -- `args` is the conversion of the arguments.
  unfoldable pub call_function :
      E.Function → (E.State → E.State × Result E.Values MluaError) → ℕ → Run E E.Answer
  unfolding convert protected
  call_function f args token vm =
      after_ok (put_mlua vm (args vm.lua)) (λ values v. convert token (protected f values v))

  unfoldable pub call_body :
      String → (E.State → E.State × Result E.Values MluaError) → ℕ → Run E E.Answer
  unfolding global_function call_function
  call_body name args token vm =
      after_ok (global_function name vm) (λ f. call_function f args token)

  unfoldable pub execute_call :
      String → (E.State → E.State × Result E.Values MluaError) → ℕ → Run E E.Answer
  unfolding entered call_body
  execute_call name args token = entered token (call_body name args token)

  unfoldable pub call_fn_body :
      ℕ → (E.State → E.State × Result E.Values MluaError) → ℕ → Run E E.Answer
  unfolding call_function
  call_fn_body key args token vm =
      after_ok (put_mlua vm (E.registry_value key vm.lua)) (λ f. call_function f args token)

  unfoldable pub execute_call_fn :
      ℕ → (E.State → E.State × Result E.Values MluaError) → ℕ → Run E E.Answer
  unfolding entered call_fn_body
  execute_call_fn key args token = entered token (call_fn_body key args token)

-- The answer of `run_root`, from what `run_in` gave.
unfoldable pub root_answer :
    Lua → String → Bool → Option (Result (List Value) MluaError) → Result (List Value) IsleError
unfolding unwrap_root
root_answer L unexpected true out = err IsleError.cancelled
root_answer L unexpected false none = err IsleError.cancelled
root_answer L unexpected false (some (err e)) = err (to_isle L.mlua e)
root_answer L unexpected false (some (ok values)) = unwrap_root L unexpected values

-- One poll of `cancellable`, where `current` says whether there is a current token, and whether it is
-- cancelled, and `out` is what the poll of the future gives.
unfoldable pub cancellable :
    {A : Type 0} → Option Bool → Poll (Result A MluaError) → Poll (Result A MluaError)
cancellable none out = out
cancellable (some cancelled) out = if cancelled then ready (err cancel_error) else out
