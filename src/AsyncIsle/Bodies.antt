-- ===== src/AsyncIsle/Bodies.antt =====
-- src/async_isle.rs: the start of the thread, and the bodies of the coroutine requests. What the `run` of
-- the VM gives for a function and its arguments, under the token of the request, is an argument.
use Prim.Native.String.{◌++◌}
use mlua_isle.Base.{
  String, ℕ, Bool, true, false, Option, none, some, Result, ok, err, ◌≡◌, ◌⊎◌, refl, inl, inr,
}
use mlua_isle.Error.{IsleError, LuaErrorKind, failure}
use mlua_isle.Error.Convert.{Mlua, MluaError, External, external_error, from_mlua}
use mlua_isle.Handle.{Thread, serving, stopped, panicked, Outcome, returns, panics}
use mlua_isle.AsyncIsle.{Job, sync, coroutine}
use mlua_isle.Thread.{
  execute_eval, execute_call, execute_call_fn, execute_exec, Env, Run, after_ok, put_mlua,
  global_function,
}

-- `init`: what was sent to `spawn_inner`, if anything was. `done`: as for the driver.
pub record Start : Type 0 where
  pub init : Option (Option IsleError)
  pub done : Option Bool
  pub thread : Thread

-- The thread of `spawn_inner`. `build`: the error of the tokio runtime. `factory`: what the Lua factory
-- does. `out`: what the installation, the init closure and the attachment do.
unfoldable pub start_thread :
    (build : Option String) → (factory : Outcome Unit) → (out : Outcome (Option IsleError)) → Start
unfolding failure
start_thread (some e) factory out = record {
  init =
      some (
        some
          (IsleError.init (failure LuaErrorKind.external ("tokio runtime build failed: " ++ e))));
  done = some true;
  thread = stopped;
}
start_thread none (panics m) out = record { init = none; done = some false; thread = panicked m }
start_thread none (returns u) (panics m) = record {
  init = none;
  done = some false;
  thread = panicked m;
}
start_thread none (returns u) (returns (some e)) = record {
  init = some (some e);
  done = some true;
  thread = stopped;
}
start_thread none (returns u) (returns none) = record {
  init = some none;
  done = none;
  thread = serving;
}

-- The message of a thread that has panicked.
abbrev pub payload : Thread → Option String
payload serving = none
payload stopped = none
payload (panicked m) = m

-- The answer of `spawn_inner`, where `started` is the error of the start of the thread.
unfoldable pub spawn_inner : Mlua → Option External → Start → Result Thread IsleError
spawn_inner M (some e) start = err (IsleError.init (from_mlua M (external_error e)))
spawn_inner M none start = elim start.init [
  | none ↦ err (IsleError.thread_panic (payload start.thread))
  | some (some e) ↦ err e
  | some none ↦ ok start.thread
]

module _ {E : Env} where
  -- `EnterGuard` for the conversion only.
  unfoldable pub convert : ℕ → E.Values → Run E E.Answer
  convert token values vm = put_mlua vm (E.from_lua (some token) values vm.lua)

  -- The values of the run, converted.
  unfoldable pub run_and_convert :
      (E.Function → E.Values → Run E E.Values) → ℕ → E.Function → E.Values → Run E E.Answer
  unfolding convert
  run_and_convert run token f args vm = after_ok (run f args vm) (convert token)

  unfoldable pub execute_coroutine_eval :
      (E.Function → E.Values → Run E E.Values) → String → ℕ → Run E E.Answer
  unfolding run_and_convert
  execute_coroutine_eval run code token vm =
      after_ok (put_mlua vm (E.load code vm.lua)) (λ f. run_and_convert run token f E.no_values)

  unfoldable pub execute_coroutine_call :
      (E.Function → E.Values → Run E E.Values)
      → String
      → (E.State → E.State × Result E.Values MluaError)
      → ℕ
      → Run E E.Answer
  unfolding run_and_convert global_function
  execute_coroutine_call run name args token vm =
      after_ok (global_function name vm)
        (λ f v. after_ok (put_mlua v (args v.lua)) (run_and_convert run token f))

  unfoldable pub execute_coroutine_call_fn :
      (E.Function → E.Values → Run E E.Values)
      → ℕ
      → (E.State → E.State × Result E.Values MluaError)
      → ℕ
      → Run E E.Answer
  unfolding run_and_convert
  execute_coroutine_call_fn run key args token vm =
      after_ok (put_mlua vm (E.registry_value key vm.lua))
        (λ f v. after_ok (put_mlua v (args v.lua)) (run_and_convert run token f))

-- What a request asks for: the functions of the isle, each with its `spawn_` form.
pub data Operation (E : Env) : Type 0 where
  eval coroutine_eval : String → Operation E
  call coroutine_call : String → (E.State → E.State × Result E.Values MluaError) → Operation E
  call_fn coroutine_call_fn : ℕ → (E.State → E.State × Result E.Values MluaError) → Operation E
  exec : Run E E.Answer → Operation E

module _ {E : Env} where
  -- Whether the request runs in the receive loop.
  unfoldable pub job_of : Operation E → Job
  job_of (eval code) = sync
  job_of (call name args) = sync
  job_of (call_fn key args) = sync
  job_of (exec f) = sync
  job_of (coroutine_eval code) = coroutine
  job_of (coroutine_call name args) = coroutine
  job_of (coroutine_call_fn key args) = coroutine

  -- What the job of a request runs under its token.
  unfoldable pub body :
      (E.Function → E.Values → Run E E.Values) → Operation E → (token : ℕ) → Run E E.Answer
  unfolding execute_eval execute_call execute_call_fn execute_exec execute_coroutine_eval
      execute_coroutine_call execute_coroutine_call_fn
  body run (eval code) token = execute_eval code token
  body run (call name args) token = execute_call name args token
  body run (call_fn key args) token = execute_call_fn key args token
  body run (exec f) token = execute_exec f token
  body run (coroutine_eval code) token = execute_coroutine_eval run code token
  body run (coroutine_call name args) token = execute_coroutine_call run name args token
  body run (coroutine_call_fn key args) token = execute_coroutine_call_fn run key args token

-- A start that fails leaves no thread behind: `spawn_inner` gives a thread only when it serves, and an
-- error only when the thread has ended, so that a wait for its end does not block.
pub spawn_inner_lem :
    (M : Mlua) (build : Option String) (factory : Outcome Unit) (out : Outcome (Option IsleError))
    → let start = start_thread build factory out in
      (spawn_inner M none start ≡ ok serving)
      ⊎ ((e : IsleError) × ((d : Bool) × ((spawn_inner M none start ≡ err e)
              × (start.done ≡ some d))))
unfolding spawn_inner start_thread
spawn_inner_lem M (some e) factory out = inr (_, (true, (refl, refl)))
spawn_inner_lem M none (panics m) out = inr (_, (false, (refl, refl)))
spawn_inner_lem M none (returns u) (panics m) = inr (_, (false, (refl, refl)))
spawn_inner_lem M none (returns u) (returns (some e)) = inr (e, (true, (refl, refl)))
spawn_inner_lem M none (returns u) (returns none) = inl refl
