-- ===== src/Error/Crossing.antt =====
-- src/error.rs: errors that cross between Rust and Lua.
use Prim.Native.String.{[]}
use mlua_isle.Base.{
  ◌≡◌, refl, ap, ◌∙◌, Bool, true, false, List, [], ◌∷◌, Option, none, some, String, if◌then◌else◌,
  arith,
}
use mlua_isle.Error.{IsleError, LuaErrorKind, LuaFailure, failure}
use mlua_isle.Error.Convert.{
  MluaError, External, Mlua, MluaLaws, callback_error, with_context, bad_argument, external_error,
  cancel, isle, from_cause, from_mlua, is_cancel, to_isle, to_mlua, callback_failure, filter_empty,
  is_cancelled_error, holds_cancel, root_cancels, runtime_error, syntax_error, memory_error,
  from_lua_error, serialize_error, deserialize_error, other_error,
}

-- What an error passes on its way: a call of a Rust function from Lua, or a context.
pub data Layer : Type 0 where
  through_call : String → Layer
  in_context : String → Layer
  as_argument : Layer

abbrev pub wrap : List Layer → MluaError → MluaError
wrap [] e = e
wrap (through_call t ∷ ls) e = callback_error t (wrap ls e)
wrap (in_context c ∷ ls) e = with_context c (wrap ls e)
wrap (as_argument ∷ ls) e = bad_argument (wrap ls e)

to_mlua_external :
    (e : IsleError)
    → (x : External) × (to_mlua e ≡ external_error x) × (holds_cancel x ≡ is_cancelled_error e)
unfolding to_mlua
to_mlua_external IsleError.cancelled = (cancel, refl, refl)
to_mlua_external IsleError.shutdown = (isle IsleError.shutdown, refl, refl)
to_mlua_external IsleError.channel_full = (isle IsleError.channel_full, refl, refl)
to_mlua_external IsleError.wrong_isle = (isle IsleError.wrong_isle, refl, refl)
to_mlua_external IsleError.recv_failed = (isle IsleError.recv_failed, refl, refl)
to_mlua_external (IsleError.lua f) = (isle (IsleError.lua f), refl, refl)
to_mlua_external (IsleError.init f) = (isle (IsleError.init f), refl, refl)
to_mlua_external (IsleError.not_found s) = (isle (IsleError.not_found s), refl, refl)
to_mlua_external (IsleError.pool_poisoned s) = (isle (IsleError.pool_poisoned s), refl, refl)
to_mlua_external (IsleError.thread_panic o) = (isle (IsleError.thread_panic o), refl, refl)
to_mlua_external (IsleError.pool_exhausted n) = (isle (IsleError.pool_exhausted n), refl, refl)

is_cancelled_if :
    (b : Bool) (f : LuaFailure)
    → is_cancelled_error (if b then IsleError.cancelled else IsleError.lua f) ≡ b
is_cancelled_if true f = refl
is_cancelled_if false f = refl

-- The calls of Rust functions from Lua that an error passes, the outermost first, by their tracebacks.
abbrev pub calls : List String → MluaError → MluaError
calls [] e = e
calls (t ∷ ts) e = callback_error t (calls ts e)

abbrev pub is_callback : MluaError → Bool
is_callback (callback_error t e) = true
is_callback _ = false

module _ (M : Mlua) where
  wrap_root : (laws : MluaLaws M) (ls : List Layer) (e : MluaError) → M.root (wrap ls e) ≡ M.root e
  wrap_root laws [] e = refl
  wrap_root laws (through_call t ∷ ls) e = laws.callback_root t (wrap ls e) ∙ wrap_root laws ls e
  wrap_root laws (in_context c ∷ ls) e = laws.context_root c (wrap ls e) ∙ wrap_root laws ls e
  wrap_root laws (as_argument ∷ ls) e = laws.argument_root (wrap ls e) ∙ wrap_root laws ls e

  -- Where `downcast_ref` does what its documentation says: an error of the crate that crosses to Lua and
  -- back, through any calls and contexts and as an argument, is the cancel error after it exactly if it
  -- was before.
  pub cancel_crosses :
      (laws : MluaLaws M) (ls : List Layer) (e : IsleError)
      → is_cancelled_error (to_isle M (wrap ls (to_mlua e))) ≡ is_cancelled_error e
  unfolding to_isle is_cancel
  cancel_crosses laws ls e =
      let (x, p, q) = to_mlua_external e in
      let u = wrap ls (to_mlua e) in
      let root = wrap_root laws ls (to_mlua e) ∙ ap M.root p ∙ laws.external_root x in
      is_cancelled_if (is_cancel M u) (from_mlua M u) ∙ ap root_cancels root ∙ q

  calls_innermost :
      (ts : List String) (t : String) (e : MluaError) (o : Option String)
      → from_cause M (calls ts (callback_error t e)) o ≡ from_cause M e (some t)
  unfolding from_cause
  calls_innermost [] t e o = refl
  calls_innermost (u ∷ us) t e o = calls_innermost us t e (some u)

  below_call :
      (e : MluaError) (t : String)
      → is_callback e ≡ false
      → from_cause M e (some t) ≡ callback_failure (some t) (from_mlua M e)
  unfolding from_cause from_mlua callback_failure
  below_call (callback_error u e) t n = absurd (ground (arith, n))
  below_call (with_context c e) t n = refl
  below_call (bad_argument e) t n = refl
  below_call (runtime_error m) t n = refl
  below_call (syntax_error m) t n = refl
  below_call (memory_error m) t n = refl
  below_call (external_error x) t n = refl
  below_call (from_lua_error i) t n = refl
  below_call (serialize_error i) t n = refl
  below_call (deserialize_error i) t n = refl
  below_call (other_error i) t n = refl

  -- An error that comes back through calls of Rust functions from Lua is a failure of the kind of a
  -- callback, however many calls there were; its message is that of its cause alone, and its traceback
  -- that of the innermost call, or that of the cause if the call has none.
  pub calls_lem :
      (ts : List String) (t : String) (cause : MluaError)
      → is_callback cause ≡ false
      → from_mlua M (calls ts (callback_error t cause)) ≡ record {
        kind = LuaErrorKind.callback;
        message = (from_mlua M cause).message;
        traceback = filter_empty t (from_mlua M cause).traceback;
      }
  unfolding from_mlua callback_failure failure
  calls_lem ts t cause n = calls_innermost ts t cause none ∙ below_call cause t n
