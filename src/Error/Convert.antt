-- ===== src/Error/Convert.antt =====
-- src/error.rs: the conversions from and to the errors of mlua.
use Prim.Native.String.{slice, find, len, ◌++◌, []}
use mlua_isle.Base.{ℕ, ◌+◌, ◌≡◌, Bool, true, false, Option, none, some, leb, String, if◌then◌else◌}
use mlua_isle.Error.{IsleError, LuaErrorKind, LuaFailure, failure}

-- What an `ExternalError` holds: `Cancelled`, an `IsleError`, or an error of the host, by number.
pub data External : Type 0 where
  cancel : External
  isle : IsleError → External
  host : ℕ → External

-- `mlua::Error`: the variants that the source names; every other one is `other_error`.
pub data MluaError : Type 0 where
  callback_error : String → MluaError → MluaError
  with_context : String → MluaError → MluaError
  bad_argument : MluaError → MluaError
  runtime_error syntax_error memory_error : String → MluaError
  external_error : External → MluaError
  from_lua_error serialize_error deserialize_error other_error : ℕ → MluaError

-- What mlua does with an error: its `Display`, and the `ExternalError` that `downcast_ref` looks at.
pub record Mlua : Type 0 where
  pub display : MluaError → String
  pub root : MluaError → Option External

-- What the documentation of `downcast_ref` says: it walks the `CallbackError`, `WithContext` and
-- `BadArgument` chain down to the `ExternalError`.
pub record MluaLaws (M : Mlua) : Type 0 where
  pub callback_root : (t : String) (e : MluaError) → M.root (callback_error t e) ≡ M.root e
  pub context_root : (c : String) (e : MluaError) → M.root (with_context c e) ≡ M.root e
  pub argument_root : (e : MluaError) → M.root (bad_argument e) ≡ M.root e
  pub external_root : (x : External) → M.root (external_error x) ≡ some x

abbrev pub marker : String
marker = "\nstack traceback:"

-- `find` answers with one more than the length where nothing is found.
unfoldable pub split_traceback : String → String × Option String
split_traceback msg =
    let pos = find msg marker in
    if leb pos (len msg)
    then (slice msg 0 pos, some (slice msg (pos + 1) (len msg)))
    else (msg, none)

abbrev pub with_traceback : Option String → LuaFailure → LuaFailure
with_traceback t f = record f { traceback = t }

-- `Some(traceback).filter(|t| !t.is_empty()).or(inner)`.
abbrev pub filter_empty : String → Option String → Option String
filter_empty [] inner = inner
filter_empty t inner = some t

-- The failure of the loop over `CallbackError`s that ended at `inner`, whose last traceback is given.
unfoldable pub callback_failure : Option String → LuaFailure → LuaFailure
unfolding failure
callback_failure none inner = inner
callback_failure (some t) inner =
    with_traceback (filter_empty t inner.traceback) (failure LuaErrorKind.callback inner.message)

-- `LuaFailure::from_mlua` below the `CallbackError`s whose last traceback is `t`.
unfoldable pub from_cause : Mlua → MluaError → Option String → LuaFailure
unfolding failure callback_failure split_traceback
from_cause M (callback_error u cause) t = from_cause M cause (some u)
from_cause M (with_context context cause) t =
    let f = from_cause M cause none in
    callback_failure t (record f { message = context ++ "\n" ++ f.message })
from_cause M (runtime_error msg) t =
    let (message, traceback) = split_traceback msg in
    callback_failure t (with_traceback traceback (failure LuaErrorKind.runtime message))
from_cause M (syntax_error message) t = callback_failure t (failure LuaErrorKind.syntax message)
from_cause M (memory_error message) t = callback_failure t (failure LuaErrorKind.memory message)
from_cause M (external_error x) t =
    callback_failure t (failure LuaErrorKind.external (M.display (external_error x)))
from_cause M (from_lua_error i) t =
    callback_failure t (failure LuaErrorKind.conversion (M.display (from_lua_error i)))
from_cause M (bad_argument e) t =
    callback_failure t (failure LuaErrorKind.conversion (M.display (bad_argument e)))
from_cause M (serialize_error i) t =
    callback_failure t (failure LuaErrorKind.conversion (M.display (serialize_error i)))
from_cause M (deserialize_error i) t =
    callback_failure t (failure LuaErrorKind.conversion (M.display (deserialize_error i)))
from_cause M (other_error i) t =
    callback_failure t (failure LuaErrorKind.other (M.display (other_error i)))

unfoldable pub from_mlua : Mlua → MluaError → LuaFailure
unfolding from_cause
from_mlua M e = from_cause M e none

abbrev pub is_cancelled_error : IsleError → Bool
is_cancelled_error IsleError.cancelled = true
is_cancelled_error _ = false

-- `downcast_ref::<Cancelled>`, or `downcast_ref::<IsleError>` at its `Cancelled`.
abbrev pub holds_cancel : External → Bool
holds_cancel cancel = true
holds_cancel (isle e) = is_cancelled_error e
holds_cancel (host i) = false

abbrev pub root_cancels : Option External → Bool
root_cancels none = false
root_cancels (some x) = holds_cancel x

unfoldable pub is_cancel : Mlua → MluaError → Bool
is_cancel M e = root_cancels (M.root e)

abbrev pub cancel_error : MluaError
cancel_error = external_error cancel

-- `impl From<mlua::Error> for IsleError`.
unfoldable pub to_isle : Mlua → MluaError → IsleError
unfolding is_cancel from_mlua
to_isle M e = if is_cancel M e then IsleError.cancelled else IsleError.lua (from_mlua M e)

-- `impl From<IsleError> for mlua::Error`.
unfoldable pub to_mlua : IsleError → MluaError
to_mlua IsleError.cancelled = cancel_error
to_mlua e = external_error (isle e)
