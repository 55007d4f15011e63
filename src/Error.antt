-- ===== src/Error.antt =====
-- src/error.rs: the error type of every operation, and the failure that carries a Lua error.
pub mod Convert
pub mod Traceback
pub mod Crossing
pub mod Tests
use mlua_isle.Base.{ℕ, String, Option, none}

pub data LuaErrorKind : Type 0 where
  runtime syntax memory callback external conversion other : LuaErrorKind

pub record LuaFailure : Type 0 where
  pub kind : LuaErrorKind
  pub message : String
  pub traceback : Option String

unfoldable pub failure : LuaErrorKind → String → LuaFailure
failure kind message = record { kind = kind; message = message; traceback = none }

pub data IsleError : Type 0 where
  shutdown cancelled channel_full wrong_isle recv_failed : IsleError
  lua init : LuaFailure → IsleError
  not_found pool_poisoned : String → IsleError
  thread_panic : Option String → IsleError
  pool_exhausted : ℕ → IsleError
