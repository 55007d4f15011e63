-- ===== src/Error/Tests.antt =====
-- src/error.rs: a cancel and a Lua error, at concrete calls.
use Prim.Native.String.{[]}
use mlua_isle.Base.{◌≡◌, refl, true, [], ◌∷◌, Option, none, some}
use mlua_isle.Error.{IsleError}
use mlua_isle.Error.Convert.{
  MluaError, External, Mlua, MluaLaws, callback_error, with_context, bad_argument, external_error,
  split_traceback, to_isle, to_mlua, is_cancelled_error,
}
use mlua_isle.Error.Crossing.{through_call, in_context, as_argument, wrap, cancel_crosses}

-- The end of the chain.
abbrev pub chain_root : MluaError → Option External
chain_root (callback_error t e) = chain_root e
chain_root (with_context c e) = chain_root e
chain_root (bad_argument e) = chain_root e
chain_root (external_error x) = some x
chain_root _ = none

abbrev pub plain : Mlua
plain = record { display = λ e. "an error"; root = chain_root }

plain_laws : MluaLaws plain
plain_laws = record {
  callback_root = λ t e. refl;
  context_root = λ c e. refl;
  argument_root = λ e. refl;
  external_root = λ x. refl;
}

cancel_crosses_example :
    is_cancelled_error (
      to_isle plain
        (wrap (through_call "t" ∷ in_context "c" ∷ as_argument ∷ []) (to_mlua IsleError.cancelled)))
    ≡ true
cancel_crosses_example =
    cancel_crosses plain plain_laws (through_call "t" ∷ in_context "c" ∷ as_argument ∷ [])
      IsleError.cancelled

-- The split at a traceback, and a text without one.
split_found : split_traceback "boom\nstack traceback:\n" ≡ ("boom", some "stack traceback:\n")
unfolding split_traceback
split_found = refl

split_whole : split_traceback "boom" ≡ ("boom", none)
unfolding split_traceback
split_whole = refl
