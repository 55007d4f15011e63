-- ===== src/Select/Cases.antt =====
-- src/select.rs: the reading of the cases and the options of a select. A case is the plain table that the
-- builders of the library make; its fields are read without an error. `show` prints a number.
use Prim.Native.String.{◌++◌, compare}
use Prim.Native.Nat.{Ordering}
use mlua_isle.Base.{
  String, ℕ, suc, ◌%◌, Bool, true, false, ◌||◌, List, [], ◌∷◌, Option, none, some, Result, ok, err,
  if◌then◌else◌, update, length,
}
use mlua_isle.Tokio.{Env}
use mlua_isle.Chan.{send_only, receive_only}
use mlua_isle.Chan.Receive
use mlua_isle.Chan.Send
use mlua_isle.Hub.{Hub, next_select_turn}
use mlua_isle.Select.{World, Arm, recv, send, timer, task}

-- What the target of a case is: the userdata that the source looks for, or anything else.
pub data Target : Type 0 where
  chan_ud timer_ud task_ud : ℕ → Target
  other_target : Target

-- A Lua value of an option or of a handler; a function is named by a number.
pub data Field : Type 0 where
  nil_field other_field : Field
  boolean_field : Bool → Field
  function_field : ℕ → Field

pub record Case (E : Env) : Type 0 where
  pub kind : String
  pub target : Target
  pub value : E.Value
  pub handler : Field

pub data Entry (E : Env) : Type 0 where
  not_case : Entry E
  case_table : Case E → Entry E

pub record Opts : Type 0 where
  pub biased : Field
  pub default : Field

pub data DefaultCase : Type 0 where
  no_default raw_default : DefaultCase
  handler_default : ℕ → DefaultCase

pub record Cases (E : Env) : Type 0 where
  pub arms : List (Arm E)
  pub mark : ℕ
  pub handlers : List ℕ
  pub default : DefaultCase
  pub start : ℕ

abbrev pub is_text : String → String → Bool
is_text s t = elim (compare s t) [ Ordering.eq ↦ true | _ ↦ false ]

-- `_` of the match: a kind that is known has a wrong target.
abbrev pub is_kind : String → Bool
is_kind k = is_text k "recv" || (is_text k "send" || (is_text k "timer" || is_text k "task"))

abbrev pub target_name : String → String
target_name k =
    if is_text k "timer" then "timer" else (if is_text k "task" then "task" else "channel")

module _ (E : Env) (show : ℕ → String) (name : String) where
  -- The message of an error at the case `n`.
  abbrev pub at_case : ℕ → String → E.Failure
  at_case n message = E.runtime (name ++ ": case " ++ show n ++ message)

  abbrev pub wrong_target : ℕ → String → E.Failure
  wrong_target n k =
      if is_kind k
      then at_case n (": target is not a " ++ target_name k)
      else at_case n (": unknown kind '" ++ k ++ "'")

  abbrev pub recv_arm : ℕ → ℕ → ℕ → World E → Result (Arm E) E.Failure
  recv_arm n c mark w = elim (send_only (w.chans c)) [
    | some why ↦ err (at_case n (": channel is send-only (" ++ why ++ ")"))
    | none ↦ ok (recv c (Receive.new (some mark)))
  ]

  abbrev pub send_arm : ℕ → ℕ → E.Value → ℕ → World E → Result (Arm E) E.Failure
  send_arm n c v mark w = elim (receive_only (w.chans c)) [
    | some why ↦ err (at_case n (": channel is receive-only (" ++ why ++ ")"))
    | none ↦ ok (send c (Send.new v (some mark)))
  ]

  abbrev pub task_arm : ℕ → ℕ → World E → Result (Arm E) E.Failure
  task_arm n i w =
      if (w.tasks i).joined
      then err (at_case n ": task already joined")
      else if (w.tasks i).known
      then ok (task (record { id = i; waiting = none; taken = none }))
      else err (E.runtime "unknown task")

  -- The arm of one case.
  unfoldable pub read_case : ℕ → Case E → (mark : ℕ) → World E → Result (Arm E) E.Failure
  read_case n c mark w = elim c.target [
    | chan_ud x ↦
        if is_text c.kind "recv"
        then recv_arm n x mark w
        else if is_text c.kind "send"
        then send_arm n x c.value mark w
        else err (wrong_target n c.kind)
    | timer_ud deadline ↦
        if is_text c.kind "timer" then ok (timer deadline false) else err (wrong_target n c.kind)
    | task_ud i ↦ if is_text c.kind "task" then task_arm n i w else err (wrong_target n c.kind)
    | other_target ↦ err (wrong_target n c.kind)
  ]

  -- The handler of a case, which the raw form has not.
  unfoldable pub read_handler : (handlers : Bool) → ℕ → Field → Result (List ℕ) E.Failure
  read_handler false n f = ok []
  read_handler true n (function_field h) = ok (h ∷ [])
  read_handler true n f =
      err (
        at_case n " has no handler (build it with ch:on(f) / ch:on_send(v, f) / t:on(f) / h:on(f))")

  abbrev pub cons_case :
      Arm E
      → Result (List ℕ) E.Failure
      → Result (List (Arm E) × List ℕ) E.Failure
      → Result (List (Arm E) × List ℕ) E.Failure
  cons_case a (err e) rest = err e
  cons_case a (ok fs) (err e) = err e
  cons_case a (ok []) (ok (arms, hs)) = ok (a ∷ arms, hs)
  cons_case a (ok (h ∷ fs)) (ok (arms, hs)) = ok (a ∷ arms, h ∷ hs)

  -- The loop over the cases, from the case `n` on.
  unfoldable pub read_arms :
      (handlers : Bool)
      → ℕ
      → List (Entry E)
      → (mark : ℕ) → World E
      → Result (List (Arm E) × List ℕ) E.Failure
  unfolding read_case read_handler
  read_arms handlers n [] mark w = ok ([], [])
  read_arms handlers n (not_case ∷ es) mark w = err (
      at_case n
        " is not a case (build cases with ch:on(f) / ch:on_send(v, f) / t:on(f) / h:on(f), or ch:arm_recv() / ch:arm_send(v) / t:arm() / h:arm() for select_raw)")
  read_arms handlers n (case_table c ∷ es) mark w =
      let rest = read_arms handlers (suc n) es mark w in
      elim (read_case n c mark w) [
        | err e ↦ err e
        | ok a ↦ cons_case a (read_handler handlers n c.handler) rest
      ]

  unfoldable pub read_biased : Field → Result Bool E.Failure
  read_biased nil_field = ok false
  read_biased (boolean_field b) = ok b
  read_biased f = err (E.runtime (name ++ ": opts.biased must be a boolean"))

  unfoldable pub read_default : (handlers : Bool) → Field → Result DefaultCase E.Failure
  read_default handlers nil_field = ok no_default
  read_default false (boolean_field false) = ok no_default
  read_default false (boolean_field true) = ok raw_default
  read_default true (function_field f) = ok (handler_default f)
  read_default false f = err (E.runtime (name ++ ": opts.default must be a boolean"))
  read_default true f = err (E.runtime (name ++ ": opts.default must be a function"))

  unfoldable pub read_opts : (handlers : Bool) → Option Opts → Result (Bool × DefaultCase) E.Failure
  unfolding read_biased read_default
  read_opts handlers none = ok (false, no_default)
  read_opts handlers (some o) = elim (read_biased o.biased) [
    | err e ↦ err e
    | ok b ↦ elim (read_default handlers o.default) [ err e ↦ err e | ok d ↦ ok (b, d) ]
  ]

  -- The cases with the position where the poll starts, which takes a turn of the VM.
  abbrev pub with_start :
      List (Arm E) × List ℕ → ℕ → Bool × DefaultCase → Hub → Hub × Result (Cases E) E.Failure
  with_start ([], hs) mark (biased, no_default) h =
      (h, err (E.runtime (name ++ ": no cases and no default")))
  with_start ([], hs) mark (biased, d) h =
      (h, ok (record { arms = []; mark = mark; handlers = hs; default = d; start = 0 }))
  with_start (a ∷ arms, hs) mark (true, d) h =
      (h, ok (record { arms = a ∷ arms; mark = mark; handlers = hs; default = d; start = 0 }))
  with_start (a ∷ arms, hs) mark (false, d) h =
      let (u, turn) = next_select_turn h in
      (
        u,
        ok (record {
          arms = a ∷ arms;
          mark = mark;
          handlers = hs;
          default = d;
          start = turn % length (a ∷ arms);
        }),
      )

  -- `SelectMark::new`.
  abbrev pub new_mark : World E → World E
  new_mark w = record w {
    heap = record (w.heap) {
      claimed_at = update w.heap.claimed_at w.heap.next false;
      next = suc w.heap.next;
    };
  }

  unfoldable pub read_cases :
      (handlers : Bool)
      → List (Entry E)
      → Option Opts
      → Hub
      → World E
      → World E × (Hub × Result (Cases E) E.Failure)
  unfolding read_arms read_opts
  read_cases handlers es opts h w =
      let mark = w.heap.next in
      let u = new_mark w in
      elim (read_arms handlers 1 es mark u) [
        | err e ↦ (u, (h, err e))
        | ok read ↦ elim (read_opts handlers opts) [
          | err e ↦ (u, (h, err e))
          | ok o ↦ (u, with_start read mark o h)
        ]
      ]
