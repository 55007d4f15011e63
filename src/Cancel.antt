-- ===== src/Cancel.antt =====
-- src/hook.rs: cancellation tokens. A token's shared state (`Arc<Inner>`) is a node of a tree, named
-- by its address; `alive` says which nodes a strong reference still holds, so that a weak one can
-- be upgraded. A task that awaits `cancelled` is named by its waker, and `woken` lists the wakers that
-- were woken.
pub mod Linked
pub mod Reach
pub mod Flags
pub mod Children
pub mod Await
pub mod Trace
pub mod Tests
use mlua_isle.Base.{
  ℕ, zero, suc, ◌+◌, ◌*◌, ◌≡◌, Bool, true, false, List, [], ◌∷◌, ◌++◌, Option, none, some, length,
  leb, if◌then◌else◌, update,
}
use Prim.Native.Nat.{max}
use mlua_isle.Tokio.{Notify}

pub record Inner (N : Notify) : Type 0 where
  pub flag : Bool
  pub parent : Option ℕ
  pub children : List ℕ
  pub sweep_at : ℕ
  pub notify : N.State

pub record Tree (N : Notify) : Type 0 where
  pub node : ℕ → Inner N
  pub alive : ℕ → Bool
  pub next : ℕ
  pub woken : List ℕ

-- `filter_map(Weak::upgrade)`, and `retain` in a sweep.
abbrev pub live : (ℕ → Bool) → List ℕ → List ℕ
live alive [] = []
live alive (c ∷ cs) = if alive c then c ∷ live alive cs else live alive cs

-- `EnterGuard`: the current token of a thread, and the one that the guard restores.
unfoldable pub enter : ℕ → Option ℕ → Option ℕ × Option ℕ
enter token current = (some token, current)

unfoldable pub leave : Option ℕ → Option ℕ → Option ℕ
leave prev current = prev

module _ {N : Notify} where
  unfoldable pub new_inner : Option ℕ → Inner N
  new_inner parent = record {
    flag = false;
    parent = parent;
    children = [];
    sweep_at = 0;
    notify = N.empty;
  }

  abbrev pub set_node : Tree N → ℕ → Inner N → Tree N
  set_node t i n = record t { node = update t.node i n }

  -- The flag is set, the waiters are woken and the list of children is taken.
  unfoldable pub mark : ℕ → Tree N → Tree N
  mark i t =
      let (notify, woken) = N.notify_waiters (t.node i).notify in
      record t {
        node = update t.node i (record (t.node i) { flag = true; children = []; notify = notify });
        woken = t.woken ++ woken;
      }

  abbrev pub each : (ℕ → Tree N → Tree N) → List ℕ → Tree N → Tree N
  each f [] t = t
  each f (c ∷ cs) t = each f cs (f c t)

  -- `Inner::cancel`. The children of a node are younger than it, so that `next` rounds are enough.
  unfoldable pub cancel_in : ℕ → ℕ → Tree N → Tree N
  unfolding mark
  cancel_in zero i t = t
  cancel_in (suc fuel) i t =
      let marked = each (cancel_in fuel) (live t.alive (t.node i).children) (mark i t) in
      if (t.node i).flag then t else marked

  unfoldable pub cancel : ℕ → Tree N → Tree N
  unfolding cancel_in
  cancel i t = cancel_in t.next i t

  unfoldable pub is_cancelled : ℕ → Tree N → Bool
  is_cancelled i t = (t.node i).flag

  -- A new node, held by the handle that is returned.
  unfoldable pub alloc : Option ℕ → Tree N → Tree N
  unfolding new_inner
  alloc parent t = record t {
    node = update t.node t.next (new_inner parent);
    alive = update t.alive t.next true;
    next = suc t.next;
  }

  -- `CancelToken::new`.
  unfoldable pub new : Tree N → Tree N × ℕ
  unfolding alloc
  new t = (alloc none t, t.next)

  -- Dead entries are removed when the list has reached `sweep_at`.
  unfoldable pub sweep : (ℕ → Bool) → Inner N → Inner N
  sweep alive n =
      let kept = live alive n.children in
      if leb n.sweep_at (length n.children)
      then record n { children = kept; sweep_at = max (length kept * 2) 16 }
      else n

  unfoldable pub add_child : ℕ → ℕ → Tree N → Tree N
  unfolding sweep
  add_child i c t =
      let n = sweep t.alive (t.node i) in
      set_node t i (record n { children = n.children ++ c ∷ [] })

  unfoldable pub child_token : ℕ → Tree N → Tree N × ℕ
  child_token i t =
      let t' = alloc (some i) t in
      (if (t'.node i).flag then cancel t.next t' else add_child i t.next t', t.next)

  -- The last strong reference to a node goes.
  unfoldable pub release : ℕ → Tree N → Tree N
  release i t = record t { alive = update t.alive i false }

  -- `cancelled`: what a task does between its two looks at the flag is to register with `notify`.
  unfoldable pub enable : ℕ → ℕ → Tree N → Tree N
  enable i w t = set_node t i (record (t.node i) { notify = N.enable w (t.node i).notify })

  -- The first poll of `cancelled` by task `w`, and whether it returned. Other threads cancel the tokens
  -- `before` between the first look at the flag and the registration, and the tokens `between` from
  -- there to the second look.
  unfoldable pub cancelled : ℕ → ℕ → List ℕ → List ℕ → Tree N → Tree N × Bool
  cancelled i w before between t =
      if is_cancelled i t
      then (t, true)
      else (let u = each cancel between (enable i w (each cancel before t)) in
          (u, is_cancelled i u))

  unfoldable pub current_is_cancelled : Option ℕ → Tree N → Bool
  unfolding is_cancelled
  current_is_cancelled none t = false
  current_is_cancelled (some i) t = is_cancelled i t
