-- ===== src/Runtime.antt =====
-- src/runtime.rs, and the installation of the hook in src/hub.rs: the VM that is attached to a Lua state.
-- What mlua answers when it sets the global hook, and what `install` of src/protect.rs answers, are
-- arguments. A hook is named by its address, and the task library by a number. A `Vm` exists only for a
-- state that is attached; the errors of the registry of mlua are left out.
use mlua_isle.Base.{
  ℕ, ◌≡◌, refl, ap, ◌∙◌, Bool, true, false, not, ◌||◌, Option, none, some, is_some, Result, ok, err,
  if◌then◌else◌, ◌==◌, arith,
}
use mlua_isle.Error.{IsleError}
use mlua_isle.Hub.{Hub}

pub record Config : Type 0 where
  pub grace : ℕ
  pub preempt_every : Option ℕ

-- `installed`: the address of the hub's hook, or 0. `raw_hook`: the hook that the Lua state has, or 0.
-- `attached`: the application data, if they are there, with the task library, if it was made. The
-- part of the settings that `dispatch` reads stands in the hub.
pub record Lua : Type 0 where
  pub hub : Hub
  pub grace : ℕ
  pub installed : ℕ
  pub raw_hook : ℕ
  pub attached : Option (Option ℕ)

-- What mlua answers when it sets the global hook: an error, or the address of the hook.
abbrev pub SetHook : Type 0
SetHook = Result ℕ IsleError

unfoldable pub config : Lua → Config
config lua = record { grace = lua.grace; preempt_every = lua.hub.preempt_every }

unfoldable pub set_config : Config → Lua → Lua
set_config c lua = record lua {
  hub = record (lua.hub) { preempt_every = c.preempt_every };
  grace = c.grace;
}

-- `hub::install` after the merge of the triggers.
unfoldable pub install : SetHook → Lua → Lua × Option IsleError
install (err e) lua = (lua, some e)
install (ok address) lua = (record lua { installed = address; raw_hook = address }, none)

unfoldable pub ensure_installed : SetHook → Lua → Lua × Option IsleError
unfolding install
ensure_installed set lua =
    if lua.installed == 0 || not (lua.raw_hook == lua.installed)
    then install set lua
    else (lua, none)

abbrev pub keep_attached : Option (Option ℕ) → Option (Option ℕ)
keep_attached none = some none
keep_attached (some lib) = some lib

-- `Vm::attach`; `protect` is the error of `protect::install`.
unfoldable pub attach :
    (protect : Option IsleError) → SetHook → Config → Lua → Lua × Option IsleError
unfolding set_config
attach (some e) set c lua = (lua, some e)
attach none (err e) c lua = (lua, some e)
attach none (ok address) c lua = (
  set_config c (record lua {
    installed = address;
    raw_hook = address;
    attached = keep_attached lua.attached;
  }),
  none,
)

-- `Vm::of`.
unfoldable pub of : Lua → Bool
of lua = is_some lua.attached

unfoldable pub attach_after_init :
    Option IsleError → SetHook → Option Config → Lua → Lua × Option IsleError
unfolding attach config
attach_after_init protect set none lua = attach protect set (config lua) lua
attach_after_init protect set (some c) lua = attach protect set c lua

unfoldable pub ensure_attached : Option IsleError → SetHook → Lua → Lua × Option IsleError
unfolding of ensure_installed attach_after_init
ensure_attached protect set lua =
    if of lua then ensure_installed set lua else attach_after_init protect set none lua

unfoldable pub of_or_attach : Option IsleError → SetHook → Lua → Lua × Option IsleError
unfolding of attach_after_init
of_or_attach protect set lua =
    if of lua then (lua, none) else attach_after_init protect set none lua

-- `cached_task_lib` and `channel_ctor`, whose two values are stored together.
abbrev pub cached_task_lib : Lua → Option ℕ
cached_task_lib lua = elim lua.attached [ none ↦ none | some lib ↦ lib ]

-- `Vm::task_lib`; `made` is what `create` gives, and `during` what its Lua code did to the VM.
unfoldable pub task_lib : (during : Lua → Lua) → Result ℕ IsleError → Lua → Lua × Result ℕ IsleError
task_lib during made lua = elim (cached_task_lib lua) [
  | some lib ↦ (lua, ok lib)
  | none ↦
      let u = during lua in
      elim made [
        | err e ↦ (u, err e)
        | ok lib ↦ elim (cached_task_lib u) [
          | some old ↦ (u, ok old)
          | none ↦ (record u { attached = some (some lib) }, ok lib)
        ]
      ]
]

-- An attachment of a VM that is attached keeps its task library and the hooks that were added, and its
-- settings are those of the attachment.
pub attach_lem :
    (address : ℕ) (c : Config) (lua : Lua) (lib : Option ℕ)
    → lua.attached ≡ some lib
    → let u = (attach none (ok address) c lua).0 in
      (u.attached ≡ some lib) × (u.hub.entries ≡ lua.hub.entries) × (config u ≡ c)
unfolding attach set_config config
attach_lem address c lua lib e = (ground (arith, e), refl, refl)

-- When a hook is set without an error, it is the hub's and the hook of the Lua state.
install_lem :
    (set : SetHook) (lua : Lua)
    → (install set lua).1 ≡ none
    → let u = (install set lua).0 in
      (u.raw_hook ≡ u.installed) × (u.attached ≡ lua.attached) × (config u ≡ config lua)
unfolding install config
install_lem (err e) lua p = ground (arith, p)
install_lem (ok address) lua p = (refl, refl, refl)

keep_attached_lem : (o : Option (Option ℕ)) → is_some (keep_attached o) ≡ true
keep_attached_lem none = refl
keep_attached_lem (some lib) = refl

-- When an attachment answers without an error, the VM is attached.
attach_none_lem :
    (protect : Option IsleError) (set : SetHook) (c : Config) (lua : Lua)
    → (attach protect set c lua).1 ≡ none
    → let u = (attach protect set c lua).0 in
      (of u ≡ true) × (u.raw_hook ≡ u.installed) × (config u ≡ c)
unfolding attach of config set_config
attach_none_lem (some e) set c lua p = ground (arith, p)
attach_none_lem none (err e) c lua p = ground (arith, p)
attach_none_lem none (ok address) c lua p = (keep_attached_lem lua.attached, refl, refl)

-- The VM `u` is attached, the hook of its Lua state is that of the hub, and its settings are `c`.
abbrev pub Ready : Config → Lua → Type 0
Ready c u = (of u ≡ true) × (u.raw_hook ≡ u.installed) × (config u ≡ c)

attached_or_not :
    (attached lost : Bool) (protect : Option IsleError) (set : SetHook) (lua : Lua)
    → is_some lua.attached ≡ attached
    → (lua.installed == 0 || not (lua.raw_hook == lua.installed)) ≡ lost
    → let r =
        if attached
        then if lost then install set lua else (lua, none)
        else attach protect set (config lua) lua in
      r.1 ≡ none → Ready (config lua) (r.0)
unfolding of config
attached_or_not false lost protect set lua t l e = attach_none_lem protect set (config lua) lua e
attached_or_not true true protect set lua t l e =
    let i = install_lem set lua e in (ap is_some (i.1) ∙ t, i.0, i.2)
attached_or_not true false protect set lua t l e = (t, ground (arith, l), refl)

-- When `ensure_attached` answers without an error, the VM is attached and the hook of the Lua state is
-- that of the hub, whatever other code set before; its settings are as they were.
pub ensure_attached_lem :
    (protect : Option IsleError) (set : SetHook) (lua : Lua)
    → (ensure_attached protect set lua).1 ≡ none
    → Ready (config lua) ((ensure_attached protect set lua).0)
unfolding ensure_attached ensure_installed attach_after_init of
ensure_attached_lem protect set lua e =
    attached_or_not (is_some lua.attached)
      (lua.installed == 0 || not (lua.raw_hook == lua.installed)) protect set lua refl refl e
