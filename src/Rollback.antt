-- ===== src/Rollback.antt =====
-- lib/rollback.c: the rollback and the confirmation of an IDL operation, of which one runs once it
-- is known whether the client got the reply.
pub mod Outcomes
mod Tests
use sneks.Base.{
  ℕ, Bool, true, false, not, ◌&&◌, Option, none, some, List, [], ◌∷◌, ◌++◌, ◌==◌, if◌then◌else◌,
}

-- A function, which is not NULL, and its arguments.
pub record Callback : Type 0 where
  pub fn : ℕ
  pub param : ℕ
  pub priv : ℕ

-- `struct rbctx`; a NULL function is `none`.
pub record Context : Type 0 where
  pub sender : ℕ
  pub tag : ℕ
  pub r : Option Callback
  pub c : Option Callback

-- A call of a callback.
pub data Act : Type 0 where
  confirmed rolled_back : Callback → Act

-- A thread: its context, once it has one, and the calls it has made.
pub record Thread : Type 0 where
  pub context : Option Context
  pub acts : List Act

abbrev pub get_ctx : Option Context → Context
get_ctx none = record { sender = 0; tag = 0; r = none; c = none }
get_ctx (some ctx) = ctx

unfoldable pub set_rollback : Option Callback → (sender tag : ℕ) → Thread → Thread
set_rollback r sender tag t = record t {
  context = some (record (get_ctx t.context) { r = r; sender = sender; tag = tag });
}

unfoldable pub set_confirm : Option Callback → (sender tag : ℕ) → Thread → Thread
set_confirm c sender tag t = record t {
  context = some (record (get_ctx t.context) { c = c; sender = sender; tag = tag });
}

unfoldable pub sync_confirm : Thread → Thread
sync_confirm t = elim t.context [
  | none ↦ t
  | some ctx ↦ elim ctx.c [
    | none ↦ t
    | some cb ↦ record {
      context = some (record ctx { c = none });
      acts = t.acts ++ (confirmed cb ∷ []);
    }
  ]
]

-- `ctx->r.fn = NULL` where there is a context.
abbrev pub clear_rollback : Thread → Thread
clear_rollback t = elim t.context [
  | none ↦ t
  | some ctx ↦ record t { context = some (record ctx { r = none }) }
]

-- check_rollback() on a send-side error, with the context.
abbrev pub pop_rollback : Thread → Context → Bool × Thread
pop_rollback t ctx = elim ctx.r [
  | none ↦ (false, record t { context = some (record ctx { c = none }) })
  | some cb ↦ (
    true,
    record {
      context = some (record ctx { r = none; c = none });
      acts = t.acts ++ (rolled_back cb ∷ []);
    },
  )
]

-- `failed`: the status is an error of the microkernel; `receive`: its lowest bit. `sender` and
-- `tag` are those of the current operation.
unfoldable pub check_rollback : (failed receive : Bool) → (sender tag : ℕ) → Thread → Bool × Thread
check_rollback failed receive sender tag t =
    if not failed
    then (false, t)
    else if receive
    then (false, clear_rollback (sync_confirm t))
    else elim t.context [
      | none ↦ (false, t)
      | some ctx ↦
          if ctx.tag == tag && (ctx.sender == sender)
          then pop_rollback t ctx
          else (false, clear_rollback t)
    ]
