-- ===== src/Signal.antt =====
-- root/sig.c: sending a signal to a process of the root task. The signal state of `struct process`
-- (root/defs.h) is a record; each 64-bit set is a number below 2 ^ 64 with signal s at bit s - 1.
-- Calls that leave this file (zombify(), sig_remove_helper(), muidl_raise_no_reply(), the start of
-- a helper thread) are appended to a log. A failed assert, abort() and a shift by the width of its
-- type or more are the result `abort`.
pub mod Sets
pub mod Suspend
pub mod Kill
pub mod Laws
mod Tests
use sneks.Base.{
  ℕ, suc, ◌+◌, ◌-◌, ◌*◌, ◌^◌, bit_and, bit_or, Bool, true, false, not, ◌&&◌, ◌||◌, Option, none,
  some, List, [], ◌∷◌, ltb, leb, ◌==◌, if◌then◌else◌, has_bit,
}

abbrev pub sig_abrt : ℕ
sig_abrt = 6

abbrev pub sig_kill : ℕ
sig_kill = 9

abbrev pub sig_segv : ℕ
sig_segv = 11

abbrev pub sig_term : ℕ
sig_term = 15

abbrev pub sig_chld : ℕ
sig_chld = 17

abbrev pub cld_killed : ℕ
cld_killed = 2

-- The part of `struct process` that signals use. `saved_mask` is PF_SAVED_MASK in `flags`; a nil
-- `sighelper_tid` is `none`.
pub record Process : Type 0 where
  pub ign_set : ℕ
  pub dfl_set : ℕ
  pub mask_set : ℕ
  pub pending_set : ℕ
  pub saved_mask_set : ℕ
  pub saved_mask : Bool
  pub sighelper_tid : Option ℕ
  pub signo : ℕ
  pub status : ℕ
  pub code : ℕ

pub data Call : Type 0 where
  zombify remove_helper raise_no_reply : Call
  start_helper : ℕ → Call

-- The process, and the calls made so far, latest first.
pub record State : Type 0 where
  pub process : Process
  pub calls : List Call

pub data Run {ℓ} (A : Type ℓ) : Type ℓ where
  done : A → Run A
  out_of_fuel abort : Run A

infixl 5 ◌>>=◌
abbrev pub ◌>>=◌ {ℓ ℓ'} : {S : Type ℓ} {T : Type ℓ'} → Run S → (S → Run T) → Run T
done s >>= next = next s
out_of_fuel >>= next = out_of_fuel
abort >>= next = abort

-- What the callees answer: allocate_thread() (root/uapi.c), L4_ThreadControl, and
-- VM::breath_of_life.
pub record Answers : Type 0 where
  pub allocate_thread : Option ℕ
  pub thread_control : Bool
  pub breath_of_life : Bool

abbrev pub call : Call → State → State
call c s = record s { calls = c ∷ s.calls }

abbrev pub set_process : State → Process → State
set_process s p = record s { process = p }

-- `p->pending_set |= (1ull << (sig - 1))`.
abbrev pub add_pending : State → ℕ → State
add_pending s sig =
    let p = s.process in
    set_process s (record p { pending_set = bit_or p.pending_set (2 ^ (sig - 1)) })

unfoldable pub sig_deliver : Answers → State → ℕ → Bool → Run State
sig_deliver env s sig self = elim s.process.sighelper_tid [
  | some t ↦ done (add_pending s sig)
  | none ↦ elim self [
    | true ↦ done (add_pending s sig)
    | false ↦ elim env.allocate_thread [
      | none ↦ done s
      | some t ↦
          if env.thread_control && env.breath_of_life
          then done (add_pending (call (start_helper t) (with_helper t)) sig)
          else abort
    ]
  ]
]
  where
    with_helper : ℕ → State
    with_helper t = set_process s (record s.process { sighelper_tid = some t })

abbrev pub is_deadly : ℕ → Bool
is_deadly sig = sig == sig_segv || (sig == sig_abrt || (sig == sig_kill || sig == sig_term))

-- The assert on the other signals tests bit `sig`, and is undefined at 64.
unfoldable pub sig_default : State → ℕ → Run (State × Bool)
sig_default s sig =
    if is_deadly sig
    then done (call zombify (set_process s (killed s.process)), true)
    else if leb 64 sig || has_bit s.process.pending_set sig
    then abort
    else done (s, false)
  where
    killed : Process → Process
    killed p = record p { code = cld_killed; signo = sig; status = 0 }

unfoldable pub sig_send : Answers → State → ℕ → Bool → Run State
sig_send env s sig self =
    if not (leb 1 sig && leb sig 64)
    then abort
    else if has_bit p.mask_set (sig - 1)
    then done (add_pending s sig)
    else if has_bit p.pending_set (sig - 1)
    then done s
    else if has_bit p.dfl_set (sig - 1)
    then (if has_bit p.ign_set (sig - 1) then abort else do
      (s', died) ← sig_default s sig
      done (if died && self then call raise_no_reply s' else s'))
    else if has_bit p.ign_set (sig - 1)
    then done s
    else sig_deliver env s sig self
  where
    open s use {process as p}
