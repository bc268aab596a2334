-- ===== src/Signal/Kill.antt =====
-- root/sig.c: root_uapi_kill(), the permission check and the branches around sig_send().
pub mod Permission
use sneks.Base.{
  ℤ, pos, negsuc, ℕ, Bool, not, ◌&&◌, ◌||◌, Option, none, some, ltb, ◌==◌, if◌then◌else◌,
}
use sneks.Signal.{State, Run, done, raise_no_reply, call, Answers, sig_send, ◌>>=◌}

pub record Uids : Type 0 where
  pub real_uid : ℕ
  pub eff_uid : ℕ
  pub saved_uid : ℕ

-- The caller: its pid, whether that is a systask's or the VM server's, and its process's user IDs.
pub record Sender : Type 0 where
  pub pid : ℕ
  pub is_systask : Bool
  pub is_vm : Bool
  pub uids : Uids

pub data Killed : Type 0 where
  ok esrch eperm einval eagain : Killed

-- The `if` that returns -EPERM, negated.
unfoldable pub may_signal : Sender → Uids → Bool
may_signal sender target =
    sender.is_systask
    || (sender.uids.eff_uid == 0
        || (sender.uids.real_uid == target.real_uid
            || (sender.uids.real_uid == target.saved_uid
                || (sender.uids.eff_uid == target.real_uid
                    || sender.uids.eff_uid == target.saved_uid))))

-- A signal number of at least 0, after the permission check.
unfoldable pub kill_checked : Answers → Bool → Sender → ℕ → State → ℕ → Run (Killed × State)
kill_checked env reply_ok sender pid s sig =
    if ltb 64 sig
    then done (einval, s)
    else if sender.is_vm && not reply_ok
    then done (eagain, s)
    else (let s' = if sender.is_vm then call raise_no_reply s else s in
        if sig == 0
        then done (ok, s')
        else do t ← sig_send env s' sig (pid == sender.pid); done (ok, t))

-- `target` is what get_process(pid) returns, and `reply_ok` is whether the early reply to the VM
-- server succeeds.
unfoldable pub kill :
    Answers → Bool → Sender → ℕ → Option (Uids × State) → ℤ → Run (Killed × Option State)
unfolding kill_checked
kill env reply_ok sender pid none sig = done (esrch, none)
kill env reply_ok sender pid (some (uids, s)) (negsuc n) =
    done (if may_signal sender uids then einval else eperm, some s)
kill env reply_ok sender pid (some (uids, s)) (pos sig) =
    if not (may_signal sender uids)
    then done (eperm, some s)
    else do (r, t) ← kill_checked env reply_ok sender pid s sig; done (r, some t)
