-- ===== src/Signal/Kill/Permission.antt =====
-- Who may signal whom in root_uapi_kill() of root/sig.c.
use sneks.Base.{
  ℕ, ℤ, pos, negsuc, ◌≡◌, ◌≢◌, ◌↔◌, ◌⊎◌, Bool, true, false, Option, some, arith, Bool-cases, inl,
  inr,
}
use sneks.Signal.{State, done, Answers}
use sneks.Signal.Kill.{Uids, Sender, Killed, ok, eperm, may_signal, kill}

-- The rule of kill() in POSIX: the superuser, or a caller whose real or effective user ID is the
-- target's real or saved one; and here a system task.
abbrev pub IsPermitted : Sender → Uids → Type 0
IsPermitted sender target =
    (sender.is_systask ≡ true)
    ⊎ ((sender.uids.eff_uid ≡ 0)
        ⊎ (((sender.uids.real_uid ≡ target.real_uid) ⊎ (sender.uids.real_uid ≡ target.saved_uid))
            ⊎ ((sender.uids.eff_uid ≡ target.real_uid) ⊎ (sender.uids.eff_uid ≡ target.saved_uid))))

may_signal_iff :
    (sender : Sender) (target : Uids)
    → (may_signal sender target ≡ true) ↔ IsPermitted sender target
unfolding may_signal
may_signal_iff sender target = (λ h. ground arith, λ h. ground arith)

barred_iff :
    (sender : Sender) (target : Uids)
    → (may_signal sender target ≡ false) ↔ ¬ IsPermitted sender target
barred_iff sender target = (
  λ barred permitted. ground (arith, barred, (may_signal_iff sender target).1 permitted),
  λ no_rule. elim (Bool-cases (may_signal sender target)) [
    | inl may ↦ absurd (no_rule ((may_signal_iff sender target).0 may))
    | inr refused ↦ refused
  ],
)

kill-eperm :
    (env : Answers) (reply_ok : Bool) (sender : Sender) (pid : ℕ) (uids : Uids) (s : State)
    (sig : ℤ) (r : Killed) (t : Option State)
    → kill env reply_ok sender pid (some (uids, s)) sig ≡ done (r, t)
    → ((r ≡ eperm) ↔ (may_signal sender uids ≡ false)) × (r ≢ ok → t ≡ some s)
unfolding kill
kill-eperm env reply_ok sender pid uids s (negsuc n) r t e = (ground arith, ground arith)
kill-eperm env reply_ok sender pid uids s (pos sig) r t e = (ground arith, ground arith)

-- A call on a process that returns gives -EPERM exactly when the caller is no system task, its
-- effective user ID is not 0, and neither its real nor its effective user ID is the target's real
-- or saved one, whatever the signal number. Any result but 0 leaves the target's signal state as it
-- was.
pub kill_result :
    (env : Answers) (reply_ok : Bool) (sender : Sender) (pid : ℕ) (uids : Uids) (s : State)
    (sig : ℤ) (r : Killed) (t : Option State)
    → kill env reply_ok sender pid (some (uids, s)) sig ≡ done (r, t)
    → ((r ≡ eperm) ↔ ¬ IsPermitted sender uids) × (r ≢ ok → t ≡ some s)
kill_result env reply_ok sender pid uids s sig r t e =
    let refused = kill-eperm env reply_ok sender pid uids s sig r t e in
    (
      (
        λ denied. (barred_iff sender uids).0 (refused.0.0 denied),
        λ barred. refused.0.1 ((barred_iff sender uids).1 barred),
      ),
      refused.1,
    )
