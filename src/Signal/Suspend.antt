-- ===== src/Signal/Suspend.antt =====
-- root/sig.c: root_uapi_sigsuspend(), which takes one pending signal or puts a mask on for a wait.
pub mod Outcome
use sneks.Base.{ℕ, ◌-◌, ◌^◌, bit_and, true, not, ◌==◌, if◌then◌else◌, ltb, compl, find_first}
use sneks.Signal.{Process, State, Run, ◌>>=◌, done, abort, raise_no_reply, call, set_process}

-- What the call returns: -EAGAIN, the signal number taken, or no reply (0).
pub data Suspended : Type 0 where
  eagain asleep : Suspended
  taken : ℕ → Suspended

-- `~(1 << k)` in `int`, as the `uint64_t` that it is converted to: at 31 the sign is lost, and from
-- 32 on the shift is undefined.
unfoldable pub int_mask : ℕ → Run ℕ
int_mask k =
    if ltb k 31 then done (compl 64 (2 ^ k)) else if k == 31 then done (2 ^ 31 - 1) else abort

unfoldable pub sigsuspend : State → ℕ → Run (Suspended × State)
sigsuspend s mask =
    let trig = find_first 64 (bit_and p.pending_set (compl 64 mask)) in
    if p.saved_mask
    then done (eagain, s)
    else if ltb 0 trig
    then (do
      m ← int_mask (trig - 1)
      done (taken trig, set_process s (record p { pending_set = bit_and p.pending_set m })))
    else if not (bit_and p.pending_set (compl 64 mask) == 0)
    then abort
    else done (asleep, call raise_no_reply (set_process s suspended))
  where
    open s use {process as p}

    suspended : Process
    suspended = record p { saved_mask_set = p.mask_set; mask_set = mask; saved_mask = true }
