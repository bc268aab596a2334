-- ===== src/Processes/Tests.antt =====
-- The process table with init, a shell (2) with two threads that wait for any child, and its child
-- (3). A thread's number is its process times 100 and one more for each thread.
use sneks.Base.{
  ◌^◌, ◌-◌, ℕ, ◌/◌, ◌≡◌, refl, Bool, true, false, none, some, List, [], ◌∷◌, ◌==◌, arith,
  if◌then◌else◌, ◌&&◌, Ends, returns, abort, not, ltb,
}
use sneks.Processes.{Process, Root, get_process, sync_confirm, confirmed, set_process}
use sneks.Signal.{State, sig_send, sig_default}
use sneks.Processes.Waiting.{
  p_all, gives, zombify, zombify_under, notify_parent, notify_signalled, tell_parent, find_waiter,
  finish_zombie, pick_waiter, uapi_wait, uapi_exit, exit_of, wait_all, wait_type, give_dead,
  has_children_in,
}
use sneks.Processes.Credentials.{setresuid, NoNewUid, setresuid-NoNewUid, unset}
use sneks.Processes.Numbers.{alloc_process, with_process, alloc_process_allocates}
use sneks.Processes.Waiters.{FlagsRight, has_waiter}
use sneks.Processes.Calls.{Call, exits, waits, reply_lost, serve, serve_all, serve_all-FlagsRight}
use sneks.Processes.Reaping.{awaiting, Reaped, uapi_wait_reaps}

abbrev process_of : ℕ → ℕ
process_of t = t / 100

-- The second thread of the shell has been removed.
abbrev still_there : ℕ → Bool
still_there t = not (t == 201)

abbrev blank : (ppid uid : ℕ) → Process ℕ
blank ppid uid = record {
  has_area = true;
  n_threads = 1;
  wait_any = false;
  ppid = ppid;
  real_uid = uid;
  eff_uid = uid;
  saved_uid = uid;
  wait_tid = none;
  signo = 0;
  status = 0;
  code = 0;
  dead_list = [];
  limits = [];
}

abbrev table : ℕ → Process ℕ
table pid = if pid == 1 then blank 0 0 else if pid == 2 then blank 1 0 else blank 2 1000

-- What process_ctor() sets up: every signal at its default.
abbrev quiet : State
quiet = record {
  process = record {
    ign_set = 0;
    dfl_set = 2 ^ 64 - 1;
    mask_set = 0;
    pending_set = 0;
    saved_mask_set = 0;
    saved_mask = false;
    sighelper_tid = none;
    signo = 0;
    status = 0;
    code = 0;
  };
  calls = [];
}

abbrev boot : Root ℕ
boot = record {
  allocated = λ pid. ltb 0 pid && ltb pid 4;
  procs = table;
  children = (1, 2) ∷ (2, 3) ∷ [];
  waitany = [];
  confirm = none;
  events = [];
  signals = λ pid. quiet;
  answers = record { allocate_thread = none; thread_control = true; breath_of_life = true };
  sysmsg_known = true;
}

boot-FlagsRight : FlagsRight process_of boot
unfolding has_waiter
boot-FlagsRight pid = ground arith

setresuid-NoNewUid_example :
    NoNewUid 3 1000 unset (blank 2 1000) (setresuid 3 1000 0 unset (blank 2 1000))
setresuid-NoNewUid_example = setresuid-NoNewUid 3 1000 0 unset (blank 2 1000) (ground arith)

alloc_process_allocates_example : alloc_process 2 boot ≡ returns (some 4, 5, with_process 4 boot)
alloc_process_allocates_example =
    alloc_process_allocates 2 4 boot (omega arith) (omega arith) (omega arith)
      (λ j low below. ground arith) (λ h. refl)

-- Thread 201 waits first and is gone when the child ends.
abbrev later : List (Call ℕ)
later =
    waits p_all 0 false 201
    ∷ waits p_all 0 false 200
    ∷ exits 7 3
    ∷ waits p_all 0 true 200
    ∷ reply_lost
    ∷ []

abbrev state_of : Ends (Root ℕ) → Root ℕ
state_of abort = boot
state_of (returns s) = s

abbrev after_later : Root ℕ
after_later = state_of (serve_all process_of still_there later (returns boot))

later-returns : serve_all process_of still_there later (returns boot) ≡ returns after_later
unfolding serve_all serve uapi_wait wait_type wait_all uapi_exit exit_of get_process sync_confirm
    confirmed zombify zombify_under notify_parent notify_signalled tell_parent sig_send sig_default
    find_waiter finish_zombie pick_waiter has_children_in give_dead
later-returns = refl

serve_all-FlagsRight_example : FlagsRight process_of after_later
serve_all-FlagsRight_example =
    serve_all-FlagsRight process_of still_there later boot after_later boot-FlagsRight later-returns

-- The shell's thread 200 still listens, but the first of the two was asked, so that the child is
-- a zombie while 200 sleeps.
stale_waiter_loses : ((after_later.procs 2).dead_list ≡ 3 ∷ []) × (after_later.waitany ≡ 200 ∷ [])
unfolding serve_all serve uapi_wait wait_type wait_all uapi_exit exit_of get_process sync_confirm
    confirmed zombify zombify_under notify_parent notify_signalled tell_parent sig_send sig_default
    find_waiter finish_zombie pick_waiter has_children_in give_dead
stale_waiter_loses = (refl, refl)

-- Two zombies wait for the shell.
abbrev two_zombies : Root ℕ
two_zombies = set_process 2 (record (blank 1 0) { dead_list = 5 ∷ (3 ∷ []) }) boot

uapi_wait_reaps_example :
    (uapi_wait process_of still_there p_all 0 false 200 two_zombies
      ≡ (gives 5 0 0 0, awaiting process_of still_there 5 2 two_zombies))
    × Reaped process_of still_there 5 2
        (3 ∷ [])
        two_zombies
        (sync_confirm (awaiting process_of still_there 5 2 two_zombies))
    × ((record (awaiting process_of still_there 5 2 two_zombies) { confirm = none }) ≡ two_zombies)
uapi_wait_reaps_example =
    uapi_wait_reaps process_of still_there 0 false 200 5 (3 ∷ []) two_zombies refl (omega arith)
      (omega arith) refl (ground arith) refl

-- With signal 18 pending, SIGCHLD to the parent fails the assert of sig_default().
sigchld_aborts :
    zombify process_of still_there 3 (record boot {
      signals = λ pid. record quiet { process = record quiet.process { pending_set = 2 ^ 17 } };
    })
    ≡ abort
unfolding zombify zombify_under get_process sync_confirm confirmed notify_parent notify_signalled
    sig_send sig_default
sigchld_aborts = refl
