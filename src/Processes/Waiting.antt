-- ===== src/Processes/Waiting.antt =====
-- root/uapi.c: a process ends, and its parent waits for it.
use sneks.Base.{
  ℕ, Bool, true, false, not, ◌&&◌, ◌||◌, Option, none, some, List, [], ◌∷◌, ◌++◌, ℤ, negsuc, ◌==◌,
  leb, if◌then◌else◌, Ends, abort, returns, update,
}
use sneks.Signal.{State, Run, done, out_of_fuel, sig_send, sig_chld}
use sneks.Signal
use sneks.Processes.{sigchld, broadcast, reply, Root, set_process, destroy_process, get_process}

-- The loop of zombify() over `waitany_hash`: the waiter, the entries that stay, and whether the
-- parent has more.
unfoldable pub pick_waiter :
    {T : Type 0} → (T → ℕ) → (ppid : ℕ) → Option T → List T → Option T × List T × Bool
pick_waiter pidof ppid waiter [] = (waiter, [], false)
pick_waiter pidof ppid none (cand ∷ rest) =
    let taken = pick_waiter pidof ppid (some cand) rest in
    let passed = pick_waiter pidof ppid none rest in
    if pidof cand == ppid then taken else (passed.0, cand ∷ passed.1, passed.2)
pick_waiter pidof ppid (some w) (cand ∷ rest) =
    let passed = pick_waiter pidof ppid (some w) rest in
    if pidof cand == ppid
    then (some w, cand ∷ rest, true)
    else (passed.0, cand ∷ passed.1, passed.2)

abbrev pub einval : ℤ
einval = negsuc 21

abbrev pub echild : ℤ
echild = negsuc 9

-- `idtype` of waitid(): P_ALL, P_PID and the others.
pub data IdType : Type 0 where
  p_all p_pid other : IdType

-- What uapi_wait() does: it returns its result with the five values, or replies later.
pub data Waits : Type 0 where
  fails : ℤ → Waits
  gives : (pid signo status code : ℕ) → Waits
  sleeps : Waits

-- `pidof` is pidof_NP(), and `listens` says whether a reply to a thread succeeds.
module _ {T : Type 0} (pidof : T → ℕ) (listens : T → Bool) where
  -- The end of zombify(), once the waiter is known.
  unfoldable pub finish_zombie : (pid parent : ℕ) → Option T → Root T → Root T
  finish_zombie pid parent none s =
      set_process parent
        (record (s.procs parent) { dead_list = (s.procs parent).dead_list ++ (pid ∷ []) }) s
  finish_zombie pid parent (some waiter) s =
      let p = s.procs pid in
      let sent = record s {
        events = s.events ++ (reply waiter pid p.signo p.status p.code ∷ []);
      } in
      if listens waiter
      then destroy_process pid sent
      else (set_process parent
          (record (s.procs parent) { dead_list = (s.procs parent).dead_list ++ (pid ∷ []) }) s)

  -- The search for a waiter.
  unfoldable pub find_waiter : (pid parent : ℕ) → Option T → Root T → Option T × Root T
  find_waiter pid parent (some w) s = (some w, s)
  find_waiter pid parent none s =
      let picked = pick_waiter pidof (s.procs pid).ppid none s.waitany in
      let flagged =
        set_process parent
          (record (s.procs parent) { wait_any = (s.procs parent).wait_any && picked.2 }) s in
      if (s.procs parent).wait_any
      then (picked.0, record flagged { waitany = picked.1 })
      else (none, s)

  -- What follows SIGCHLD, which is recorded: the search, the broadcast, and the reply.
  unfoldable pub tell_parent : (pid parent : ℕ) → Root T → Root T
  tell_parent pid parent s =
      let found =
        find_waiter pid parent (s.procs pid).wait_tid
          (record s { events = s.events ++ (sigchld parent ∷ []) }) in
      let p = s.procs pid in
      let t = found.1 in
      finish_zombie pid parent found.0
        (record t { events = t.events ++ (broadcast pid p.signo p.status p.code ∷ []) })

  -- By how sig_send() to the parent ends. The assert on sysmsg_tid comes after the search, whose
  -- changes are lost with the root task.
  unfoldable pub notify_signalled : (pid parent : ℕ) → Run State → Root T → Ends (Root T)
  notify_signalled pid parent (done u) s =
      if s.sysmsg_known
      then returns (tell_parent pid parent (record s { signals = update s.signals parent u }))
      else abort
  notify_signalled pid parent out_of_fuel s = abort
  notify_signalled pid parent Signal.abort s = abort

  -- SIGCHLD to the parent, and the rest.
  unfoldable pub notify_parent : (pid parent : ℕ) → Root T → Ends (Root T)
  notify_parent pid parent s =
      notify_signalled pid parent (sig_send s.answers (s.signals parent) sig_chld false) s

  -- zombify() of a process whose parent is gone: init takes it over.
  unfoldable pub adopt : (pid : ℕ) → Option ℕ × Root T → Ends (Root T)
  adopt pid (none, s) = abort
  adopt pid (some parent, s) = if parent == pid then abort else notify_parent pid parent s

  unfoldable pub zombify_under : (pid : ℕ) → Option ℕ × Root T → Ends (Root T)
  zombify_under pid (some parent, s) = notify_parent pid parent s
  zombify_under pid (none, s) =
      if pid == 1
      then abort
      else adopt pid (get_process 1 (set_process pid (record (s.procs pid) { ppid = 1 }) s))

  -- zombify(), where process_dtor() has removed the threads.
  unfoldable pub zombify : (pid : ℕ) → Root T → Ends (Root T)
  zombify pid s =
      zombify_under pid (
        get_process (s.procs pid).ppid (set_process pid (record (s.procs pid) { n_threads = 0 }) s))

  -- uapi_exit() of a process.
  unfoldable pub exit_of : (status : ℕ) → Option ℕ × Root T → Ends (Root T)
  exit_of status (none, s) = abort
  exit_of status (some pid, s) =
      zombify pid
        (set_process pid (record (s.procs pid) { code = 1; status = status; signo = 0 }) s)

  unfoldable pub uapi_exit : (status pid : ℕ) → Root T → Ends (Root T)
  uapi_exit status pid s = exit_of status (get_process pid s)

  -- has_children().
  unfoldable pub has_children_in : (pid : ℕ) → List (ℕ × ℕ) → Root T → Bool
  has_children_in pid [] s = false
  has_children_in pid ((key, child) ∷ rest) s =
      key == pid && ((s.procs child).ppid == pid) || has_children_in pid rest s

  unfoldable pub give_dead : (self dead : ℕ) → Root T → Waits × Root T
  give_dead self dead s = (
    gives dead (s.procs dead).signo (s.procs dead).status (s.procs dead).code,
    record s { confirm = some (dead, self) },
  )

  -- uapi_wait(P_PID, ...), with what get_process() finds.
  unfoldable pub wait_pid : (nohang : Bool) → T → Option ℕ × Root T → Waits × Root T
  wait_pid nohang sender (none, s) = (fails echild, s)
  wait_pid nohang sender (some child, s) =
      if not ((s.procs child).ppid == pidof sender)
      then (fails echild, s)
      else if (s.procs child).n_threads == 0
      then give_dead (pidof sender) child s
      else if nohang
      then (gives 0 0 0 0, s)
      else (sleeps, set_process child (record (s.procs child) { wait_tid = some sender }) s)

  -- uapi_wait(P_ALL, ...), by the first of the dead list; the assert that its parent is the caller
  -- is left out, as destroy_process() takes a child off the list of its parent alone.
  unfoldable pub wait_all : (nohang : Bool) → T → List ℕ → Root T → Waits × Root T
  wait_all nohang sender (dead ∷ rest) s = give_dead (pidof sender) dead s
  wait_all nohang sender [] s =
      if not (has_children_in (pidof sender) s.children s)
      then (fails echild, s)
      else if nohang
      then (gives 0 0 0 0, s)
      else (
        sleeps,
        record (set_process (pidof sender) (record (s.procs (pidof sender)) { wait_any = true })
            s) { waitany = s.waitany ++ (sender ∷ []) },
      )

  unfoldable pub wait_type : IdType → (id : ℕ) (nohang : Bool) → T → Root T → Waits × Root T
  wait_type p_pid id nohang sender s = wait_pid nohang sender (get_process id s)
  wait_type p_all id nohang sender s = wait_all nohang sender (s.procs (pidof sender)).dead_list s
  wait_type other id nohang sender s = (fails einval, s)

  -- uapi_wait().
  unfoldable pub uapi_wait : IdType → (id : ℕ) (nohang : Bool) → T → Root T → Waits × Root T
  uapi_wait idtype id nohang sender s =
      if leb 50000 (pidof sender)
      then (fails einval, s)
      else wait_type idtype id nohang sender (get_process (pidof sender) s).1
