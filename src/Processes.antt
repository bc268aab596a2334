-- ===== src/Processes.antt =====
-- root/uapi.c: the process table of the root task. The signal fields of a process are kept as a
-- state of Signal, which a signal to it is sent with. Its thread numbers are those of Threads; here
-- a process has the number of its threads.
pub mod Waiting
pub mod Credentials
pub mod Numbers
pub mod Outcome
pub mod Calls
pub mod Waiters
pub mod Reaping
mod Tests
use sneks.Base.{
  ℕ, Bool, true, false, not, ◌&&◌, ◌||◌, Option, none, some, List, [], ◌∷◌, ◌++◌, ◌==◌, leb,
  if◌then◌else◌, update,
}
use sneks.Signal.{State, Answers}

-- `struct process`. `has_area`: its `utcb_area` is not L4_Nilpage. `n_threads` is the size of its
-- thread list, `wait_any` is PF_WAIT_ANY, and `dead_list` has the IDs of its zombie children.
pub record Process (T : Type 0) : Type 0 where
  pub has_area : Bool
  pub n_threads : ℕ
  pub wait_any : Bool
  pub ppid : ℕ
  pub real_uid : ℕ
  pub eff_uid : ℕ
  pub saved_uid : ℕ
  pub wait_tid : Option T
  pub signo : ℕ
  pub status : ℕ
  pub code : ℕ
  pub dead_list : List ℕ
  pub limits : List (ℕ × ℕ)

-- What leaves the root task: SIGCHLD to a process, the exit broadcast, and a reply to a thread in
-- Proc::wait.
pub data Event (T : Type 0) : Type 0 where
  sigchld : (pid : ℕ) → Event T
  broadcast : (pid signo status code : ℕ) → Event T
  reply : (waiter : T) → (pid signo status code : ℕ) → Event T

-- `ra_process`, the process table; `pid_to_child_hash` as pairs of the key that an entry was added
-- under and the child; `waitany_hash`; and the pending confirmation, if it is of
-- call_destroy_process(), with the dead process and its parent. `signals` has the signal fields of
-- each process, and `answers` what the callees of sig_send() answer; `sysmsg_known`: `sysmsg_tid`
-- is not nil.
pub record Root (T : Type 0) : Type 0 where
  pub allocated : ℕ → Bool
  pub procs : ℕ → Process T
  pub children : List (ℕ × ℕ)
  pub waitany : List T
  pub confirm : Option (ℕ × ℕ)
  pub signals : ℕ → State
  pub answers : Answers
  pub sysmsg_known : Bool
  pub events : List (Event T)

abbrev pub sneks_max_pid : ℕ
sneks_max_pid = 32767

-- htable_del() of an entry that was added under the key, and list_del_from().
unfoldable pub remove_child : (key child : ℕ) → List (ℕ × ℕ) → List (ℕ × ℕ)
remove_child key child [] = []
remove_child key child ((k, c) ∷ rest) =
    let kept = remove_child key child rest in
    if k == key && (c == child) then rest else (k, c) ∷ kept

unfoldable pub remove_dead : ℕ → List ℕ → List ℕ
remove_dead pid [] = []
remove_dead pid (d ∷ ds) = let kept = remove_dead pid ds in if d == pid then ds else d ∷ kept

module _ {T : Type 0} where
  abbrev pub set_process : ℕ → Process T → Root T → Root T
  set_process pid p s = record s { procs = update s.procs pid p }

  -- destroy_process().
  unfoldable pub destroy_process : ℕ → Root T → Root T
  destroy_process pid s = record s {
    allocated = update s.allocated pid false;
    procs = update s.procs pid (record (s.procs pid) { has_area = false });
    children = remove_child (s.procs pid).ppid pid s.children;
  }

  -- call_destroy_process().
  unfoldable pub call_destroy_process : (dead self : ℕ) → Root T → Root T
  call_destroy_process dead self s = destroy_process dead (
      set_process self
        (record (s.procs self) { dead_list = remove_dead dead (s.procs self).dead_list }) s)

  -- sync_confirm().
  unfoldable pub confirmed : Option (ℕ × ℕ) → Root T → Root T
  confirmed none s = s
  confirmed (some (dead, self)) s = call_destroy_process dead self (record s { confirm = none })

  unfoldable pub sync_confirm : Root T → Root T
  sync_confirm s = confirmed s.confirm s

  -- get_process(): the process, if there is one, and the state.
  unfoldable pub get_process : ℕ → Root T → Option ℕ × Root T
  get_process pid s =
      let t = sync_confirm s in
      if pid == 0 || leb 32768 pid
      then (none, s)
      else (if (t.procs pid).has_area then some pid else none, t)
