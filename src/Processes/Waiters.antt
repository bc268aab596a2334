-- ===== src/Processes/Waiters.antt =====
-- root/uapi.c: PF_WAIT_ANY and `waitany_hash` when a process ends.
use sneks.Base.{
  update, ℕ, ◌≡◌, refl, sym, ◌∙◌, Bool, true, false, ◌||◌, Option, none, some, List, [], ◌∷◌, ◌++◌,
  ◌==◌, if◌then◌else◌, Ends, abort, returns, arith, Bool-cases, ==_iff, inl, inr, leb,
}
use sneks.Processes.{
  Process, Root, set_process, destroy_process, call_destroy_process, confirmed, sync_confirm,
  get_process,
}
use sneks.Signal.{State, Run, done, out_of_fuel}
use sneks.Signal
use sneks.Processes.Waiting.{
  pick_waiter, finish_zombie, find_waiter, tell_parent, notify_signalled, notify_parent, adopt,
  zombify_under, zombify, exit_of,
}

module _ {T : Type 0} (pidof : T → ℕ) where
  -- Whether a thread of the process is in `waitany_hash`.
  unfoldable pub has_waiter : List T → ℕ → Bool
  has_waiter [] pid = false
  has_waiter (t ∷ ts) pid = pidof t == pid || has_waiter ts pid

  pub has_waiter-append :
      (ts : List T) (t : T) (pid : ℕ)
      → has_waiter (ts ++ (t ∷ [])) pid ≡ has_waiter ts pid || (pidof t == pid)
  unfolding has_waiter
  has_waiter-append [] t pid = ground arith
  has_waiter-append (u ∷ ts) t pid = ground (arith, has_waiter-append ts t pid)

  -- "processes that have PF_WAIT_ALL set will have at least one thread in waitany_hash, and ones
  -- where the bit is clear have none."
  abbrev pub FlagsRight : Root T → Type 0
  FlagsRight s = (pid : ℕ) → (s.procs pid).wait_any ≡ has_waiter s.waitany pid

  pick_more :
      (ppid : ℕ) (w : T) (ts : List T) (pid : ℕ)
      → (has_waiter (pick_waiter pidof ppid (some w) ts).1 pid ≡ has_waiter ts pid)
        × ((pick_waiter pidof ppid (some w) ts).2 ≡ has_waiter ts ppid)
  unfolding pick_waiter has_waiter
  pick_more ppid w [] pid = (refl, refl)
  pick_more ppid w (t ∷ ts) pid = ground (arith, pick_more ppid w ts pid)

  pick_first :
      (ppid : ℕ) (ts : List T) (pid : ℕ)
      → has_waiter (pick_waiter pidof ppid none ts).1 pid
        ≡ (if pid == ppid then (pick_waiter pidof ppid none ts).2 else has_waiter ts pid)
  unfolding pick_waiter has_waiter
  pick_first ppid [] pid = ground arith
  pick_first ppid (t ∷ ts) pid =
      ground (arith, pick_first ppid ts pid, pick_more ppid t ts pid, pick_more ppid t ts ppid)

  pick_none :
      (ppid : ℕ) (ts : List T)
      → (pick_waiter pidof ppid none ts).2 ≡ true
      → has_waiter ts ppid ≡ true
  unfolding pick_waiter has_waiter
  pick_none ppid [] e = ground arith
  pick_none ppid (t ∷ ts) e = ground (arith, pick_none ppid ts)

  confirmed-FlagsRight :
      (c : Option (ℕ × ℕ)) (s : Root T) → FlagsRight s → FlagsRight (confirmed c s)
  unfolding confirmed call_destroy_process destroy_process
  confirmed-FlagsRight none s right pid = right pid
  confirmed-FlagsRight (some (dead, self)) s right pid = ground (arith, right pid)

  confirmed-ppid :
      (c : Option (ℕ × ℕ)) (s : Root T) (pid : ℕ)
      → ((confirmed c s).procs pid).ppid ≡ (s.procs pid).ppid
  unfolding confirmed call_destroy_process destroy_process
  confirmed-ppid none s pid = refl
  confirmed-ppid (some (dead, self)) s pid = ground arith

  -- What get_process() finds has the number that was asked for.
  abbrev pub Found : (pid : ℕ) → Option ℕ → Type 0
  Found pid none = (pid ≡ pid)
  Found pid (some found) = (found ≡ pid)

  pub get_process-keeps :
      (pid : ℕ) (s : Root T)
      → FlagsRight s
      → FlagsRight (get_process pid s).1
        × Found pid (get_process pid s).0
        × ((q : ℕ) → ((get_process pid s).1.procs q).ppid ≡ (s.procs q).ppid)
  unfolding get_process sync_confirm
  get_process-keeps pid s right = elim (Bool-cases (pid == 0 || leb 32768 pid)) [
    | inl out ↦ rw out (right, refl, λ q. refl)
    | inr inside ↦ rw inside elim (Bool-cases ((confirmed s.confirm s).procs pid).has_area) [
      | inl live ↦
          rw live (confirmed-FlagsRight s.confirm s right, refl, confirmed-ppid s.confirm s)
      | inr dead ↦
          rw dead (confirmed-FlagsRight s.confirm s right, refl, confirmed-ppid s.confirm s)
    ]
  ]

  pub set-FlagsRight :
      (pid : ℕ) (p : Process T) (s : Root T)
      → p.wait_any ≡ (s.procs pid).wait_any
      → FlagsRight s
      → FlagsRight (set_process pid p s)
  set-FlagsRight pid p s e right q = ground (arith, right q, (==_iff pid q).0)

  module _ (listens : T → Bool) where
    finish_zombie-FlagsRight :
        (pid parent : ℕ) (w : Option T) (s : Root T)
        → FlagsRight s
        → FlagsRight (finish_zombie pidof listens pid parent w s)
    unfolding finish_zombie destroy_process
    finish_zombie-FlagsRight pid parent none s right q = ground (arith, right q)
    finish_zombie-FlagsRight pid parent (some w) s right q = ground (arith, right q)

    find_waiter-FlagsRight :
        (pid parent : ℕ) (w : Option T) (s : Root T)
        → (s.procs pid).ppid ≡ parent
        → FlagsRight s
        → FlagsRight (find_waiter pidof listens pid parent w s).1
    unfolding find_waiter
    find_waiter-FlagsRight pid parent (some w) s e right q = right q
    find_waiter-FlagsRight pid parent none s e right q =
        ground
          (arith, right q, right parent, pick_first parent s.waitany q, pick_none parent s.waitany)

    tell_parent-FlagsRight :
        (pid parent : ℕ) (s : Root T)
        → (s.procs pid).ppid ≡ parent
        → FlagsRight s
        → FlagsRight (tell_parent pidof listens pid parent s)
    unfolding tell_parent
    tell_parent-FlagsRight pid parent s e right =
        finish_zombie-FlagsRight pid parent _ _
          (find_waiter-FlagsRight pid parent (s.procs pid).wait_tid _ e right)

    abbrev pub Right : Ends (Root T) → Type 0
    Right abort = (true ≡ true)
    Right (returns s) = FlagsRight s

    Right-if : (b : Bool) (t : Root T) → FlagsRight t → Right (if b then returns t else abort)
    Right-if true t right = right
    Right-if false t right = refl

    notify_signalled-FlagsRight :
        (pid parent : ℕ) (r : Run State) (s : Root T)
        → (s.procs pid).ppid ≡ parent
        → FlagsRight s
        → Right (notify_signalled pidof listens pid parent r s)
    unfolding notify_signalled
    notify_signalled-FlagsRight pid parent (done u) s e right = Right-if s.sysmsg_known _ (
        tell_parent-FlagsRight pid parent (record s { signals = update s.signals parent u }) e
          right)
    notify_signalled-FlagsRight pid parent out_of_fuel s e right = refl
    notify_signalled-FlagsRight pid parent Signal.abort s e right = refl

    notify_parent-FlagsRight :
        (pid parent : ℕ) (s : Root T)
        → (s.procs pid).ppid ≡ parent
        → FlagsRight s
        → Right (notify_parent pidof listens pid parent s)
    unfolding notify_parent
    notify_parent-FlagsRight pid parent s e right =
        notify_signalled-FlagsRight pid parent _ s e right

    adopt-FlagsRight :
        (pid : ℕ) (o : Option ℕ) (s : Root T)
        → Found 1 o
        → (s.procs pid).ppid ≡ 1
        → FlagsRight s
        → Right (adopt pidof listens pid (o, s))
    unfolding adopt
    adopt-FlagsRight pid none s found e right = refl
    adopt-FlagsRight pid (some parent) s found e right = elim (Bool-cases (parent == pid)) [
      | inl own ↦ rw own refl
      | inr differs ↦ rw differs (notify_parent-FlagsRight pid parent s (e ∙ sym found) right)
    ]

    abbrev reparented : ℕ → Root T → Root T
    reparented pid s = set_process pid (record (s.procs pid) { ppid = 1 }) s

    parent_is_init : (pid : ℕ) (s : Root T) → ((reparented pid s).procs pid).ppid ≡ 1
    parent_is_init pid s = ground arith

    reparented_keeps :
        (pid : ℕ) (s : Root T)
        → FlagsRight s
        → FlagsRight (get_process 1 (reparented pid s)).1
          × Found 1 (get_process 1 (reparented pid s)).0
          × ((q : ℕ)
              → ((get_process 1 (reparented pid s)).1.procs q).ppid
                ≡ ((reparented pid s).procs q).ppid)
    reparented_keeps pid s right =
        get_process-keeps 1 (reparented pid s)
          (set-FlagsRight pid (record (s.procs pid) { ppid = 1 }) s refl right)

    zombify_under-FlagsRight :
        (pid : ℕ) (o : Option ℕ) (s : Root T)
        → Found (s.procs pid).ppid o
        → FlagsRight s
        → Right (zombify_under pidof listens pid (o, s))
    unfolding zombify_under
    zombify_under-FlagsRight pid (some parent) s found right =
        notify_parent-FlagsRight pid parent s (sym found) right
    zombify_under-FlagsRight pid none s found right = elim (Bool-cases (pid == 1)) [
      | inl init ↦ rw init refl
      | inr differs ↦ rw differs (
          adopt-FlagsRight pid _ _ (reparented_keeps pid s right).1
            ((reparented_keeps pid s right).2 pid ∙ parent_is_init pid s)
            (reparented_keeps pid s right).0)
    ]

    abbrev pub stopped : ℕ → Root T → Root T
    stopped pid s = set_process pid (record (s.procs pid) { n_threads = 0 }) s

    stopped_keeps :
        (pid parent : ℕ) (s : Root T)
        → FlagsRight s
        → FlagsRight (get_process parent (stopped pid s)).1
          × Found parent (get_process parent (stopped pid s)).0
          × ((q : ℕ)
              → ((get_process parent (stopped pid s)).1.procs q).ppid
                ≡ ((stopped pid s).procs q).ppid)
    stopped_keeps pid parent s right =
        get_process-keeps parent (stopped pid s)
          (set-FlagsRight pid (record (s.procs pid) { n_threads = 0 }) s refl right)

    same_parent : (pid : ℕ) (s : Root T) → ((stopped pid s).procs pid).ppid ≡ (s.procs pid).ppid
    same_parent pid s = ground arith

    zombify-FlagsRight : (pid : ℕ) (s : Root T) → FlagsRight s → Right (zombify pidof listens pid s)
    unfolding zombify
    zombify-FlagsRight pid s right =
        zombify_under-FlagsRight pid _ _ (rw (kept.2 pid, same_parent pid s) kept.1) kept.0
      where
        kept :
            FlagsRight (get_process (s.procs pid).ppid (stopped pid s)).1
            × Found (s.procs pid).ppid (get_process (s.procs pid).ppid (stopped pid s)).0
            × ((q : ℕ)
                → ((get_process (s.procs pid).ppid (stopped pid s)).1.procs q).ppid
                  ≡ ((stopped pid s).procs q).ppid)
        kept = stopped_keeps pid (s.procs pid).ppid s right

    pub exit_of-FlagsRight :
        (status : ℕ) (o : Option ℕ) (s : Root T)
        → FlagsRight s
        → Right (exit_of pidof listens status (o, s))
    unfolding exit_of
    exit_of-FlagsRight status none s right = refl
    exit_of-FlagsRight status (some pid) s right = zombify-FlagsRight pid _ (
        set-FlagsRight pid (record (s.procs pid) { code = 1; status = status; signo = 0 }) s refl
          right)
