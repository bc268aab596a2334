-- ===== src/Processes/Outcome.antt =====
-- root/uapi.c: what zombify() does with the exit of a child.
use sneks.Base.{
  update, ℕ, ◌≤◌, ◌≡◌, Bool, true, false, Option, none, some, List, [], ◌∷◌, ◌++◌, ◌==◌,
  if◌then◌else◌, arith,
}
use sneks.Processes.{
  Root, sigchld, broadcast, reply, confirmed, sync_confirm, get_process, sneks_max_pid,
}
use sneks.Signal.{State}

module _ {T : Type 0} (pidof : T → ℕ) (listens : T → Bool) where
  -- The first thread of a process in a list.
  unfoldable pub first_of : List T → ℕ → Option T
  first_of [] pid = none
  first_of (t ∷ ts) pid = let rest = first_of ts pid in if pidof t == pid then some t else rest

  -- The thread that waits for the child alone, or else the first that waits for any child.
  abbrev pub chosen : Option T → Option T → Option T
  chosen none any = any
  chosen (some w) any = some w

  -- The thread, if it still listens.
  abbrev pub heard : Option T → Option T
  heard none = none
  heard (some w) = if listens w then some w else none

  pub get_process_live :
      (pid : ℕ) (s : Root T)
      → s.confirm ≡ none
      → 1 ≤ pid
      → pid ≤ sneks_max_pid
      → (s.procs pid).has_area ≡ true
      → get_process pid s ≡ (some pid, s)
  unfolding get_process sync_confirm confirmed
  get_process_live pid s settled low high live = rw (settled, live) (ground arith)

  -- How an exit ends: the child's values go to the thread in Proc::wait that is told, and the child
  -- is gone; or the child is the last zombie of its parent.
  abbrev pub ZombieEnds : (pid parent : ℕ) → Root T → Option T → Root T → Type 0
  ZombieEnds pid parent s (some w) t =
      (t.events
        ≡ s.events
          ++ (sigchld parent
              ∷ broadcast pid (s.procs pid).signo (s.procs pid).status (s.procs pid).code
              ∷ reply w pid (s.procs pid).signo (s.procs pid).status (s.procs pid).code
              ∷ []))
      × ((t.procs pid).has_area ≡ false)
      × (t.allocated pid ≡ false)
      × ((t.procs parent).dead_list ≡ (s.procs parent).dead_list)
  ZombieEnds pid parent s none t =
      (t.events
        ≡ s.events
          ++ (sigchld parent
              ∷ broadcast pid (s.procs pid).signo (s.procs pid).status (s.procs pid).code
              ∷ []))
      × ((t.procs pid).has_area ≡ (s.procs pid).has_area)
      × (t.allocated pid ≡ s.allocated pid)
      × ((t.procs pid).n_threads ≡ 0)
      × ((t.procs parent).dead_list ≡ (s.procs parent).dead_list ++ (pid ∷ []))

  -- What find_waiter() leaves alone.
  abbrev Same : Root T → Root T → Type 0
  Same s t =
      (t.events ≡ s.events)
      × (t.allocated ≡ s.allocated)
      × ((q : ℕ)
          → ((t.procs q).dead_list ≡ (s.procs q).dead_list)
            × ((t.procs q).has_area ≡ (s.procs q).has_area)
            × ((t.procs q).signo ≡ (s.procs q).signo)
            × ((t.procs q).status ≡ (s.procs q).status)
            × ((t.procs q).code ≡ (s.procs q).code))

  -- What finish_zombie() adds.
  abbrev Finished : (pid parent : ℕ) → Root T → Option T → Root T → Type 0
  Finished pid parent u (some w) t =
      (t.events
        ≡ u.events
          ++ (reply w pid (u.procs pid).signo (u.procs pid).status (u.procs pid).code ∷ []))
      × ((t.procs pid).has_area ≡ false)
      × (t.allocated pid ≡ false)
      × ((t.procs parent).dead_list ≡ (u.procs parent).dead_list)
  Finished pid parent u none t =
      (t.events ≡ u.events)
      × ((t.procs pid).has_area ≡ (u.procs pid).has_area)
      × (t.allocated pid ≡ u.allocated pid)
      × ((t.procs pid).n_threads ≡ (u.procs pid).n_threads)
      × ((t.procs parent).dead_list ≡ (u.procs parent).dead_list ++ (pid ∷ []))

  abbrev signalled : ℕ → State → Root T → Root T
  signalled parent u s = record s { signals = update s.signals parent u }
