-- ===== src/Processes/Reaping.antt =====
-- root/uapi.c: a zombie is reaped by the wait whose reply arrives.
use sneks.Base.{
  ℕ, ◌≤◌, ◌≡◌, ◌≢◌, refl, sym, ap, Bool, true, false, none, some, Option, List, ◌∷◌, arith, ==_ne,
}
use sneks.Processes.{
  Root, call_destroy_process, destroy_process, remove_dead, confirmed, sync_confirm, sneks_max_pid,
}
use sneks.Processes.Waiting.{p_all, gives, give_dead, wait_all, wait_type, uapi_wait}
use sneks.Processes.Outcome.{get_process_live}

module _ {T : Type 0} (pidof : T → ℕ) (listens : T → Bool) where
  abbrev pub awaiting : (dead self : ℕ) → Root T → Root T
  awaiting dead self s = record s { confirm = some (dead, self) }

  abbrev pub Reaped : (dead self : ℕ) → (rest : List ℕ) → Root T → Root T → Type 0
  Reaped dead self rest s t =
      ((t.procs self).dead_list ≡ rest)
      × ((t.procs dead).has_area ≡ false)
      × (t.allocated dead ≡ false)
      × (t.confirm ≡ none)
      × ((q : ℕ)
          → q ≢ dead
          → ((t.procs q).has_area ≡ (s.procs q).has_area) × (t.allocated q ≡ s.allocated q))

  remove_first : (d : ℕ) (ds : List ℕ) → remove_dead d (d ∷ ds) ≡ ds
  unfolding remove_dead
  remove_first d ds = ground arith

  sync_reaps :
      (dead self : ℕ) (rest : List ℕ) (s : Root T)
      → dead ≢ self
      → (s.procs self).dead_list ≡ dead ∷ rest
      → Reaped dead self rest s (sync_confirm (awaiting dead self s))
  unfolding sync_confirm confirmed call_destroy_process destroy_process
  sync_reaps dead self rest s differ e = (
    ground (arith, ==_ne dead self differ, e, remove_first dead rest),
    ground arith,
    ground arith,
    refl,
    λ q off. ground arith,
  )

  -- waitid(P_ALL) of a process with zombies, with no confirmation pending, gives the values of the
  -- first one. If the reply arrives, the next operation that looks up a process first takes that
  -- zombie, and nothing else, off its parent's list and out of the process table; if the reply is
  -- lost, the state is as it was.
  pub uapi_wait_reaps :
      (id : ℕ) (nohang : Bool) (sender : T) (dead : ℕ) (rest : List ℕ) (s : Root T)
      → s.confirm ≡ none
      → 1 ≤ pidof sender
      → pidof sender ≤ sneks_max_pid
      → (s.procs (pidof sender)).has_area ≡ true
      → dead ≢ pidof sender
      → (s.procs (pidof sender)).dead_list ≡ dead ∷ rest
      → (uapi_wait pidof listens p_all id nohang sender s ≡ (
        gives dead (s.procs dead).signo (s.procs dead).status (s.procs dead).code,
        awaiting dead (pidof sender) s,
      ))
        × Reaped dead (pidof sender) rest s (sync_confirm (awaiting dead (pidof sender) s))
        × ((record (awaiting dead (pidof sender) s) { confirm = none }) ≡ s)
  unfolding uapi_wait wait_type wait_all give_dead
  uapi_wait_reaps id nohang sender dead rest s settled low high live differ e = (
    rw (get_process_live pidof listens (pidof sender) s settled low high live, e) (ground arith),
    sync_reaps dead (pidof sender) rest s differ e,
    ap (λ (c : Option (ℕ × ℕ)). record s { confirm = c }) (sym settled),
  )
