-- ===== src/Processes/Numbers.antt =====
-- root/uapi.c: process IDs in their order, and new processes.
use sneks.Base.{
  ◌-◌, ◌^◌, ℕ, zero, suc, ◌+◌, ◌≤◌, ◌<◌, ◌≡◌, refl, true, false, Option, none, some, [], ◌==◌, leb,
  if◌then◌else◌, update, Ends, abort, returns, arith, replicate, Bool-cases, inl, inr, ==_iff,
}
use sneks.Signal.{State}
use sneks.Processes.{Process, Root, set_process, sneks_max_pid}

-- What alloc_process() makes of a number past the last: the compare-and-exchange of
-- `next_user_pid`, and the new `next_user_pid` with the number to try.
unfoldable pub wrap_pid : (next maybe : ℕ) → Ends (ℕ × ℕ)
wrap_pid next maybe =
    if leb maybe sneks_max_pid
    then returns (next, maybe)
    else if next == maybe
    then returns (2, 1)
    else if leb next sneks_max_pid
    then returns (next, next)
    else abort

wrap_pid-low :
    (next : ℕ) → next ≤ sneks_max_pid → wrap_pid (next + 1) next ≡ returns (next + 1, next)
unfolding wrap_pid
wrap_pid-low next h = ground arith

wrap_pid-past : (next : ℕ) → sneks_max_pid < next → wrap_pid (next + 1) next ≡ abort
unfolding wrap_pid
wrap_pid-past next h = ground arith

suc_across : (n next : ℕ) → n + (next + 1) ≡ suc n + next
suc_across n next = omega arith

-- The signal fields of process_ctor(): every signal at its default.
unfoldable pub ctor_signals : State → State
ctor_signals u = record u {
  process = record u.process {
    ign_set = 0;
    dfl_set = 2 ^ 64 - 1;
    mask_set = 0;
    pending_set = 0;
    sighelper_tid = none;
  };
}

module _ {T : Type 0} where
  -- process_ctor(), the signal fields in `ctor_signals`.
  unfoldable pub process_ctor : Process T → Process T
  process_ctor p = record p { dead_list = []; wait_tid = none; limits = replicate 4 (0, 0) }

  -- One round of alloc_process(), with what it does on a number that is taken.
  unfoldable pub try_pid :
      Ends (ℕ × ℕ)
      → ((next : ℕ) → Ends (Option ℕ × ℕ × Root T))
      → Root T
      → Ends (Option ℕ × ℕ × Root T)
  try_pid abort again s = abort
  try_pid (returns (next, maybe)) again s =
      if s.allocated maybe
      then again next
      else (returns (
        some maybe,
        next,
        record (set_process maybe (process_ctor (s.procs maybe)) s) {
          allocated = update s.allocated maybe true;
          signals = update s.signals maybe (ctor_signals (s.signals maybe));
        },
      ))

  -- `n` rounds of alloc_process(): the process it gets, `next_user_pid` and the state.
  unfoldable pub alloc_rounds : (n next : ℕ) → Root T → Ends (Option ℕ × ℕ × Root T)
  alloc_rounds zero next s = returns (none, next, s)
  alloc_rounds (suc n) next s =
      try_pid (wrap_pid (next + 1) next) (λ (after : ℕ). alloc_rounds n after s) s

  unfoldable pub alloc_process : (next : ℕ) → Root T → Ends (Option ℕ × ℕ × Root T)
  alloc_process next s = alloc_rounds sneks_max_pid next s

  -- The state with the process made.
  abbrev pub with_process : (pid : ℕ) → Root T → Root T
  with_process pid s = record (set_process pid (process_ctor (s.procs pid)) s) {
    allocated = update s.allocated pid true;
    signals = update s.signals pid (ctor_signals (s.signals pid));
  }

  alloc_rounds-finds :
      (n next k : ℕ) (s : Root T)
      → next ≤ k
      → k ≤ sneks_max_pid
      → k < n + next
      → ((j : ℕ) → next ≤ j → j < k → s.allocated j ≡ true)
      → s.allocated k ≡ false
      → alloc_rounds n next s ≡ returns (some k, k + 1, with_process k s)
  unfolding alloc_rounds try_pid
  alloc_rounds-finds zero next k s low high fuel taken free = absurd (omega arith)
  alloc_rounds-finds (suc n) next k s low high fuel taken free =
      rw (wrap_pid-low next (omega arith)) elim (Bool-cases (next == k)) [
        | inl here ↦ rw ((==_iff next k).0 here, free) refl
        | inr later ↦ rw (taken next (omega arith) (ground arith)) (
            alloc_rounds-finds n (next + 1) k s (ground arith) high (omega arith)
              (λ j h below. taken j (omega arith) below) free)
      ]

  alloc_rounds-full :
      (n next : ℕ) (s : Root T)
      → next ≤ sneks_max_pid + 1
      → ((j : ℕ) → next ≤ j → j ≤ sneks_max_pid → s.allocated j ≡ true)
      → alloc_rounds n next s
        ≡ (if leb (n + next) (sneks_max_pid + 1) then returns (none, n + next, s) else abort)
  unfolding alloc_rounds try_pid
  alloc_rounds-full zero next s low taken = ground arith
  alloc_rounds-full (suc n) next s low taken = elim (Bool-cases (leb next sneks_max_pid)) [
    | inl more ↦
        rw (wrap_pid-low next (ground arith), taken next (omega arith) (ground arith))
          (ground (
            arith,
            alloc_rounds-full n (next + 1) s (ground arith)
                (λ j h below. taken j (omega arith) below),
            suc_across n next,
          ))
    | inr past ↦ rw (wrap_pid-past next (ground arith)) (ground arith)
  ]

  -- alloc_process() makes the first process number from `next_user_pid` on that is not taken, if
  -- there is one up to the last; otherwise its assert fails, unless it started at 1.
  pub alloc_process_allocates :
      (next k : ℕ) (s : Root T)
      → next ≤ k
      → 1 ≤ next
      → k ≤ sneks_max_pid + 1
      → ((j : ℕ) → next ≤ j → j < k → s.allocated j ≡ true)
      → ((k ≤ sneks_max_pid) → s.allocated k ≡ false)
      → alloc_process next s ≡ (
          if leb k sneks_max_pid
          then returns (some k, k + 1, with_process k s)
          else if next == 1
          then returns (none, sneks_max_pid + 1, s)
          else abort)
  unfolding alloc_process
  alloc_process_allocates next k s low first high taken free =
      elim (Bool-cases (leb k sneks_max_pid)) [
        | inl within ↦ rw within (
            alloc_rounds-finds sneks_max_pid next k s low (ground arith) (ground arith) taken
              (free (ground arith)))
        | inr past ↦ rw past (
            ground (
              arith,
              alloc_rounds-full sneks_max_pid next s (omega arith)
                  (λ j h below. taken j h (ground arith)),
            ))
      ]
