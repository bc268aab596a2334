-- ===== src/Processes/Credentials.antt =====
-- root/uapi.c: the user IDs and resource limits of a process.
use sneks.Base.{
  ℕ, ◌-◌, ◌^◌, ◌≡◌, ◌≢◌, ◌⊎◌, inl, inr, refl, Bool, true, not, ◌&&◌, ◌||◌, Option, none, some, ℤ,
  pos, negsuc, ◌==◌, ltb, leb, if◌then◌else◌, Ends, abort, returns, arith, ==_iff, ==_ne, length,
  get_or, set, bit_and, has_bit, compl, Bool-cases,
}
use sneks.Processes.{Process, Root, set_process, get_process}

-- `(uid_t)-1`.
abbrev pub unset : ℕ
unset = 2 ^ 32 - 1

abbrev pub eperm : ℤ
eperm = negsuc 0

abbrev pub esrch : ℤ
esrch = negsuc 2

abbrev pub einval : ℤ
einval = negsuc 21

abbrev pub enosys : ℤ
enosys = negsuc 37

module _ {T : Type 0} where
  -- The assignments at the end of uapi_setresugid().
  unfoldable pub assign_uids : (r_uid e_uid s_uid : ℕ) → Process T → Process T
  assign_uids r_uid e_uid s_uid p = record p {
    real_uid = if r_uid == unset then p.real_uid else r_uid;
    eff_uid = if e_uid == unset then p.eff_uid else e_uid;
    saved_uid = if s_uid == unset then p.saved_uid else s_uid;
  }

  -- Whether the loop of mode 3 accepts a candidate.
  unfoldable pub is_own_uid : ℕ → Process T → Bool
  is_own_uid c p = c == unset || (c == p.real_uid) || (c == p.eff_uid) || (c == p.saved_uid)

  -- uapi_setresugid() of a process, for the user IDs.
  unfoldable pub setresuid : (mode r_uid e_uid s_uid : ℕ) → Process T → Ends (ℤ × Process T)
  setresuid mode r_uid e_uid s_uid p =
      if mode == 0 || leb 4 mode
      then returns (einval, p)
      else if mode == 1
      then (if p.eff_uid == 0
          then returns (pos 0, assign_uids r_uid r_uid r_uid p)
          else if r_uid == p.eff_uid || (r_uid == p.saved_uid)
          then (if s_uid == unset then returns (pos 0, assign_uids unset r_uid s_uid p) else abort)
          else returns (eperm, p))
      else if mode == 2
      then returns (enosys, p)
      else if not (p.eff_uid == 0)
          && not (is_own_uid r_uid p && (is_own_uid e_uid p && is_own_uid s_uid p))
      then returns (eperm, p)
      else returns (pos 0, assign_uids r_uid e_uid s_uid p)

  unfoldable pub store_process : (pid : ℕ) → Ends (ℤ × Process T) → Root T → Ends (ℤ × Root T)
  store_process pid abort s = abort
  store_process pid (returns (n, p)) s = returns (n, set_process pid p s)

  unfoldable pub setresugid_of :
      (mode r_uid e_uid s_uid : ℕ) → Option ℕ × Root T → Ends (ℤ × Root T)
  setresugid_of mode r_uid e_uid s_uid (none, s) = returns (esrch, s)
  setresugid_of mode r_uid e_uid s_uid (some pid, s) =
      store_process pid (setresuid mode r_uid e_uid s_uid (s.procs pid)) s

  unfoldable pub uapi_setresugid : (pid mode r_uid e_uid s_uid : ℕ) → Root T → Ends (ℤ × Root T)
  uapi_setresugid pid mode r_uid e_uid s_uid s =
      setresugid_of mode r_uid e_uid s_uid (get_process pid s)

  -- The user IDs that uapi_getresugid() gives: real, effective and saved.
  unfoldable pub getresugid_of : Option ℕ × Root T → ℕ × ℕ × ℕ
  getresugid_of (none, s) = (unset, unset, unset)
  getresugid_of (some pid, s) =
      ((s.procs pid).real_uid, (s.procs pid).eff_uid, (s.procs pid).saved_uid)

  unfoldable pub uapi_getresugid : (pid : ℕ) → Root T → ℕ × ℕ × ℕ
  uapi_getresugid pid s = getresugid_of (get_process pid s)

  -- uapi_prlimit() of the caller: the result, the old limit where it is written, and the state.
  -- `resource` is a 32-bit word whose highest bit asks for the old limit alone.
  unfoldable pub prlimit_of :
      (resource rlim_cur rlim_max : ℕ) → Option ℕ × Root T → ℤ × Option (ℕ × ℕ) × Root T
  prlimit_of resource rlim_cur rlim_max (none, s) = (esrch, none, s)
  prlimit_of resource rlim_cur rlim_max (some pid, s) =
      let write = not (has_bit resource 31) in
      let index = bit_and resource (compl 32 (2 ^ 31)) in
      let p = s.procs pid in
      let old = get_or p.limits index (0, 0) in
      if leb (length p.limits) index
      then (einval, none, s)
      else if write && ltb rlim_max rlim_cur
      then (einval, some old, s)
      else if write
      then (
        pos 0,
        some old,
        set_process pid (record p { limits = set p.limits index (rlim_cur, rlim_max) }) s,
      )
      else (pos 0, some old, s)

  unfoldable pub uapi_prlimit :
      (caller pid resource rlim_cur rlim_max : ℕ) → Root T → ℤ × Option (ℕ × ℕ) × Root T
  uapi_prlimit caller pid resource rlim_cur rlim_max s =
      if pid == 0
      then prlimit_of resource rlim_cur rlim_max (get_process caller s)
      else (eperm, none, s)

  -- One of the three user IDs of the process.
  abbrev pub OwnUid : ℕ → Process T → Type 0
  OwnUid x p = (x ≡ p.real_uid) ⊎ ((x ≡ p.eff_uid) ⊎ (x ≡ p.saved_uid))

  unfoldable pub NoNewUid : (mode r_uid s_uid : ℕ) → Process T → Ends (ℤ × Process T) → Type 0
  NoNewUid mode r_uid s_uid p abort =
      (mode ≡ 1) × (s_uid ≢ unset) × ((r_uid ≡ p.eff_uid) ⊎ (r_uid ≡ p.saved_uid))
  NoNewUid mode r_uid s_uid p (returns (n, q)) =
      OwnUid q.real_uid p × OwnUid q.eff_uid p × OwnUid q.saved_uid p

  assign_own :
      (c d : ℕ) (p : Process T)
      → is_own_uid c p ≡ true
      → OwnUid d p
      → OwnUid (if c == unset then d else c) p
  unfolding is_own_uid
  assign_own c d p h own = ground arith

  kept : (p : Process T) → OwnUid p.real_uid p × OwnUid p.eff_uid p × OwnUid p.saved_uid p
  kept p = (inl refl, inr (inl refl), inr (inr refl))

  mode_one :
      (mode r_uid s_uid : ℕ) (p : Process T)
      → p.eff_uid ≢ 0
      → mode ≡ 1
      → NoNewUid mode r_uid s_uid p (
          if r_uid == p.eff_uid || (r_uid == p.saved_uid)
          then (if s_uid == unset then returns (pos 0, assign_uids unset r_uid s_uid p) else abort)
          else returns (eperm, p))
  unfolding NoNewUid assign_uids
  mode_one mode r_uid s_uid p h one =
      elim (Bool-cases (r_uid == p.eff_uid || (r_uid == p.saved_uid))) [
        | inl own ↦ rw own elim (Bool-cases (s_uid == unset)) [
          | inl e ↦ rw e (inl refl, ground arith, ground arith)
          | inr e ↦ rw e (one, ground arith, ground arith)
        ]
        | inr foreign ↦ rw foreign (kept p)
      ]

  mode_three :
      (mode r_uid e_uid s_uid : ℕ) (p : Process T)
      → NoNewUid mode r_uid s_uid p (
          if true && not (is_own_uid r_uid p && (is_own_uid e_uid p && is_own_uid s_uid p))
          then returns (eperm, p)
          else returns (pos 0, assign_uids r_uid e_uid s_uid p))
  unfolding NoNewUid assign_uids
  mode_three mode r_uid e_uid s_uid p =
      elim (Bool-cases (is_own_uid r_uid p && (is_own_uid e_uid p && is_own_uid s_uid p))) [
        | inl own ↦ rw own (
          assign_own r_uid p.real_uid p (ground arith) (inl refl),
          assign_own e_uid p.eff_uid p (ground arith) (inr (inl refl)),
          assign_own s_uid p.saved_uid p (ground arith) (inr (inr refl)),
        )
        | inr foreign ↦ rw foreign (kept p)
      ]

  -- On every branch of uapi_setresugid(), a process whose effective user ID is not 0 has user IDs
  -- afterwards that are among the three it had; where the assert fails, the mode is 1, the user ID
  -- is one that may be set, and the caller passes a saved user ID.
  pub setresuid-NoNewUid :
      (mode r_uid e_uid s_uid : ℕ) (p : Process T)
      → p.eff_uid ≢ 0
      → NoNewUid mode r_uid s_uid p (setresuid mode r_uid e_uid s_uid p)
  unfolding setresuid NoNewUid
  setresuid-NoNewUid mode r_uid e_uid s_uid p h = elim (Bool-cases (mode == 0 || leb 4 mode)) [
    | inl bad ↦ rw bad (kept p)
    | inr good ↦
        rw (good, ==_ne p.eff_uid 0 h)
          elim (Bool-cases (mode == 1)) [
            | inl one ↦ rw one (mode_one mode r_uid s_uid p h ((==_iff mode 1).0 one))
            | inr more ↦ rw more elim (Bool-cases (mode == 2)) [
              | inl two ↦ rw two (kept p)
              | inr three ↦ rw three (mode_three mode r_uid e_uid s_uid p)
            ]
          ]
  ]
