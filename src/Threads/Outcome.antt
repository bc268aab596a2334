-- ===== src/Threads/Outcome.antt =====
-- root/uapi.c: allocate_thread() on every branch.
use sneks.Base.{
  Ends, abort, returns, ℕ, zero, suc, ◌+◌, ◌-◌, ◌*◌, ◌^◌, ◌≤◌, ◌<◌, ◌≡◌, ◌≢◌, ◌⊎◌, inl, inr, refl,
  true, false, not, ◌||◌, Option, none, some, [], ◌∷◌, ◌++◌, leb, ◌==◌, arith, bit_or, Bool-cases,
  ==_iff,
}
use sneks.Threads.{ThreadIds, Bitmap, pidof_np, sneks_min_sysid, sneks_max_pid}
use sneks.Threads.Alloc.{
  Numbers, Task, tnos_per_bitmap, skip_empty, choose_map, map_of_pid, version_of, take_number,
  put_number, allocate_utcb, allocate_thread,
}
use sneks.Threads.Identity.{IsPid, map_of_pid-eq, pidof_np-allocated}
use sneks.Threads.Counted.{
  count_cleared, restored, count_ext, Counted, SameNumbers, Without, take_number-Without,
  take_number-Counted, count_le, count_zero,
}

choose_map-user :
    (counts : ℕ → ℕ) (pid : ℕ) → pid ≤ sneks_max_pid → choose_map counts pid ≡ map_of_pid pid
unfolding choose_map
choose_map-user counts pid h = ground arith

choose_map_of :
    (counts : ℕ → ℕ) (pid : ℕ)
    → IsPid pid
    → (choose_map counts pid ≡ map_of_pid pid) ⊎ (sneks_min_sysid ≤ pid)
choose_map_of counts pid (inl user) = inl (choose_map-user counts pid user)
choose_map_of counts pid (inr (low, high)) = inr low

-- The search of a system task's map ends with all of the maps that are left or at one with numbers.
skip_empty-all :
    (counts : ℕ → ℕ) (n map m : ℕ)
    → 4 ≤ n + map
    → 4 ≤ skip_empty counts n map
    → map ≤ m
    → m < 4
    → counts m ≡ 0
unfolding skip_empty
skip_empty-all counts zero map m fuel past from below = absurd (omega arith)
skip_empty-all counts (suc n) map m fuel past from below =
    ground (arith, skip_empty-all counts n (map + 1) m)

skip_empty_some :
    (counts : ℕ → ℕ) (n map : ℕ)
    → 4 ≤ n + map
    → skip_empty counts n map < 4
    → counts (skip_empty counts n map) ≢ 0
unfolding skip_empty
skip_empty_some counts zero map fuel stopped = absurd (omega arith)
skip_empty_some counts (suc n) map fuel stopped = ground (arith, skip_empty_some counts n (map + 1))

-- No free number is left for the process: in the map of a user's, or in any for a system task.
abbrev pub Exhausted : (ℕ → ℕ) → ℕ → Type 0
Exhausted counts pid =
    (m : ℕ) → m < 4 → (sneks_min_sysid ≤ pid) ⊎ (m ≡ map_of_pid pid) → counts m ≡ 0

exhausted :
    (counts : ℕ → ℕ) (pid : ℕ)
    → IsPid pid
    → (leb 4 (choose_map counts pid) || (counts (choose_map counts pid) == 0)) ≡ true
    → Exhausted counts pid
unfolding choose_map
exhausted counts pid (inl user) e m small which = ground (arith, map_of_pid-eq pid user)
exhausted counts pid (inr (low, high)) e m small which =
    ground (arith, skip_empty-all counts 4 0 m, skip_empty_some counts 4 0)

module _ {T M : Type 0} (ids : ThreadIds T) (bm : Bitmap M) where
  -- A thread ID of the process from a number that was free, and the address of a UTCB that was.
  abbrev pub Taken :
      (self : T) (utcb_size_log2 pid : ℕ)
      → Numbers M
      → Task T M
      → (T × ℕ)
      → Numbers M
      → Task T M
      → Type 0
  Taken self utcb_size_log2 pid s task (tid, loc) t task1 =
      (map : ℕ) × (bit : ℕ) × (slot : ℕ) × (map < 4)
      × (bit < tnos_per_bitmap)
      × (tid ≡ ids.global_id (bit_or (map * 2 ^ 16) bit) (version_of pid))
      × (pidof_np ids self tid ≡ pid)
      × (bm.bit (s.maps map) bit ≡ true)
      × Without ids bm s map bit t
      × (t.counts map + 1 ≡ s.counts map)
      × (slot < 2 ^ (task.utcb_size_log2 - utcb_size_log2))
      × (bm.bit task.utcb_free slot ≡ true)
      × (loc ≡ task.utcb_address + slot * 2 ^ utcb_size_log2)
      × (task1 ≡ (record task {
        utcb_free = bm.clear_bit task.utcb_free slot;
        threads = task.threads ++ (tid ∷ []);
      }))

  unfoldable pub Allocates :
      (self : T) (utcb_size_log2 pid : ℕ)
      → Numbers M
      → Task T M
      → Ends (Option (T × ℕ) × Numbers M × Task T M)
      → Type 0
  Allocates self utcb_size_log2 pid s task abort = ⊥
  Allocates self utcb_size_log2 pid s task (returns (none, t, task1)) =
      Counted ids bm t
      × SameNumbers ids bm s t
      × (task1 ≡ task)
      × (Exhausted s.counts pid
          ⊎ ((j : ℕ)
              → j < 2 ^ (task.utcb_size_log2 - utcb_size_log2)
              → bm.bit task.utcb_free j ≡ false))
  Allocates self utcb_size_log2 pid s task (returns (some got, t, task1)) =
      Counted ids bm t × Taken self utcb_size_log2 pid s task got t task1

  module _ (self : T) (utcb_size_log2 pid : ℕ) (s : Numbers M) (task : Task T M) where
    abbrev n_slots : ℕ
    n_slots = 2 ^ (task.utcb_size_log2 - utcb_size_log2)

    abbrev free_slot : ℕ
    free_slot = bm.ffs task.utcb_free n_slots

    module _ (map bit : ℕ) (small : map < 4) (h : bit < tnos_per_bitmap)
        (free : bm.bit (s.maps map) bit ≡ true) (counted : Counted ids bm s) where
      abbrev after_taking : Numbers M
      after_taking = take_number ids bm map bit s

      positive : suc (s.counts map - 1) ≡ s.counts map
      positive = ground (arith, counted map small, count_cleared ids bm (s.maps map) bit h free)

      put_bit :
          (j : ℕ)
          → bm.bit (bm.set_bit (bm.clear_bit (s.maps map) bit) bit) j ≡ bm.bit (s.maps map) j
      put_bit j = ground (
        arith,
        bm.bit-set_bit (bm.clear_bit (s.maps map) bit) bit j,
        restored ids bm (s.maps map) bit j free,
      )

      put_back : SameNumbers ids bm s (put_number ids bm map bit after_taking)
      unfolding put_number take_number
      put_back m hm = elim (Bool-cases (map == m)) [
        | inl at ↦ (
          ground (arith, (==_iff map m).0 at, positive),
          λ j. ground (arith, (==_iff map m).0 at, put_bit j),
        )
        | inr off ↦ (ground arith, λ j. ground arith)
      ]

      put_back-Counted : Counted ids bm (put_number ids bm map bit after_taking)
      put_back-Counted m hm = ground (
        arith,
        put_back m hm,
        counted m hm,
        count_ext (bm.bit ((put_number ids bm map bit after_taking).maps m)) (bm.bit (s.maps m))
            tnos_per_bitmap (λ j below. (put_back m hm).1 j),
      )

      assert_holds :
          (bm.bit (after_taking.maps map) bit
            || leb (suc tnos_per_bitmap) ((put_number ids bm map bit after_taking).counts map))
          ≡ false
      unfolding put_number take_number
      assert_holds = ground (
        arith,
        bm.bit-clear_bit (s.maps map) bit bit,
        positive,
        counted map small,
        count_le (bm.bit (s.maps map)) tnos_per_bitmap,
      )

      takes :
          (tid : T)
          → (tid ≡ ids.global_id (bit_or (map * 2 ^ 16) bit) (version_of pid))
          → (pidof_np ids self tid ≡ pid)
          → ((free_slot == n_slots) ≡ false)
          → Taken self utcb_size_log2 pid s task
              (tid, task.utcb_address + free_slot * 2 ^ utcb_size_log2)
              after_taking
              (record task {
                utcb_free = bm.clear_bit task.utcb_free free_slot;
                threads = task.threads ++ (tid ∷ []);
              })
      unfolding take_number
      takes tid made belongs e = (
        map,
        bit,
        free_slot,
        small,
        h,
        made,
        belongs,
        free,
        take_number-Without ids bm s map bit,
        ground (arith, positive),
        ground (arith, bm.ffs_le task.utcb_free n_slots),
        bm.bit-ffs task.utcb_free n_slots (ground (arith, bm.ffs_le task.utcb_free n_slots)),
        refl,
        refl,
      )

      allocate_utcb-Allocates :
          (tid : T)
          → (tid ≡ ids.global_id (bit_or (map * 2 ^ 16) bit) (version_of pid))
          → (pidof_np ids self tid ≡ pid)
          → Allocates self utcb_size_log2 pid s task
              (allocate_utcb ids bm utcb_size_log2 tid map bit after_taking task)
      unfolding Allocates allocate_utcb
      allocate_utcb-Allocates tid made belongs = elim (Bool-cases (free_slot == n_slots)) [
        | inl e ↦
            rw (e, assert_holds)
              (
                put_back-Counted,
                put_back,
                refl,
                inr (λ j below. bm.bit_below_ffs task.utcb_free n_slots j (ground arith)),
              )
        | inr e ↦
            rw e (take_number-Counted ids bm s map bit h free counted, takes tid made belongs e)
      ]

    same : SameNumbers ids bm s s
    same m h = (refl, λ j. refl)

    abbrev map : ℕ
    map = choose_map s.counts pid

    abbrev bit : ℕ
    bit = bm.ffs (s.maps map) tnos_per_bitmap

    abbrev tid : T
    tid = ids.global_id (bit_or (map * 2 ^ 16) bit) (version_of pid)

    module _ (valid : IsPid pid) (counted : Counted ids bm s)
        (e : (leb 4 map || (s.counts map == 0)) ≡ false) where
      in_map : bit < tnos_per_bitmap
      in_map = elim (Bool-cases (bit == tnos_per_bitmap)) [
        | inl full ↦ absurd (
            ground (
              arith,
              counted map (ground arith),
              count_zero (bm.bit (s.maps map)) tnos_per_bitmap
                  (λ j below. bm.bit_below_ffs (s.maps map) tnos_per_bitmap j (ground arith)),
            ))
        | inr part ↦ ground (arith, bm.ffs_le (s.maps map) tnos_per_bitmap)
      ]

      free : bm.bit (s.maps map) bit ≡ true
      free = bm.bit-ffs (s.maps map) tnos_per_bitmap in_map

      belongs : pidof_np ids self tid ≡ pid
      belongs =
          pidof_np-allocated ids self pid map bit valid (ground arith)
            (choose_map_of s.counts pid valid) in_map

      found : (leb tnos_per_bitmap bit || not (bm.bit (s.maps map) bit)) ≡ false
      found = ground (arith, in_map, free)

      owned : not (pidof_np ids self tid == pid) ≡ false
      owned = ground (arith, belongs)

    -- On every branch of allocate_thread(), with counts that are right, none of its asserts fails
    -- and the counts stay right. It returns no thread and leaves the numbers and the task as they
    -- were, or a thread ID of the process whose number was free and no longer is, with the address
    -- of a UTCB slot of the task that was free and no longer is, and the thread is the last of the
    -- task.
    pub allocate_thread-Allocates :
        IsPid pid
        → Counted ids bm s
        → Allocates self utcb_size_log2 pid s task
            (allocate_thread ids bm utcb_size_log2 self pid s task)
    unfolding allocate_thread Allocates
    allocate_thread-Allocates valid counted = elim (Bool-cases (leb 4 map || (s.counts map == 0))) [
      | inl e ↦ rw e (counted, same, refl, inl (exhausted s.counts pid valid e))
      | inr e ↦
          rw (e, found valid counted e, owned valid counted e)
            (allocate_utcb-Allocates map bit (ground arith) (in_map valid counted e)
              (free valid counted e) counted tid refl (belongs valid counted e))
    ]
