-- ===== src/Threads/Alloc.antt =====
-- root/uapi.c: the allocator of thread numbers, with one bitmap and one count for each value of the
-- two highest bits of a thread number, and the threads of a task.
use sneks.Base.{
  Ends, abort, returns, ℕ, zero, suc, ◌+◌, ◌-◌, ◌*◌, ◌/◌, ◌^◌, Bool, true, false, not, ◌&&◌, ◌||◌,
  Option, none, some, List, [], ◌∷◌, ◌++◌, ◌==◌, ltb, leb, if◌then◌else◌, update, bit_and, bit_or,
  length, take, set, get_or,
}
use sneks.Threads.{ThreadIds, Bitmap, pidof_np, is_systask, sneks_min_sysid}

abbrev pub tnos_per_bitmap : ℕ
tnos_per_bitmap = 2 ^ 16

-- `tno_free_maps` and `tno_free_counts`.
pub record Numbers (M : Type 0) : Type 0 where
  pub maps : ℕ → M
  pub counts : ℕ → ℕ

-- `struct task_common`: where its UTCBs are, which of them are free, and its threads.
pub record Task (T M : Type 0) : Type 0 where
  pub utcb_address : ℕ
  pub utcb_size_log2 : ℕ
  pub utcb_free : M
  pub threads : List T

-- tid_remove_fast().
unfoldable pub tid_remove_fast : {T : Type 0} → (nil : T) → List T → ℕ → List T
tid_remove_fast nil tids ix =
    let last = length tids - 1 in
    take last (if ltb ix last then set tids ix (get_or tids last nil) else tids)

-- The loop of tidlist_remove_from(): the index of the thread, counted from `i`.
unfoldable pub find_tid : {T : Type 0} → (T → T → Bool) → T → List T → ℕ → Option ℕ
find_tid same tid [] i = none
find_tid same tid (t ∷ tids) i = if same t tid then some i else find_tid same tid tids (suc i)

unfoldable pub remove_at : {T : Type 0} → T → List T → Option ℕ → List T × Bool
remove_at nil tids none = (tids, false)
remove_at nil tids (some found) = (tid_remove_fast nil tids found, true)

-- tidlist_remove_from() of a global thread ID.
unfoldable pub tidlist_remove_from :
    {T : Type 0} → (T → T → Bool) → (nil tid : T) → List T → List T × Bool
tidlist_remove_from same nil tid tids = remove_at nil tids (find_tid same tid tids 0)

-- `(pid & 0x6000) >> 13`.
unfoldable pub map_of_pid : ℕ → ℕ
map_of_pid pid = bit_and pid 0x6000 / 2 ^ 13

-- The loop that looks for a map with free numbers for a system task, in `n` rounds at most.
unfoldable pub skip_empty : (ℕ → ℕ) → (n map : ℕ) → ℕ
skip_empty counts zero map = map
skip_empty counts (suc n) map =
    let rest = skip_empty counts n (map + 1) in if counts map == 0 && ltb map 4 then rest else map

unfoldable pub choose_map : (ℕ → ℕ) → ℕ → ℕ
choose_map counts pid = if is_systask pid then skip_empty counts 4 0 else map_of_pid pid

-- The version of a thread ID, which holds what of the process ID is not in the thread number.
unfoldable pub version_of : ℕ → ℕ
version_of pid =
    if is_systask pid
    then bit_or ((pid - sneks_min_sysid) * 2 ^ 2) 2
    else bit_or (bit_and pid 0x1fff * 2) 1

module _ {T M : Type 0} (ids : ThreadIds T) (bm : Bitmap M) where
  -- free_threadno().
  unfoldable pub free_threadno : T → Numbers M → Ends (Numbers M)
  free_threadno tid s =
      let map = ids.thread_no tid / 2 ^ 16 in
      let bit = bit_and (ids.thread_no tid) 0xffff in
      if bm.bit (s.maps map) bit || leb (suc tnos_per_bitmap) (s.counts map + 1)
      then abort
      else (returns (record {
        maps = update s.maps map (bm.set_bit (s.maps map) bit);
        counts = update s.counts map (s.counts map + 1);
      }))

  -- What allocate_thread() does to the maps and counts for one number.
  unfoldable pub take_number : (map bit : ℕ) → Numbers M → Numbers M
  take_number map bit s = record {
    maps = update s.maps map (bm.clear_bit (s.maps map) bit);
    counts = update s.counts map (s.counts map - 1);
  }

  unfoldable pub put_number : (map bit : ℕ) → Numbers M → Numbers M
  put_number map bit s = record {
    maps = update s.maps map (bm.set_bit (s.maps map) bit);
    counts = update s.counts map (s.counts map + 1);
  }

  -- The end of allocate_thread(), from the search for a UTCB on.
  unfoldable pub allocate_utcb :
      (utcb_size_log2 : ℕ) (tid : T) (map bit : ℕ)
      → Numbers M
      → Task T M
      → Ends (Option (T × ℕ) × Numbers M × Task T M)
  allocate_utcb utcb_size_log2 tid map bit s task =
      let n_slots = 2 ^ (task.utcb_size_log2 - utcb_size_log2) in
      let utcb_slot = bm.ffs task.utcb_free n_slots in
      let put = put_number map bit s in
      if utcb_slot == n_slots
      then (if bm.bit (s.maps map) bit || leb (suc tnos_per_bitmap) (put.counts map)
          then abort
          else returns (none, put, task))
      else (returns (
        some (tid, task.utcb_address + utcb_slot * 2 ^ utcb_size_log2),
        s,
        record task {
          utcb_free = bm.clear_bit task.utcb_free utcb_slot;
          threads = task.threads ++ (tid ∷ []);
        },
      ))

  -- allocate_thread() for a task that get_task() found: the thread with the address of its UTCB,
  -- or no thread. `self` is the calling thread.
  unfoldable pub allocate_thread :
      (utcb_size_log2 : ℕ) (self : T) (pid : ℕ)
      → Numbers M
      → Task T M
      → Ends (Option (T × ℕ) × Numbers M × Task T M)
  allocate_thread utcb_size_log2 self pid s task =
      let map = choose_map s.counts pid in
      let bit = bm.ffs (s.maps map) tnos_per_bitmap in
      let tid = ids.global_id (bit_or (map * 2 ^ 16) bit) (version_of pid) in
      if leb 4 map || s.counts map == 0
      then returns (none, s, task)
      else if leb tnos_per_bitmap bit || not (bm.bit (s.maps map) bit)
      then abort
      else if not (pidof_np ids self tid == pid)
      then abort
      else allocate_utcb utcb_size_log2 tid map bit (take_number map bit s) task

  -- free_thread(), where `loc` is the address of the UTCB.
  unfoldable pub free_thread :
      (same : T → T → Bool) (nil : T) (utcb_size_log2 : ℕ) (tid : T) (loc : ℕ)
      → Task T M
      → Ends (Task T M)
  free_thread same nil utcb_size_log2 tid loc task =
      let at = loc - task.utcb_address in
      let slot = at / 2 ^ utcb_size_log2 in
      if ltb loc task.utcb_address || leb (2 ^ task.utcb_size_log2) at || bm.bit task.utcb_free slot
      then abort
      else (returns (record task {
        utcb_free = bm.set_bit task.utcb_free slot;
        threads = (tidlist_remove_from same nil tid task.threads).0;
      }))

  -- The loop of task_common_dtor() over the threads, after ThreadControl has deleted them.
  unfoldable pub free_all : List T → Ends (Numbers M) → Ends (Numbers M)
  free_all [] result = result
  free_all (tid ∷ tids) abort = abort
  free_all (tid ∷ tids) (returns s) = free_all tids (free_threadno tid s)

  -- What uapi_init() does to the maps and counts: `full` is what bitmap_alloc1() returns, and the
  -- first 512 numbers are burned.
  unfoldable pub burn : ℕ → M → M
  burn zero m = m
  burn (suc i) m = bm.clear_bit (burn i m) i

  unfoldable pub uapi_init : M → Numbers M
  uapi_init full = record {
    maps = update (λ m. full) 0 (burn 512 full);
    counts = update (λ m. tnos_per_bitmap) 0 (tnos_per_bitmap - 512);
  }
