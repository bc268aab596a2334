-- ===== src/Threads.antt =====
-- Thread numbers: lib/pidof.c and the thread number allocator of root/uapi.c. Thread IDs are the
-- kernel's and bitmaps come from elsewhere (ccan/bitmap); both are parameters here.
pub mod Alloc
pub mod Identity
pub mod Counted
pub mod Outcome
pub mod Returned
mod Tests
use sneks.Base.{
  ℕ, suc, ◌+◌, ◌-◌, ◌*◌, ◌/◌, ◌^◌, ◌≤◌, ◌<◌, ◌≡◌, ◌≢◌, ◌%◌, Bool, true, false, leb, ◌==◌,
  if◌then◌else◌, bit_and, bit_or, compl, find_first, update,
}

-- What L4.X2 says of global thread IDs on a 32-bit target: 18 bits of thread number, 14 bits of
-- version, and a version whose low six bits are zero is that of a local ID.
pub record ThreadIds (T : Type 0) : Type 0 where
  pub global_id : (thread_no version : ℕ) → T
  pub thread_no : T → ℕ
  pub version : T → ℕ
  pub is_local : T → Bool
  pub thread_no-global_id : (n v : ℕ) → n < 2 ^ 18 → v < 2 ^ 14 → thread_no (global_id n v) ≡ n
  pub version-global_id : (n v : ℕ) → n < 2 ^ 18 → v < 2 ^ 14 → version (global_id n v) ≡ v
  pub is_local-global_id :
      (n v : ℕ) → n < 2 ^ 18 → v < 2 ^ 14 → v % 64 ≢ 0 → is_local (global_id n v) ≡ false

-- What ccan/bitmap promises: bits can be set and cleared one at a time, and `bitmap_ffs` over the
-- first `n` bits is the lowest one that is set, or `n`.
pub record Bitmap (M : Type 0) : Type 0 where
  pub bit : M → ℕ → Bool
  pub set_bit : M → ℕ → M
  pub clear_bit : M → ℕ → M
  pub ffs : M → ℕ → ℕ
  pub bit-set_bit : (m : M) (k j : ℕ) → bit (set_bit m k) j ≡ (if k == j then true else bit m j)
  pub bit-clear_bit :
      (m : M) (k j : ℕ) → bit (clear_bit m k) j ≡ (if k == j then false else bit m j)
  pub ffs_le : (m : M) (n : ℕ) → ffs m n ≤ n
  pub bit-ffs : (m : M) (n : ℕ) → ffs m n < n → bit m (ffs m n) ≡ true
  pub bit_below_ffs : (m : M) (n j : ℕ) → j < ffs m n → bit m j ≡ false

abbrev pub sneks_min_sysid : ℕ
sneks_min_sysid = 50000

abbrev pub sneks_max_pid : ℕ
sneks_max_pid = 32767

abbrev pub is_systask : ℕ → Bool
is_systask pid = leb sneks_min_sysid pid

-- `x >> (ffsl(~mask) - 1)`.
unfoldable pub above_mask : (mask x : ℕ) → ℕ
above_mask mask x = x / 2 ^ (find_first 32 (compl 32 mask) - 1)

-- pidof_NP(), where `self` is what L4_MyGlobalId() returns.
unfoldable pub pidof_np : {T : Type 0} → ThreadIds T → (self tid : T) → ℕ
pidof_np ids self tid =
    let t = if ids.is_local tid then self else tid in
    let v = ids.version t in
    let n = ids.thread_no t in
    if bit_and v 1 == 1
    then bit_or (above_mask 1 v) (bit_and n 0x30000 / 2 ^ 3)
    else if bit_and v 3 == 2
    then sneks_min_sysid + above_mask 3 v
    else 0
