-- ===== src/Threads/Identity.antt =====
-- root/uapi.c and lib/pidof.c: the thread IDs that allocate_thread() makes belong to the process.
use sneks.Base.{
  ℕ, ◌+◌, ◌-◌, ◌*◌, ◌/◌, ◌%◌, ◌^◌, ◌≤◌, ◌<◌, ◌≡◌, refl, ap, ◌==◌, arith, if◌then◌else◌, bit_and,
  bit_or, bit_or_comm, bit_or-disjoint, bit_and-low, bit_and-high, and_digits, bit_and-zero, ◌≢◌,
  find_first, ◌⊎◌, inl, inr,
}
use native.Mathlib.Nat.{div-add-mod'}
use sneks.Threads.{ThreadIds, pidof_np, above_mask, sneks_min_sysid, sneks_max_pid}
use sneks.Threads.Alloc.{map_of_pid, version_of}

-- A number of a process, or one of a system task that fits the version of a thread ID.
abbrev pub IsPid : ℕ → Type 0
IsPid pid = (pid ≤ sneks_max_pid) ⊎ ((sneks_min_sysid ≤ pid) × (pid < sneks_min_sysid + 2 ^ 12))

above_mask-1 : (x : ℕ) → above_mask 1 x ≡ x / 2
unfolding above_mask find_first
above_mask-1 x = refl

above_mask-3 : (x : ℕ) → above_mask 3 x ≡ x / 4
unfolding above_mask find_first
above_mask-3 x = refl

-- `high << k | low`.
pub bit_or-shifted : (k high low : ℕ) → low < 2 ^ k → bit_or (high * 2 ^ k) low ≡ high * 2 ^ k + low
bit_or-shifted k high low h =
    omega (arith, bit_or_comm (high * 2 ^ k) low, bit_or-disjoint k low high h)

zero_high : (k q : ℕ) → 0 * 2 ^ k + q ≡ q
zero_high k q = omega arith

low_bits : (k q : ℕ) → q < 2 ^ k → bit_and q (2 ^ k - 1) ≡ q
low_bits k q h =
    omega (arith, ap (λ (t : ℕ). bit_and t (2 ^ k - 1)) (zero_high k q), bit_and-low k 0 q h)

-- Bits `k` and `k + 1` of a word, as `(q << k | r) & 3 << k`.
bit_and-two : (k q r : ℕ) → r < 2 ^ k → q < 4 → bit_and (q * 2 ^ k + r) (3 * 2 ^ k) ≡ q * 2 ^ k
bit_and-two k q r h small =
    omega (arith, bit_and-high k q r 3 h, ap (λ (t : ℕ). t * 2 ^ k) (low_bits 2 q small))

split_at : (k x : ℕ) → x / 2 ^ k * 2 ^ k + x % 2 ^ k ≡ x
split_at k x = div-add-mod' x (2 ^ k)

pub map_of_pid-eq : (pid : ℕ) → pid ≤ sneks_max_pid → map_of_pid pid ≡ pid / 2 ^ 13
unfolding map_of_pid
map_of_pid-eq pid h = omega (
  arith,
  ap (λ (t : ℕ). bit_and t 0x6000) (split_at 13 pid),
  bit_and-two 13 (pid / 2 ^ 13) (pid % 2 ^ 13) (omega arith) (omega arith),
)

bit_and-0x1fff : (pid : ℕ) → bit_and pid 0x1fff ≡ pid % 2 ^ 13
bit_and-0x1fff pid = omega (
  arith,
  ap (λ (t : ℕ). bit_and t 0x1fff) (split_at 13 pid),
  bit_and-low 13 (pid / 2 ^ 13) (pid % 2 ^ 13) (omega arith),
)

pub version_of-user : (pid : ℕ) → pid ≤ sneks_max_pid → version_of pid ≡ pid % 2 ^ 13 * 2 + 1
unfolding version_of
version_of-user pid h =
    ground (arith, bit_and-0x1fff pid, bit_or-shifted 1 (pid % 2 ^ 13) 1 (omega arith))

pub version_of-systask :
    (pid : ℕ) → sneks_min_sysid ≤ pid → version_of pid ≡ (pid - sneks_min_sysid) * 4 + 2
unfolding version_of
version_of-systask pid h = ground (arith, bit_or-shifted 2 (pid - sneks_min_sysid) 2 (omega arith))

-- What pidof_NP() computes from the thread number and version of a global ID.
abbrev pid_of : (n v : ℕ) → ℕ
pid_of n v =
    if bit_and v 1 == 1
    then bit_or (above_mask 1 v) (bit_and n 0x30000 / 2 ^ 3)
    else if bit_and v 3 == 2
    then sneks_min_sysid + above_mask 3 v
    else 0

pidof_np-global_id :
    {T : Type 0} (ids : ThreadIds T) (self : T) (n v : ℕ)
    → n < 2 ^ 18
    → v < 2 ^ 14
    → v % 64 ≢ 0
    → pidof_np ids self (ids.global_id n v) ≡ pid_of n v
unfolding pidof_np
pidof_np-global_id ids self n v hn hv global =
    rw
      (
        ids.is_local-global_id n v hn hv global,
        ids.thread_no-global_id n v hn hv,
        ids.version-global_id n v hn hv,
      )
      refl

bit_and-odd : (q : ℕ) → bit_and (q * 2 + 1) 1 ≡ 1
bit_and-odd q = bit_and-low 1 q 1 (omega arith)

bit_and-even : (q : ℕ) → bit_and (q * 4 + 2) 1 ≡ 0
bit_and-even q = omega (arith, and_digits (q * 4 + 2) 1, bit_and-zero ((q * 4 + 2) / 2))

halved : (r : ℕ) → above_mask 1 (r * 2 + 1) ≡ r
halved r = omega (arith, above_mask-1 (r * 2 + 1))

moved : (q bit : ℕ) → q < 4 → bit < 2 ^ 16 → bit_and (q * 2 ^ 16 + bit) 0x30000 / 2 ^ 3 ≡ q * 2 ^ 13
moved q bit hq hb = omega (arith, bit_and-two 16 q bit hb hq)

pid_of-user :
    (q r bit : ℕ)
    → r < 2 ^ 13
    → q < 4
    → bit < 2 ^ 16
    → pid_of (q * 2 ^ 16 + bit) (r * 2 + 1) ≡ q * 2 ^ 13 + r
pid_of-user q r bit hr hq hb = ground (
  arith,
  bit_and-odd r,
  above_mask-1 (r * 2 + 1),
  ap (λ (t : ℕ). bit_or t (bit_and (q * 2 ^ 16 + bit) 0x30000 / 2 ^ 3)) (halved r),
  ap (λ (t : ℕ). bit_or r t) (moved q bit hq hb),
  bit_or-disjoint 13 r q hr,
)

pid_of-systask : (n q : ℕ) → pid_of n (q * 4 + 2) ≡ sneks_min_sysid + q
pid_of-systask n q =
    ground (arith, bit_and-even q, bit_and-low 2 q 2 (omega arith), above_mask-3 (q * 4 + 2))

chosen_map :
    {pid map : ℕ}
    → (map ≡ map_of_pid pid) ⊎ (sneks_min_sysid ≤ pid)
    → pid ≤ sneks_max_pid
    → map ≡ pid / 2 ^ 13
chosen_map {pid = pid} (inl e) user = omega (arith, map_of_pid-eq pid user)
chosen_map (inr low) user = absurd (omega arith)

-- The ID that allocate_thread() makes for a process number, with a thread number from one of the
-- four maps, which for a user process is the map of its number, is one that pidof_NP() decodes to
-- the same process number.
pub pidof_np-allocated :
    {T : Type 0} (ids : ThreadIds T) (self : T) (pid map bit : ℕ)
    → IsPid pid
    → map < 4
    → (map ≡ map_of_pid pid) ⊎ (sneks_min_sysid ≤ pid)
    → bit < 2 ^ 16
    → pidof_np ids self (ids.global_id (bit_or (map * 2 ^ 16) bit) (version_of pid)) ≡ pid
pidof_np-allocated ids self pid map bit (inl user) small chosen hb =
    rw (bit_or-shifted 16 map bit hb, version_of-user pid user) omega
      (
        arith,
        chosen_map chosen user,
        pidof_np-global_id ids self (map * 2 ^ 16 + bit) (pid % 2 ^ 13 * 2 + 1) (omega arith)
            (omega arith) (ground arith),
        pid_of-user map (pid % 2 ^ 13) bit (omega arith) small hb,
        div-add-mod' pid (2 ^ 13),
      )
pidof_np-allocated ids self pid map bit (inr (low, high)) small chosen hb =
    rw (bit_or-shifted 16 map bit hb, version_of-systask pid low) omega
      (
        arith,
        pidof_np-global_id ids self (map * 2 ^ 16 + bit) ((pid - sneks_min_sysid) * 4 + 2)
            (omega arith) (omega arith) (ground arith),
        pid_of-systask (map * 2 ^ 16 + bit) (pid - sneks_min_sysid),
      )

pub version_of-lt : (pid : ℕ) → IsPid pid → version_of pid < 2 ^ 14
version_of-lt pid (inl user) = omega (arith, version_of-user pid user)
version_of-lt pid (inr (low, high)) = omega (arith, version_of-systask pid low)
