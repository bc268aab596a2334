-- ===== src/Signal/Sets/Take.antt =====
-- root_uapi_sigset() of root/sig.c on the pending set, and the end of sigsuspend() mode.
use sneks.Base.{
  holds_below, holds_below-at, lt→ltb, le→ltb, ℕ, suc, ◌+◌, ◌^◌, ◌%◌, ◌≤◌, ◌<◌, ◌≡◌, refl, ◌∙◌, ◌≢◌,
  bit_and, bit_or, xor, Bool, true, false, not, ◌&&◌, ◌||◌, arith, ltb, ◌==◌, ==_ne, if◌then◌else◌,
  test_bit, test_bit-and, test_bit-or, test_bit-compl, test_bit-zero, test_bit-remove, compl,
  find_first, find_first_bit, find_first_below, pred_suc,
}
use sneks.Signal.{Process, State, done, abort, Answers, set_process}
use sneks.Signal.Laws.{SameSets}
use sneks.Signal.Sets.{sigset_on, sigset, end_suspend}
use sneks.Signal.Sets.Changes.{IsValid}

-- The signals that a concealing read (set 4) returns: pending and not blocked.
abbrev pub visible : Process → ℕ
visible p = bit_and p.pending_set (compl 64 p.mask_set)

visible_bit :
    (p : Process) (j : ℕ)
    → p.mask_set < 2 ^ 64
    → j < 64
    → test_bit (visible p) j ≡ test_bit p.pending_set j && not (test_bit p.mask_set j)
visible_bit p j mw h = simp (test_bit-and p.pending_set, test_bit-compl 64 p.mask_set j mw h)

kept_bit :
    (p : Process) (and_bits j : ℕ)
    → test_bit (bit_and p.pending_set (bit_or and_bits p.mask_set)) j
      ≡ test_bit p.pending_set j && (test_bit and_bits j || test_bit p.mask_set j)
kept_bit p and_bits j = simp (test_bit-and p.pending_set, test_bit-or)

-- Outside sigsuspend() mode, and unless the helper thread ends by it, a concealing read returns the
-- pending signals that are not blocked, and takes from the pending set those of them that are not in
-- `and_bits`; blocked signals stay pending.
pub sigset_take :
    (env : Answers) (s : State) (sender or_bits and_bits : ℕ)
    → IsValid s.process
    → s.process.saved_mask ≡ false
    → bit_or s.process.pending_set and_bits ≢ 0
    → (t : State) × (sigset env s sender 4 or_bits and_bits ≡ done (visible s.process, t))
      × SameSets s.process t.process
      × ((j : ℕ)
          → j < 64
          → (test_bit (visible s.process) j
              ≡ test_bit s.process.pending_set j && not (test_bit s.process.mask_set j))
            × (test_bit t.process.pending_set j
                ≡ test_bit s.process.pending_set j
                  && (test_bit and_bits j || test_bit s.process.mask_set j)))
unfolding sigset sigset_on
sigset_take env s sender or_bits and_bits v off ne = (
  set_process s (record s.process {
    pending_set = bit_and s.process.pending_set (bit_or and_bits s.process.mask_set);
  }),
  ground (arith, ==_ne (bit_or s.process.pending_set and_bits) 0 ne),
  (refl, refl, refl, refl, refl),
  λ j h. (visible_bit s.process j v.mask_word h, kept_bit s.process and_bits j),
)

-- Which single bits the assert on `ffsl` lets through.
abbrev ffsl_check : ℕ → Bool
ffsl_check k = not (xor (find_first 32 (2 ^ k % 2 ^ 32) == k + 1) (ltb k 32))

ffsl_table : holds_below ffsl_check 64 ≡ true
unfolding holds_below find_first
ffsl_table = refl

ffsl_passes : (k : ℕ) → k < 64 → (find_first 32 (2 ^ k % 2 ^ 32) == k + 1) ≡ ltb k 32
ffsl_passes k h = ground (arith, holds_below-at ffsl_check 64 k ffsl_table h)

module _ (env : Answers) (s : State) (sender or_bits and_bits k : ℕ) (v : IsValid s.process)
    (on : s.process.saved_mask ≡ true) (first : find_first 64 (visible s.process) ≡ suc k) where
  low_bit : (test_bit (visible s.process) k ≡ true) × (k < 64)
  low_bit = find_first_bit 64 (visible s.process) k first

  visible-ne : visible s.process ≢ 0
  visible-ne e = ground (arith, low_bit, test_bit-zero k)

  pending-ne : bit_or s.process.pending_set and_bits ≢ 0
  pending-ne e = ground (
    arith,
    low_bit,
    visible_bit s.process k v.mask_word,
    test_bit-or s.process.pending_set and_bits k,
    test_bit-zero k,
  )

  -- What the concealing read leaves when it ends sigsuspend() mode.
  resumed : Process
  resumed = record s.process {
    pending_set =
        bit_or (bit_and s.process.pending_set (bit_or and_bits s.process.mask_set))
          (bit_and (visible s.process) (compl 64 (2 ^ k)));
    saved_mask = false;
    mask_set = s.process.saved_mask_set;
  }

  resumed_bit :
      (j : ℕ)
      → j < 64
      → test_bit resumed.pending_set j
        ≡ (test_bit s.process.pending_set j
            && (test_bit and_bits j || test_bit s.process.mask_set j))
          || ((test_bit s.process.pending_set j && not (test_bit s.process.mask_set j))
              && not (k == j))
  unfolding resumed
  resumed_bit j h = ground (
    arith,
    test_bit-or (bit_and s.process.pending_set (bit_or and_bits s.process.mask_set))
        (bit_and (visible s.process) (compl 64 (2 ^ k))) j,
    kept_bit s.process and_bits j,
    visible_bit s.process j v.mask_word h,
    test_bit-remove 64 (visible s.process) k j low_bit.1 h,
  )

  sigset_take-eq :
      sigset env s sender 4 or_bits and_bits
      ≡ (if ltb k 32 then done (2 ^ k, set_process s resumed) else abort)
  unfolding sigset sigset_on end_suspend resumed
  sigset_take-eq = ground (
    arith,
    ==_ne (bit_or s.process.pending_set and_bits) 0 pending-ne,
    ==_ne (visible s.process) 0 visible-ne,
    pred_suc k,
    ffsl_passes k low_bit.1,
  )

  -- In sigsuspend() mode a concealing read whose lowest visible signal is at most 32 returns that
  -- signal alone, puts all other visible signals back, ends the mode and restores the saved mask.
  pub sigset_take_resumes :
      k < 32
      → (t : State) × (sigset env s sender 4 or_bits and_bits ≡ done (2 ^ k, t))
        × (t.process.saved_mask ≡ false)
        × (t.process.mask_set ≡ s.process.saved_mask_set)
        × ((j : ℕ)
            → j < 64
            → (j < k → test_bit (visible s.process) j ≡ false)
              × (test_bit t.process.pending_set j
                  ≡ test_bit s.process.pending_set j
                    && ((test_bit and_bits j || test_bit s.process.mask_set j) || not (k == j))))
  unfolding resumed
  sigset_take_resumes h = (
    set_process s resumed,
    sigset_take-eq ∙ ground (arith, lt→ltb k 32 h),
    refl,
    refl,
    λ j hj. (
      find_first_below 64 (visible s.process) k first j,
      ground (arith, resumed_bit j hj, visible_bit s.process j v.mask_word hj),
    ),
  )

  -- In sigsuspend() mode a concealing read whose lowest visible signal is 33 or more fails an assert.
  pub sigset_take_aborts : 32 ≤ k → sigset env s sender 4 or_bits and_bits ≡ abort
  sigset_take_aborts h = sigset_take-eq ∙ ground (arith, le→ltb k 32 h)
