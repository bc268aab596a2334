-- ===== src/Signal/Suspend/Outcome.antt =====
-- The outcomes of root_uapi_sigsuspend() of root/sig.c.
use sneks.Base.{
  ℕ, suc, ◌-◌, ◌^◌, ◌<◌, ◌≡◌, refl, sym, ◌∙◌, bit_and, xor, Bool, true, false, not, ◌&&◌, ◌∷◌,
  arith, ltb, ◌==◌, test_bit, test_bit-and, test_bit-zero, test_bit-remove, eq_of_bits, bit_and-lt,
  compl, find_first, find_first-zero, pred_suc,
}
use sneks.Signal.{raise_no_reply, Process, State, done, ◌>>=◌, set_process}
use sneks.Base.{holds_below, holds_below-at, lt→ltb}
use sneks.Signal.Suspend.{asleep, taken, int_mask, sigsuspend}

abbrev pub deliverable : Process → ℕ → ℕ
deliverable p mask = bit_and p.pending_set (compl 64 mask)

-- The pending set of a taken signal `k + 1` keeps the bits of `int_mask`.
sigsuspend_taken-eq :
    (s : State) (mask k : ℕ)
    → s.process.saved_mask ≡ false
    → find_first 64 (deliverable s.process mask) ≡ suc k
    → sigsuspend s mask ≡ (
        int_mask k >>= λ m. done (
          taken (suc k),
          set_process s (record s.process { pending_set = bit_and s.process.pending_set m }),
        ))
unfolding sigsuspend
sigsuspend_taken-eq s mask k off first = rw (off, first, pred_suc k, lt→ltb 0 (suc k) (omega arith))

-- When the lowest pending signal outside `mask` is at most 31, sigsuspend() returns it at once, takes
-- it and nothing else out of the pending set, and leaves the mask and the mode alone.
pub sigsuspend_takes :
    (s : State) (mask k : ℕ)
    → s.process.saved_mask ≡ false
    → find_first 64 (deliverable s.process mask) ≡ suc k
    → k < 31
    → (t : State) × (sigsuspend s mask ≡ done (taken (suc k), t))
      × (t.process.mask_set ≡ s.process.mask_set)
      × (t.process.saved_mask ≡ false)
      × ((j : ℕ)
          → j < 64
          → test_bit t.process.pending_set j ≡ test_bit s.process.pending_set j && not (k == j))
unfolding int_mask
sigsuspend_takes s mask k off first h = (
  set_process s
      (record s.process { pending_set = bit_and s.process.pending_set (compl 64 (2 ^ k)) }),
  sigsuspend_taken-eq s mask k off first ∙ ground (arith, lt→ltb k 31 h),
  refl,
  off,
  λ j hj. test_bit-remove 64 s.process.pending_set k j (omega arith) hj,
)

-- With nothing deliverable the caller sleeps without a reply: `mask` is on, the old mask is saved,
-- and no signal is lost.
pub sigsuspend_sleeps :
    (s : State) (mask : ℕ)
    → s.process.pending_set < 2 ^ 64
    → s.process.saved_mask ≡ false
    → find_first 64 (deliverable s.process mask) ≡ 0
    → sigsuspend s mask
      ≡ done (
        asleep,
        record {
          process = record s.process {
            saved_mask_set = s.process.mask_set;
            mask_set = mask;
            saved_mask = true;
          };
          calls = raise_no_reply ∷ s.calls;
        },
      )
unfolding sigsuspend
sigsuspend_sleeps s mask pw off none_found = ground (arith, empty)
  where
    empty : deliverable s.process mask ≡ 0
    empty =
        eq_of_bits 64 _ 0 (bit_and-lt 64 s.process.pending_set _ pw) (omega arith)
          (λ j h. find_first-zero 64 _ none_found j h ∙ sym (test_bit-zero j))

abbrev int_check : ℕ → Bool
int_check j = not (xor (test_bit (2 ^ 31 - 1) j) (ltb j 31))

int_table : holds_below int_check 64 ≡ true
unfolding holds_below test_bit
int_table = refl

-- When that signal is 32, every pending signal above 31 is lost with it.
pub sigsuspend_loses :
    (s : State) (mask : ℕ)
    → s.process.saved_mask ≡ false
    → find_first 64 (deliverable s.process mask) ≡ 32
    → (t : State) × (sigsuspend s mask ≡ done (taken 32, t))
      × ((j : ℕ)
          → j < 64
          → test_bit t.process.pending_set j ≡ test_bit s.process.pending_set j && ltb j 31)
unfolding int_mask
sigsuspend_loses s mask off first = (
  set_process s (record s.process { pending_set = bit_and s.process.pending_set (2 ^ 31 - 1) }),
  sigsuspend_taken-eq s mask 31 off first,
  λ j h. ground (
    arith,
    test_bit-and s.process.pending_set (2 ^ 31 - 1) j,
    holds_below-at int_check 64 j int_table h,
  ),
)
