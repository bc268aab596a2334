-- ===== src/Signal/Sets/Changes.antt =====
-- root_uapi_sigset() of root/sig.c: the four sets after each of its calls, bit by bit.
use sneks.Base.{
  ℕ, ◌^◌, ◌<◌, ◌≡◌, bit_and, bit_or, Bool, true, false, not, ◌&&◌, ◌||◌, arith, ==_iff, test_bit,
  test_bit-and, test_bit-or, test_bit-compl, test_bit-zero, eq_of_bits, bit_and-lt, compl,
}
use sneks.Signal.{Process, State, done, Answers, set_process}
use sneks.Signal.Sets.{unmask, are_disjoint}
use sneks.Signal.Laws.{SameSets}
use sneks.Signal.Sets.Trigger.{Triggered, trigger-Triggered, requeued}

-- The sets are 64-bit words, and no signal is both ignored and at its default.
pub record IsValid (p : Process) : Type 0 where
  pub ign_word : p.ign_set < 2 ^ 64
  pub dfl_word : p.dfl_set < 2 ^ 64
  pub mask_word : p.mask_set < 2 ^ 64
  pub pending_word : p.pending_set < 2 ^ 64
  pub apart : (j : ℕ) → j < 64 → test_bit p.ign_set j ≡ true → test_bit p.dfl_set j ≡ false

-- A set after `(old & and_bits) | or_bits`, at bit `j`.
abbrev pub changed : ℕ → ℕ → ℕ → ℕ → Bool
changed old or_bits and_bits j = (test_bit old j && test_bit and_bits j) || test_bit or_bits j

pub test_bit-changed :
    (old or_bits and_bits j : ℕ)
    → test_bit (bit_or (bit_and old and_bits) or_bits) j ≡ changed old or_bits and_bits j
test_bit-changed old or_bits and_bits j = simp (test_bit-or, test_bit-and)

-- The disjointness that root_uapi_sigset() asserts.
pub are_disjoint_of_apart : (p : Process) → IsValid p → are_disjoint p ≡ true
are_disjoint_of_apart p v = (==_iff _ 0).1 (
    eq_of_bits 64 _ 0 (bit_and-lt 64 p.ign_set p.dfl_set v.ign_word) (omega arith)
      (λ j h. ground (arith, test_bit-and p.ign_set p.dfl_set j, test_bit-zero j, v.apart j h)))

-- The state in which the loop of `unmask` starts.
pub unmask-Triggered :
    (env : Answers) (s : State) (oldval and_bits : ℕ) (t : State)
    → s.process.pending_set < 2 ^ 64
    → s.process.ign_set < 2 ^ 64
    → and_bits < 2 ^ 64
    → unmask env s oldval and_bits ≡ done t
    → SameSets s.process t.process
      × ((j : ℕ)
          → j < 64
          → let unblocked = test_bit oldval j && not (test_bit and_bits j) in
            test_bit t.process.pending_set j
            ≡ test_bit s.process.pending_set j
              && (not unblocked || (not (test_bit s.process.ign_set j) && requeued s.process j)))
unfolding unmask
unmask-Triggered env s oldval and_bits t pw iw aw e = (
  ground (arith, loop.same),
  λ j h. ground (arith, loop.queue j h, trig_bit j h, kept_bit j h, start_bit j h),
)
  where
    trig : ℕ
    trig = bit_and s.process.pending_set (bit_and oldval (compl 64 and_bits))

    trig-lt : trig < 2 ^ 64
    trig-lt = bit_and-lt 64 s.process.pending_set _ pw

    start : State
    start =
        set_process s
          (record s.process { pending_set = bit_and s.process.pending_set (compl 64 trig) })

    trig_bit :
        (j : ℕ)
        → j < 64
        → test_bit trig j
          ≡ test_bit s.process.pending_set j && (test_bit oldval j && not (test_bit and_bits j))
    trig_bit j h = simp (test_bit-and, test_bit-compl 64 and_bits j aw h)

    kept_bit :
        (j : ℕ)
        → j < 64
        → test_bit (bit_and trig (compl 64 s.process.ign_set)) j
          ≡ test_bit trig j && not (test_bit s.process.ign_set j)
    kept_bit j h = simp (
      test_bit-and (bit_and s.process.pending_set (bit_and oldval (compl 64 and_bits))),
      test_bit-compl 64 s.process.ign_set j iw h,
    )

    start_bit :
        (j : ℕ)
        → j < 64
        → test_bit start.process.pending_set j
          ≡ test_bit s.process.pending_set j && not (test_bit trig j)
    start_bit j h = simp (test_bit-and s.process.pending_set, test_bit-compl 64 trig j trig-lt h)

    loop : Triggered start (bit_and trig (compl 64 s.process.ign_set)) t
    loop =
        trigger-Triggered 65 env start (bit_and trig (compl 64 s.process.ign_set)) t
          (bit_and-lt 64 trig _ trig-lt) (λ j h b. ground (arith, kept_bit j h, start_bit j h))
          (λ j h b. ground (arith, kept_bit j h)) e
