-- ===== src/Signal/Sets/Disposition.antt =====
-- root_uapi_sigset() of root/sig.c on the two dispositions, which exclude one another.
use sneks.Base.{
  ℕ, zero, suc, ◌^◌, ◌<◌, ◌≡◌, ap, ◌∙◌, bit_and, bit_or, bit_xor, xor, Bool, not, ◌&&◌, arith, ◌==◌,
  ==_ne, if◌then◌else◌, test_bit, test_bit-and, test_bit-xor, test_bit-compl, test_bit-zero,
  bit_and-lt, bit_or-lt, bit_xor-lt, compl,
}
use sneks.Signal.{Process, State, done, Answers, set_process}
use sneks.Signal.Sets.{sigset_on, sigset, modify, write, ign}
use sneks.Signal.Sets.Changes.{IsValid, changed, test_bit-changed, are_disjoint_of_apart}

-- The other disposition, with the changed signals taken out.
cleared_bit :
    (set change j : ℕ)
    → change < 2 ^ 64
    → j < 64
    → test_bit (if change == 0 then set else bit_and set (compl 64 change)) j
      ≡ test_bit set j && not (test_bit change j)
cleared_bit set zero j lt h = ground (arith, test_bit-zero j)
cleared_bit set (suc c) j lt h =
    rw (==_ne (suc c) 0 (omega arith)) (simp (test_bit-and set, test_bit-compl 64 (suc c) j lt h))

cleared-lt :
    (set change : ℕ)
    → set < 2 ^ 64
    → (if change == 0 then set else bit_and set (compl 64 change)) < 2 ^ 64
cleared-lt set zero lt = lt
cleared-lt set (suc c) lt =
    rw (==_ne (suc c) 0 (omega arith)) (bit_and-lt 64 set (compl 64 (suc c)) lt)

module _ (s : State) (or_bits and_bits : ℕ) (v : IsValid s.process) (ow : or_bits < 2 ^ 64) where
  module _ (old : ℕ) (lt : old < 2 ^ 64) where
    changed-lt : bit_or (bit_and old and_bits) or_bits < 2 ^ 64
    changed-lt = bit_or-lt 64 _ or_bits (bit_and-lt 64 old and_bits lt) ow

    change-lt : bit_xor old (bit_or (bit_and old and_bits) or_bits) < 2 ^ 64
    change-lt = bit_xor-lt 64 old _ lt changed-lt

    change_bit :
        (j : ℕ)
        → test_bit (bit_xor old (bit_or (bit_and old and_bits) or_bits)) j
          ≡ xor (test_bit old j) (changed old or_bits and_bits j)
    change_bit j = simp (test_bit-xor, test_bit-changed old or_bits and_bits j)

  after_ign : Process
  after_ign =
      modify ign s.process.ign_set or_bits
        (write ign (bit_and s.process.ign_set and_bits) s.process)

  ign_bits :
      (j : ℕ)
      → j < 64
      → (test_bit after_ign.ign_set j ≡ changed s.process.ign_set or_bits and_bits j)
        × (test_bit after_ign.dfl_set j
            ≡ test_bit s.process.dfl_set j
              && not (
                  xor
                    (test_bit s.process.ign_set j)
                    (changed s.process.ign_set or_bits and_bits j)))
  unfolding modify after_ign
  ign_bits j h = (
    test_bit-changed s.process.ign_set or_bits and_bits j,
    cleared_bit s.process.dfl_set _ j (change-lt s.process.ign_set v.ign_word) h
        ∙ ap (λ (b : Bool). test_bit s.process.dfl_set j && not b)
            (change_bit s.process.ign_set v.ign_word j),
  )

  after_ign-IsValid : IsValid after_ign
  unfolding modify after_ign
  after_ign-IsValid = record {
    ign_word = changed-lt s.process.ign_set v.ign_word;
    dfl_word = cleared-lt s.process.dfl_set _ v.dfl_word;
    mask_word = v.mask_word;
    pending_word = v.pending_word;
    apart = λ j h b. ground (arith, ign_bits j h, v.apart j h);
  }

-- A call that changes the ignored set succeeds and returns the old set; every signal whose
-- disposition it changes is taken out of the default set, and the two sets stay apart.
pub sigset_ign :
    (env : Answers) (s : State) (sender or_bits and_bits : ℕ)
    → IsValid s.process
    → or_bits < 2 ^ 64
    → (t : State) × (sigset env s sender 0 or_bits and_bits ≡ done (s.process.ign_set, t))
      × IsValid t.process
      × ((j : ℕ)
          → j < 64
          → (test_bit t.process.ign_set j ≡ changed s.process.ign_set or_bits and_bits j)
            × (test_bit t.process.dfl_set j
                ≡ test_bit s.process.dfl_set j
                  && not (
                      xor
                        (test_bit s.process.ign_set j)
                        (changed s.process.ign_set or_bits and_bits j))))
unfolding sigset sigset_on after_ign
sigset_ign env s sender or_bits and_bits v ow = (
  set_process s (after_ign s or_bits and_bits v ow),
  rw (are_disjoint_of_apart _ (after_ign-IsValid s or_bits and_bits v ow)),
  after_ign-IsValid s or_bits and_bits v ow,
  ign_bits s or_bits and_bits v ow,
)
