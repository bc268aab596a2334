-- ===== src/Signal/Sets/Mask.antt =====
-- root_uapi_sigset() of root/sig.c on the mask: the new mask and the fate of pending signals.
use sneks.Base.{
  ℕ, ◌^◌, ◌<◌, ◌≡◌, ◌≢◌, bit_and, bit_or, not, ◌&&◌, ◌||◌, arith, test_bit, bit_and-lt,
}
use sneks.Signal.{State, done, out_of_fuel, Answers, set_process}
use sneks.Signal.Sets.{unmask, sigset_on, sigset, modify}
use sneks.Signal.Sets.Trigger.{trigger-fuel, >>=-eq-done, >>=-ne-fuel}
use sneks.Signal.Sets.Changes.{
  IsValid, changed, test_bit-changed, are_disjoint_of_apart, unmask-Triggered,
}

-- The process with its new mask.
abbrev masked : State → ℕ → ℕ → State
masked s or_bits and_bits =
    set_process s
      (record s.process { mask_set = bit_or (bit_and s.process.mask_set and_bits) or_bits })

-- A call that changes the mask returns the old one, leaves both dispositions alone, and gives the
-- mask the bits `(old & and_bits) | or_bits`. A pending signal that `and_bits` takes off the mask
-- stays pending if it is not ignored and is blocked again by `or_bits` or has a handler, and is gone
-- from the set otherwise; every other signal is pending after the call exactly if it was before.
pub sigset_mask :
    (env : Answers) (s : State) (sender or_bits and_bits old : ℕ) (t : State)
    → IsValid s.process
    → and_bits < 2 ^ 64
    → sigset env s sender 2 or_bits and_bits ≡ done (old, t)
    → (old ≡ s.process.mask_set)
      × (t.process.ign_set ≡ s.process.ign_set)
      × (t.process.dfl_set ≡ s.process.dfl_set)
      × ((j : ℕ)
          → j < 64
          → (test_bit t.process.mask_set j ≡ changed s.process.mask_set or_bits and_bits j)
            × (test_bit t.process.pending_set j
                ≡ test_bit s.process.pending_set j
                  && (not (test_bit s.process.mask_set j && not (test_bit and_bits j))
                      || (not (test_bit s.process.ign_set j)
                          && (test_bit or_bits j || not (test_bit s.process.dfl_set j))))))
unfolding sigset sigset_on modify
sigset_mask env s sender or_bits and_bits old t v aw e =
    let (t', ran, back) =
      >>=-eq-done (unmask env (masked s or_bits and_bits) s.process.mask_set and_bits) _
        (rw (are_disjoint_of_apart s.process v) at e) in
    let (same, queue) =
      unmask-Triggered env (masked s or_bits and_bits) s.process.mask_set and_bits t' v.pending_word
        v.ign_word aw ran in
    let bits = test_bit-changed s.process.mask_set or_bits and_bits in
    (
      ground (arith, back),
      ground (arith, back, same),
      ground (arith, back, same),
      λ j h. (ground (arith, back, same, bits j), ground (arith, back, queue j h, bits j)),
    )

unmask-ends :
    (env : Answers) (s : State) (oldval and_bits : ℕ)
    → s.process.pending_set < 2 ^ 64
    → unmask env s oldval and_bits ≢ out_of_fuel
unfolding unmask
unmask-ends env s oldval and_bits pw =
    trigger-fuel 65 env _ _ 0 (bit_and-lt 64 _ _ (bit_and-lt 64 s.process.pending_set _ pw))
      (omega arith) (omega arith) (λ i h. absurd (omega arith))

-- The loop over unblocked signals always ends: 64 rounds send each of them at most once.
pub sigset_mask-ends :
    (env : Answers) (s : State) (sender or_bits and_bits : ℕ)
    → IsValid s.process
    → sigset env s sender 2 or_bits and_bits ≢ out_of_fuel
unfolding sigset sigset_on modify
sigset_mask-ends env s sender or_bits and_bits v = rw (are_disjoint_of_apart s.process v) (
    >>=-ne-fuel (unmask env (masked s or_bits and_bits) s.process.mask_set and_bits) _
      (unmask-ends env (masked s or_bits and_bits) s.process.mask_set and_bits v.pending_word)
      (λ t done_t e. cc))
