-- ===== src/Signal/Sets.antt =====
-- root/sig.c: root_uapi_sigset(), which reads and changes one of a process's four signal sets.
pub mod Trigger
pub mod Changes
pub mod Mask
pub mod Disposition
pub mod Take
use sneks.Base.{
  ℕ, zero, suc, ◌+◌, ◌-◌, ◌^◌, ◌%◌, bit_and, bit_or, bit_xor, Bool, true, false, not, ◌&&◌, Option,
  none, some, ◌==◌, if◌then◌else◌, compl, find_first,
}
use sneks.Signal.{
  Process, State, remove_helper, raise_no_reply, Run, done, abort, out_of_fuel, ◌>>=◌, Answers,
  call, set_process, sig_send,
}

-- What `set` points to.
pub data Which : Type 0 where
  ign dfl mask pending : Which

-- The switch on `set_name`; the Boolean is `conceal`.
abbrev pub select : ℕ → Option (Which × Bool)
select zero = some (ign, false)
select (suc zero) = some (dfl, false)
select (suc (suc zero)) = some (mask, false)
select (suc (suc (suc zero))) = some (pending, false)
select (suc (suc (suc (suc zero)))) = some (pending, true)
select (suc (suc (suc (suc (suc n))))) = none

abbrev pub read : Which → Process → ℕ
read ign p = p.ign_set
read dfl p = p.dfl_set
read mask p = p.mask_set
read pending p = p.pending_set

abbrev pub write : Which → ℕ → Process → Process
write ign v p = record p { ign_set = v }
write dfl v p = record p { dfl_set = v }
write mask v p = record p { mask_set = v }
write pending v p = record p { pending_set = v }

-- `*set |= or_bits`, and the bits that changed taken out of the other disposition.
unfoldable pub modify : Which → ℕ → ℕ → Process → Process
modify ign old or_bits p =
    let new = bit_or p.ign_set or_bits in
    let pos_change = bit_xor old new in
    record p {
      ign_set = new;
      dfl_set = if pos_change == 0 then p.dfl_set else bit_and p.dfl_set (compl 64 pos_change);
    }
modify dfl old or_bits p =
    let new = bit_or p.dfl_set or_bits in
    let pos_change = bit_xor old new in
    record p {
      dfl_set = new;
      ign_set = if pos_change == 0 then p.ign_set else bit_and p.ign_set (compl 64 pos_change);
    }
modify mask old or_bits p = record p { mask_set = bit_or p.mask_set or_bits }
modify pending old or_bits p = p

-- In sigsuspend() mode all but the lowest of the signals read go back, and the mode ends. The
-- assert takes `ffsl` of a 64-bit set, that is of its low 32 bits.
unfoldable pub end_suspend : ℕ → Process → Run (ℕ × Process)
end_suspend oldval p =
    let low = find_first 64 oldval - 1 in
    let one = 2 ^ low in
    if not (find_first 32 (one % 2 ^ 32) == low + 1)
    then abort
    else done (
      one,
      record p {
        pending_set = bit_or p.pending_set (bit_and oldval (compl 64 one));
        saved_mask = false;
        mask_set = p.saved_mask_set;
      },
    )

-- The loop over the signals that were just unmasked.
unfoldable pub trigger : ℕ → Answers → State → ℕ → Run State
trigger zero env s trig = out_of_fuel
trigger (suc n) env s trig =
    let sig = find_first 64 trig in
    let next = (do
      s' ← sig_send env s sig true
      trigger n env s' (bit_and trig (compl 64 (2 ^ (sig - 1))))) in
    if trig == 0 then done s else next

-- `trig` out of `pending_set`, the ignored ones dropped, and the rest sent.
unfoldable pub unmask : Answers → State → ℕ → ℕ → Run State
unmask env s oldval and_bits =
    let p = s.process in
    let trig = bit_and p.pending_set (bit_and oldval (compl 64 and_bits)) in
    trigger 65 env
      (set_process s (record p { pending_set = bit_and p.pending_set (compl 64 trig) }))
      (bit_and trig (compl 64 p.ign_set))

abbrev pub are_disjoint : Process → Bool
are_disjoint p = bit_and p.ign_set p.dfl_set == 0

-- From the switch on. A set that is read is returned before its change.
unfoldable pub sigset_on : Answers → State → Which → Bool → ℕ → ℕ → Run (ℕ × State)
sigset_on env s pending conceal or_bits and_bits =
    let p = s.process in
    let keep = if conceal then bit_or and_bits p.mask_set else and_bits in
    let oldval = if conceal then bit_and p.pending_set (compl 64 p.mask_set) else p.pending_set in
    let p' = record p { pending_set = bit_and p.pending_set keep } in
    if not (oldval == 0) && p.saved_mask
    then (do (oldval', p'') ← end_suspend oldval p'; done (oldval', set_process s p''))
    else done (oldval, set_process s p')
sigset_on env s mask conceal or_bits and_bits =
    let p = s.process in
    let oldval = p.mask_set in
    let p' = modify mask oldval or_bits (record p { mask_set = bit_and oldval and_bits }) in
    if not (are_disjoint p')
    then abort
    else do s' ← unmask env (set_process s p') oldval and_bits; done (oldval, s')
sigset_on env s set conceal or_bits and_bits =
    let p = s.process in
    let oldval = read set p in
    let p' = modify set oldval or_bits (write set (bit_and oldval and_bits) p) in
    if not (are_disjoint p') then abort else done (oldval, set_process s p')

abbrev pub is_helper : Option ℕ → ℕ → Bool
is_helper none sender = false
is_helper (some t) sender = t == sender

abbrev without_helper : State → State
without_helper s = set_process s (record s.process { sighelper_tid = none })

unfoldable pub sigset : Answers → State → ℕ → ℕ → ℕ → ℕ → Run (ℕ × State)
sigset env s sender set_name or_bits and_bits =
    if set_name == 4
      && (bit_or s.process.pending_set and_bits == 0 && is_helper s.process.sighelper_tid sender)
    then done (0, call raise_no_reply (call remove_helper (without_helper s)))
    else elim (select set_name) [
      | none ↦ done (0, s)
      | some (set, conceal) ↦ sigset_on env s set conceal or_bits and_bits
    ]
