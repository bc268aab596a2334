-- ===== src/Signal/Sets/Trigger.antt =====
-- The loop of root_uapi_sigset() in root/sig.c over the signals that were just unblocked.
use sneks.Base.{
  ap, ◌∷◌, ℕ, zero, suc, ◌+◌, ◌^◌, ◌≤◌, ◌<◌, ◌≡◌, refl, sym, ◌∙◌, ◌≢◌, bit_and, Bool, true, false,
  not, ◌&&◌, ◌||◌, arith, test_bit, test_bit-zero, test_bit-remove, eq_of_bits, bit_and-lt, compl,
  find_first, find_first-zero, find_first_bit, find_first_below, ==_ne, pred_suc,
}
use sneks.Signal.{
  is_deadly, cld_killed, zombify, raise_no_reply, Process, State, Run, done, abort, out_of_fuel,
  ◌>>=◌, Answers, sig_send,
}
use sneks.Signal.Sets.{trigger}
use sneks.Signal.Laws.{
  SameSets, NewPending, queues, sig_send-sets, sig_send_pending, sig_send-fuel, sig_send_deadly,
}

pub >>=-eq-done {ℓ κ} :
    {A : Type ℓ} {B : Type κ} (m : Run A) (f : A → Run B) {b : B}
    → (m >>= f) ≡ done b
    → (a : A) × (m ≡ done a) × (f a ≡ done b)
>>=-eq-done (done a) f h = (a, refl, h)
>>=-eq-done abort f h = cc
>>=-eq-done out_of_fuel f h = cc

-- A nonzero word has a lowest bit.
find_first-suc : (a : ℕ) → a < 2 ^ 64 → a ≢ 0 → (k : ℕ) × (find_first 64 a ≡ suc k)
find_first-suc a lt ne = go (find_first 64 a) refl
  where
    go : (n : ℕ) → find_first 64 a ≡ n → (k : ℕ) × (find_first 64 a ≡ suc k)
    go zero e = absurd (
        ne (
          eq_of_bits 64 a 0 lt (omega arith)
            (λ k h. find_first-zero 64 a e k h ∙ sym (test_bit-zero k))))
    go (suc k) e = (k, e)

trigger_zero : (n : ℕ) (env : Answers) (s : State) → trigger (suc n) env s 0 ≡ done s
unfolding trigger
trigger_zero n env s = refl

first-ne : (a k : ℕ) → find_first 64 a ≡ suc k → a ≢ 0
first-ne a k first e = ground (arith, find_first_bit 64 a k first, test_bit-zero k)

trigger-suc :
    (n : ℕ) (env : Answers) (s : State) (trig k : ℕ)
    → trig ≢ 0
    → find_first 64 trig ≡ suc k
    → trigger (suc n) env s trig
      ≡ (sig_send env s (suc k) true >>= λ s'. trigger n env s' (bit_and trig (compl 64 (2 ^ k))))
unfolding trigger
trigger-suc n env s trig k ne first = rw (==_ne trig 0 ne, first, trigger, pred_suc k)

-- A signal of the loop is queued again if it is still blocked or has a handler.
abbrev pub requeued : Process → ℕ → Bool
requeued p j = test_bit p.mask_set j || not (test_bit p.dfl_set j)

pub record Triggered (s : State) (trig : ℕ) (t : State) : Type 0 where
  pub same : SameSets s.process t.process
  pub queue :
      (j : ℕ)
      → j < 64
      → test_bit t.process.pending_set j
        ≡ test_bit s.process.pending_set j || (test_bit trig j && requeued s.process j)

abbrev pub Apart : ℕ → ℕ → Type 0
Apart trig set = (j : ℕ) → j < 64 → test_bit trig j ≡ true → test_bit set j ≡ false

-- One signal sent, and the rest of the loop after it.
Triggered-step :
    (env : Answers) (s s' t : State) (trig k : ℕ)
    → k < 64
    → test_bit trig k ≡ true
    → test_bit s.process.ign_set k ≡ false
    → SameSets s.process s'.process
    → ((j : ℕ) → NewPending s.process s'.process k (queues env s.process k true) j)
    → Triggered s' (bit_and trig (compl 64 (2 ^ k))) t
    → Triggered s trig t
Triggered-step env s s' t trig k hk on caught same new rest = record {
  same = ground (arith, rest.same);
  queue = λ j h. ground (arith, same, new j, rest.queue j h, test_bit-remove 64 trig k j hk h);
}

Apart-remove : (trig k a : ℕ) → k < 64 → Apart trig a → Apart (bit_and trig (compl 64 (2 ^ k))) a
Apart-remove trig k a hk free j h = ground (arith, free j h, test_bit-remove 64 trig k j hk h)

pub trigger-Triggered :
    (n : ℕ) (env : Answers) (s : State) (trig : ℕ) (t : State)
    → trig < 2 ^ 64
    → Apart trig s.process.pending_set
    → Apart trig s.process.ign_set
    → trigger n env s trig ≡ done t
    → Triggered s trig t
unfolding trigger
trigger-Triggered zero env s trig t lt free caught e = cc
trigger-Triggered (suc n) env s zero t lt free caught e = record {
  same = ground arith;
  queue = λ j h. ground (arith, test_bit-zero j);
}
trigger-Triggered (suc n) env s (suc m) t lt free caught e =
    let (k, first) = find_first-suc (suc m) lt (omega arith) in
    let (s', sent, rest) =
      >>=-eq-done (sig_send env s (suc k) true) _
        (sym (trigger-suc n env s (suc m) k (omega arith) first) ∙ e) in
    let on = find_first_bit 64 (suc m) k first in
    let same = sig_send-sets env s k true s' sent in
    let new = λ (j : ℕ). sig_send_pending env s k true s' j sent in
    Triggered-step env s s' t (suc m) k on.1 on.0 (caught k on.1 on.0) same new (
      trigger-Triggered n env s' (bit_and (suc m) (compl 64 (2 ^ k))) t (bit_and-lt 64 (suc m) _ lt)
        (λ j h b. ground (arith, free j h, new j, test_bit-remove 64 (suc m) k j on.1 h))
        (λ j h b. ground (arith, caught j h, same, test_bit-remove 64 (suc m) k j on.1 h)) rest)

pub >>=-ne-fuel {ℓ κ} :
    {A : Type ℓ} {B : Type κ} (m : Run A) (f : A → Run B)
    → m ≢ out_of_fuel
    → ((a : A) → m ≡ done a → f a ≢ out_of_fuel)
    → (m >>= f) ≢ out_of_fuel
>>=-ne-fuel (done a) f ne rest e = rest a refl e
>>=-ne-fuel abort f ne rest e = cc
>>=-ne-fuel out_of_fuel f ne rest e = ne refl

-- Once the bits below `j` are gone, `65 - j` rounds are enough.
pub trigger-fuel :
    (n : ℕ) (env : Answers) (s : State) (trig j : ℕ)
    → trig < 2 ^ 64
    → j ≤ 64
    → 65 ≤ n + j
    → ((i : ℕ) → i < j → test_bit trig i ≡ false)
    → trigger n env s trig ≢ out_of_fuel
trigger-fuel zero env s trig j lt hj enough clear e = absurd (omega arith)
trigger-fuel (suc n) env s zero j lt hj enough clear e = cc (trigger_zero n env s)
trigger-fuel (suc n) env s (suc m) j lt hj enough clear e =
    let (k, first) = find_first-suc (suc m) lt (omega arith) in
    let on = find_first_bit 64 (suc m) k first in
    let above : j ≤ k = ground (arith, clear k, on) in
    >>=-ne-fuel (sig_send env s (suc k) true) _ (sig_send-fuel env s (suc k) true)
      (λ t sent.
        trigger-fuel n env t (bit_and (suc m) (compl 64 (2 ^ k))) (suc k)
          (bit_and-lt 64 (suc m) _ lt) on.1 (omega arith)
          (λ i h.
            ground
              (arith, find_first_below 64 (suc m) k first i, test_bit-remove 64 (suc m) k i on.1)))
      (sym (trigger-suc n env s (suc m) k (omega arith) first) ∙ e)

-- What a deadly signal that a process sends to itself leaves behind.
abbrev pub self_killed : ℕ → State → State
self_killed k s = record {
  process = record s.process { code = cld_killed; signo = suc k; status = 0 };
  calls = raise_no_reply ∷ (zombify ∷ s.calls);
}

trigger_killed :
    (n : ℕ) (env : Answers) (s : State) (trig k : ℕ)
    → find_first 64 trig ≡ suc k
    → is_deadly (suc k) ≡ true
    → test_bit s.process.mask_set k ≡ false
    → test_bit s.process.pending_set k ≡ false
    → test_bit s.process.dfl_set k ≡ true
    → test_bit s.process.ign_set k ≡ false
    → trigger (suc n) env s trig ≡ trigger n env (self_killed k s) (bit_and trig (compl 64 (2 ^ k)))
trigger_killed n env s trig k first deadly m p d i =
    trigger-suc n env s trig k (first-ne trig k first) first
    ∙ ap (λ (r : Run State). r >>= λ t. trigger n env t (bit_and trig (compl 64 (2 ^ k))))
        (sig_send_deadly env s k true deadly m p d i)

-- Two deadly signals at their default that are unblocked at once: zombify() is called for each of
-- them, the second time on a process that the first call has torn down.
pub trigger_zombifies_twice :
    (n : ℕ) (env : Answers) (s : State) (trig k l : ℕ)
    → trig < 2 ^ 64
    → find_first 64 trig ≡ suc k
    → find_first 64 (bit_and trig (compl 64 (2 ^ k))) ≡ suc l
    → (is_deadly (suc k) ≡ true) × (is_deadly (suc l) ≡ true)
    → (test_bit s.process.mask_set k ≡ false) × (test_bit s.process.mask_set l ≡ false)
    → (test_bit s.process.pending_set k ≡ false) × (test_bit s.process.pending_set l ≡ false)
    → (test_bit s.process.dfl_set k ≡ true) × (test_bit s.process.dfl_set l ≡ true)
    → (test_bit s.process.ign_set k ≡ false) × (test_bit s.process.ign_set l ≡ false)
    → trigger (suc (suc n)) env s trig
      ≡ trigger n env
          (self_killed l (self_killed k s))
          (bit_and (bit_and trig (compl 64 (2 ^ k))) (compl 64 (2 ^ l)))
trigger_zombifies_twice n env s trig k l lt first second deadly m p d i =
    trigger_killed (suc n) env s trig k first deadly.0 m.0 p.0 d.0 i.0
    ∙ trigger_killed n env (self_killed k s) (bit_and trig (compl 64 (2 ^ k))) l second deadly.1 m.1
        p.1 d.1 i.1
