-- ===== src/Mutex/Asserts.antt =====
-- lib/mtx.c: where the steps come to an assert that does not hold.
use sneks.Base.{
  ℕ, ◌/◌, ◌≡◌, refl, Bool, true, false, not, ◌||◌, List, [], ◌∷◌, ◌==◌, update, arith, Bool-cases,
  inl, inr,
}
use sneks.Mutex.{
  At, idle, attempts, marks, calls_lock, queued, woken, holding, calls_unlock, failed, Serializer,
  ready, attempting, marking, exchanging, MtxState, locked_by, conflict_by, is_conflict, mtx_lock,
  mtx_trylock, mtx_unlock, resume, take_lock, hand_over, ser_unlock_op, ser_fn, replied,
}
use sneks.Mutex.Exclusion.{at_one}

abbrev pub is_fine : At → Bool
is_fine failed = false
is_fine idle = true
is_fine (attempts prev) = true
is_fine (marks prev) = true
is_fine calls_lock = true
is_fine queued = true
is_fine woken = true
is_fine holding = true
is_fine calls_unlock = true

abbrev pub Fine : (ℕ → At) → Type 0
Fine at = (t : ℕ) → is_fine (at t) ≡ true

-- Whether the exchange that is due follows a reply: `next` is 0 only where the list was empty, and
-- then ser_unlock_op() makes no reply.
abbrev pub has_replied : Serializer → Bool
has_replied (exchanging target prev next) = not (next == 0)
has_replied ready = false
has_replied (attempting t prev) = false
has_replied (marking t prev) = false

update-Fine : (at : ℕ → At) (t : ℕ) (p : At) → Fine at → is_fine p ≡ true → Fine (update at t p)
update-Fine at t p fine ok =
    at_one (λ (u : ℕ) (q : At). is_fine q) at t p (λ (u : ℕ) (d : (t == u) ≡ false). fine u) ok

pub mtx_lock-Fine : (t : ℕ) (p : At) (s : MtxState) → Fine s.at → Fine (mtx_lock t p s).at
unfolding mtx_lock
mtx_lock-Fine t idle s fine = update-Fine s.at t (attempts s.word) fine refl
mtx_lock-Fine t (attempts prev) s fine = fine
mtx_lock-Fine t (marks prev) s fine = fine
mtx_lock-Fine t calls_lock s fine = fine
mtx_lock-Fine t queued s fine = fine
mtx_lock-Fine t woken s fine = fine
mtx_lock-Fine t holding s fine = fine
mtx_lock-Fine t calls_unlock s fine = fine
mtx_lock-Fine t failed s fine = fine

pub mtx_trylock-Fine : (t : ℕ) (p : At) (s : MtxState) → Fine s.at → Fine (mtx_trylock t p s).at
unfolding mtx_trylock
mtx_trylock-Fine t idle s fine = elim (Bool-cases (s.word == 0)) [
  | inl z ↦ rw z (update-Fine s.at t holding fine refl)
  | inr n ↦ rw n fine
]
mtx_trylock-Fine t (attempts prev) s fine = fine
mtx_trylock-Fine t (marks prev) s fine = fine
mtx_trylock-Fine t calls_lock s fine = fine
mtx_trylock-Fine t queued s fine = fine
mtx_trylock-Fine t woken s fine = fine
mtx_trylock-Fine t holding s fine = fine
mtx_trylock-Fine t calls_unlock s fine = fine
mtx_trylock-Fine t failed s fine = fine

-- What the place of a thread promises where no exchange is due.
abbrev pub promised : (w t : ℕ) → At → Bool
promised w t holding = w == locked_by t || (w == conflict_by t)
promised w t woken = w / 64 == t
promised w t idle = true
promised w t (attempts prev) = true
promised w t (marks prev) = true
promised w t calls_lock = true
promised w t queued = true
promised w t calls_unlock = true
promised w t failed = true

pub mtx_unlock-Fine :
    (t : ℕ) (p : At) (s : MtxState)
    → promised s.word t p ≡ true
    → Fine s.at
    → Fine (mtx_unlock t p s).at
unfolding mtx_unlock
mtx_unlock-Fine t idle s h fine = fine
mtx_unlock-Fine t (attempts prev) s h fine = fine
mtx_unlock-Fine t (marks prev) s h fine = fine
mtx_unlock-Fine t calls_lock s h fine = fine
mtx_unlock-Fine t queued s h fine = fine
mtx_unlock-Fine t woken s h fine = fine
mtx_unlock-Fine t holding s h fine = elim (Bool-cases (s.word == locked_by t)) [
  | inl own ↦ rw own (update-Fine s.at t idle fine refl)
  | inr other ↦ rw (other, conflict other) (update-Fine s.at t calls_unlock fine refl)
]
  where
    conflict : (s.word == locked_by t) ≡ false → (s.word == conflict_by t) ≡ true
    conflict other = ground arith
mtx_unlock-Fine t calls_unlock s h fine = fine
mtx_unlock-Fine t failed s h fine = fine

pub resume-Fine :
    (t : ℕ) (p : At) (s : MtxState)
    → promised s.word t p ≡ true
    → Fine s.at
    → Fine (resume t p s).at
unfolding resume
resume-Fine t (attempts prev) s h fine = elim (Bool-cases (prev == 0)) [
  | inl z ↦ rw z (elim (Bool-cases (s.word == 0)) [
    | inl free ↦ rw free (update-Fine s.at t holding fine refl)
    | inr taken ↦ rw taken (update-Fine s.at t (marks s.word) fine refl)
  ])
  | inr n ↦ rw n (update-Fine s.at t (marks prev) fine refl)
]
resume-Fine t (marks prev) s h fine = elim (Bool-cases (is_conflict prev)) [
  | inl c ↦ rw c (update-Fine s.at t calls_lock fine refl)
  | inr free ↦ rw free (elim (Bool-cases (s.word == prev)) [
    | inl same ↦ rw same (update-Fine s.at t calls_lock fine refl)
    | inr changed ↦ rw changed (update-Fine s.at t (attempts s.word) fine refl)
  ])
]
resume-Fine t woken s h fine = rw h (update-Fine s.at t holding fine refl)
resume-Fine t idle s h fine = fine
resume-Fine t calls_lock s h fine = fine
resume-Fine t queued s h fine = fine
resume-Fine t holding s h fine = fine
resume-Fine t calls_unlock s h fine = fine
resume-Fine t failed s h fine = fine

pub take_lock-Fine :
    (t : ℕ) (r : Serializer) (p : At) (s : MtxState) → Fine s.at → Fine (take_lock t r p s).at
unfolding take_lock
take_lock-Fine t (attempting u prev) p s fine = fine
take_lock-Fine t (marking u prev) p s fine = fine
take_lock-Fine t (exchanging u prev next) p s fine = fine
take_lock-Fine t ready idle s fine = fine
take_lock-Fine t ready (attempts prev) s fine = fine
take_lock-Fine t ready (marks prev) s fine = fine
take_lock-Fine t ready calls_lock s fine = fine
take_lock-Fine t ready queued s fine = fine
take_lock-Fine t ready woken s fine = fine
take_lock-Fine t ready holding s fine = fine
take_lock-Fine t ready calls_unlock s fine = fine
take_lock-Fine t ready failed s fine = fine

hand_over-Fine :
    (t : ℕ) (x : Bool) (ws : List ℕ) (s : MtxState) → Fine s.at → Fine (hand_over t x ws s).at
unfolding hand_over
hand_over-Fine t x [] s fine = fine
hand_over-Fine t true (w ∷ []) s fine = update-Fine s.at t idle fine refl
hand_over-Fine t false (w ∷ []) s fine = update-Fine s.at w woken fine refl
hand_over-Fine t x (w ∷ (v ∷ ws)) s fine = update-Fine s.at t idle fine refl

pub ser_unlock_op-Fine :
    (t : ℕ) (x : Bool) (r : Serializer) (p : At) (s : MtxState)
    → Fine s.at
    → Fine (ser_unlock_op t x r p s).at
unfolding ser_unlock_op
ser_unlock_op-Fine t x (attempting u prev) p s fine = fine
ser_unlock_op-Fine t x (marking u prev) p s fine = fine
ser_unlock_op-Fine t x (exchanging u prev next) p s fine = fine
ser_unlock_op-Fine t x ready calls_unlock s fine = elim (Bool-cases (s.word / 64 == t)) [
  | inl own ↦ rw own (hand_over-Fine t x s.waits s fine)
  | inr other ↦ rw other fine
]
ser_unlock_op-Fine t x ready idle s fine = fine
ser_unlock_op-Fine t x ready (attempts prev) s fine = fine
ser_unlock_op-Fine t x ready (marks prev) s fine = fine
ser_unlock_op-Fine t x ready calls_lock s fine = fine
ser_unlock_op-Fine t x ready queued s fine = fine
ser_unlock_op-Fine t x ready woken s fine = fine
ser_unlock_op-Fine t x ready holding s fine = fine
ser_unlock_op-Fine t x ready failed s fine = fine

replied-fine : (p : At) → is_fine p ≡ true → is_fine (replied p) ≡ true
replied-fine idle h = h
replied-fine (attempts prev) h = h
replied-fine (marks prev) h = h
replied-fine calls_lock h = h
replied-fine queued h = refl
replied-fine woken h = h
replied-fine holding h = h
replied-fine calls_unlock h = refl
replied-fine failed h = h

pub ser_fn-Fine : (r : Serializer) (s : MtxState) → Fine s.at → Fine (ser_fn r s).at
unfolding ser_fn
ser_fn-Fine ready s fine = fine
ser_fn-Fine (exchanging target prev next) s fine =
    update-Fine s.at target (replied (s.at target)) fine (replied-fine (s.at target) (fine target))
ser_fn-Fine (attempting t prev) s fine = elim (Bool-cases (prev == 0)) [
  | inl z ↦ rw z (elim (Bool-cases (s.word == 0)) [
    | inl free ↦ rw free (update-Fine s.at t woken fine refl)
    | inr taken ↦ rw taken fine
  ])
  | inr n ↦ rw n fine
]
ser_fn-Fine (marking t prev) s fine = elim (Bool-cases (is_conflict prev)) [
  | inl c ↦ rw c (update-Fine s.at t queued fine refl)
  | inr free ↦ rw free (elim (Bool-cases (s.word == prev)) [
    | inl same ↦ rw same (update-Fine s.at t queued fine refl)
    | inr changed ↦ rw changed fine
  ])
]
