-- ===== src/Mutex/Threads.antt =====
-- lib/mtx.c: the steps of the threads keep what holds of the mutex.
use sneks.Base.{
  ℕ, ◌+◌, ◌/◌, ◌≡◌, refl, true, false, ◌||◌, List, [], ◌∷◌, ◌==◌, update, arith, Bool-cases, inl,
  inr, ==_iff,
}
use mathlib.Core.Path.{subst, sym}
use sneks.Mutex.{
  At, idle, attempts, marks, calls_lock, queued, woken, holding, calls_unlock, failed, Serializer,
  ready, attempting, marking, exchanging, MtxState, locked_by, conflict_by, is_conflict, goes,
  goes_with, mtx_lock, mtx_trylock, mtx_unlock, resume,
}
use sneks.Mutex.Exclusion.{
  settled, is_target, owns, at_ok, ser_ok, word_ok, Inv, at_one, locks-ok, marks-ok, unlocks-ok,
}

-- A step that changes the place of one thread only.
goes-Inv :
    (t : ℕ) (p : At) (s : MtxState)
    → Inv s
    → at_ok (settled s.word s.ser) s.waits (is_target s.ser) t p ≡ true
    → Inv (goes t p s)
goes-Inv t p s (threads, ser, word, under) ok = (
  at_one (at_ok (settled s.word s.ser) s.waits (is_target s.ser)) s.at t p
      (λ (u : ℕ) (differs : (t == u) ≡ false). threads u) ok,
  ser,
  word,
  under,
)

-- A word that is no word with CONFLICT is not being exchanged.
pub no_exchange :
    (w : ℕ) (r : Serializer) → is_conflict w ≡ false → ser_ok w r ≡ true → settled w r ≡ w
no_exchange w ready c h = refl
no_exchange w (attempting t prev) c h = refl
no_exchange w (marking t prev) c h = refl
no_exchange w (exchanging target prev next) c h = ground arith

pub settled_new :
    (w v : ℕ) (r : Serializer) → is_conflict w ≡ false → ser_ok w r ≡ true → settled v r ≡ v
settled_new w v ready c h = refl
settled_new w v (attempting t prev) c h = refl
settled_new w v (marking t prev) c h = refl
settled_new w v (exchanging target prev next) c h = ground arith

ser_new : (w v : ℕ) (r : Serializer) → is_conflict w ≡ false → ser_ok w r ≡ true → ser_ok v r ≡ true
ser_new w v ready c h = refl
ser_new w v (attempting t prev) c h = ground arith
ser_new w v (marking t prev) c h = ground arith
ser_new w v (exchanging target prev next) c h = ground arith

pub not_waiting :
    (w v : ℕ) (ws : List ℕ)
    → is_conflict w ≡ false
    → word_ok w ws ≡ true
    → word_ok v [] ≡ true
    → word_ok v ws ≡ true
not_waiting w v [] c h k = k
not_waiting w v (x ∷ ws) c h k = ground arith

-- A step that changes the place of one thread and a word without CONFLICT.
goes_with-Inv :
    (t : ℕ) (p : At) (v : ℕ) (s : MtxState)
    → Inv s
    → is_conflict s.word ≡ false
    → word_ok v [] ≡ true
    → ((u : ℕ)
        → (t == u) ≡ false
        → at_ok s.word s.waits (is_target s.ser) u (s.at u) ≡ true
        → at_ok v s.waits (is_target s.ser) u (s.at u) ≡ true)
    → at_ok v s.waits (is_target s.ser) t p ≡ true
    → Inv (goes_with t p v s)
goes_with-Inv t p v s (threads, ser, word, under) free shape others ok = (
  subst (λ (e : ℕ). (u : ℕ) → at_ok e s.waits (is_target s.ser) u (update s.at t p u) ≡ true)
      (sym (settled_new s.word v s.ser free ser))
      (at_one (at_ok v s.waits (is_target s.ser)) s.at t p
        (λ (u : ℕ) (differs : (t == u) ≡ false). others u differs (
          subst (λ (e : ℕ). at_ok e s.waits (is_target s.ser) u (s.at u) ≡ true)
            (no_exchange s.word s.ser free ser) (threads u)))
        ok),
  ser_new s.word v s.ser free ser,
  subst (λ (e : ℕ). word_ok e s.waits ≡ true) (sym (settled_new s.word v s.ser free ser))
      (not_waiting s.word v s.waits free
        (subst (λ (e : ℕ). word_ok e s.waits ≡ true) (no_exchange s.word s.ser free ser) word)
        shape),
  under,
)

takes-Inv :
    (t : ℕ) (s : MtxState)
    → Inv s
    → (s.word == 0) ≡ true
    → Inv (goes_with t holding (locked_by t) s)
takes-Inv t s inv zero_word =
    goes_with-Inv t holding (locked_by t) s inv (ground arith) (ground arith)
      (λ (u : ℕ) (differs : (t == u) ≡ false) h. locks-ok s.waits (is_target s.ser) t u (s.at u) (
        subst (λ (e : ℕ). at_ok e s.waits (is_target s.ser) u (s.at u) ≡ true)
          ((==_iff s.word 0).0 zero_word) h))
      (ground arith)

pub mtx_lock-Inv : (t : ℕ) (p : At) (s : MtxState) → Inv s → Inv (mtx_lock t p s)
unfolding mtx_lock
mtx_lock-Inv t idle s inv = goes-Inv t (attempts s.word) s inv refl
mtx_lock-Inv t (attempts prev) s inv = inv
mtx_lock-Inv t (marks prev) s inv = inv
mtx_lock-Inv t calls_lock s inv = inv
mtx_lock-Inv t queued s inv = inv
mtx_lock-Inv t woken s inv = inv
mtx_lock-Inv t holding s inv = inv
mtx_lock-Inv t calls_unlock s inv = inv
mtx_lock-Inv t failed s inv = inv

pub mtx_trylock-Inv : (t : ℕ) (p : At) (s : MtxState) → Inv s → Inv (mtx_trylock t p s)
unfolding mtx_trylock
mtx_trylock-Inv t idle s inv = elim (Bool-cases (s.word == 0)) [
  | inl z ↦ rw z (takes-Inv t s inv z)
  | inr n ↦ rw n inv
]
mtx_trylock-Inv t (attempts prev) s inv = inv
mtx_trylock-Inv t (marks prev) s inv = inv
mtx_trylock-Inv t calls_lock s inv = inv
mtx_trylock-Inv t queued s inv = inv
mtx_trylock-Inv t woken s inv = inv
mtx_trylock-Inv t holding s inv = inv
mtx_trylock-Inv t calls_unlock s inv = inv
mtx_trylock-Inv t failed s inv = inv

-- Who holds a word of its own with CONFLICT, as it stands or once it is exchanged.
own_conflict :
    (t w : ℕ) (r : Serializer)
    → ser_ok w r ≡ true
    → owns (settled w r) t ≡ true
    → (w == conflict_by t) ≡ true
    → (settled w r == conflict_by t || is_target r t) ≡ true
own_conflict t w ready h o c = ground arith
own_conflict t w (attempting u prev) h o c = ground arith
own_conflict t w (marking u prev) h o c = ground arith
own_conflict t w (exchanging target prev next) h o c = ground arith

pub mtx_unlock-Inv :
    (t : ℕ) (p : At) (s : MtxState)
    → Inv s
    → at_ok (settled s.word s.ser) s.waits (is_target s.ser) t p ≡ true
    → Inv (mtx_unlock t p s)
unfolding mtx_unlock
mtx_unlock-Inv t idle s inv h = inv
mtx_unlock-Inv t (attempts prev) s inv h = inv
mtx_unlock-Inv t (marks prev) s inv h = inv
mtx_unlock-Inv t calls_lock s inv h = inv
mtx_unlock-Inv t queued s inv h = inv
mtx_unlock-Inv t woken s inv h = inv
mtx_unlock-Inv t holding s inv h = elim (Bool-cases (s.word == locked_by t)) [
  | inl own ↦ rw own (
      goes_with-Inv t idle 0 s inv (ground arith) (ground arith)
        (λ (u : ℕ) (differs : (t == u) ≡ false) k.
          unlocks-ok s.waits (is_target s.ser) t u (s.at u) differs (
            subst (λ (e : ℕ). at_ok e s.waits (is_target s.ser) u (s.at u) ≡ true)
              ((==_iff s.word (locked_by t)).0 own) k))
        (ground arith))
  | inr other ↦ rw other (elim (Bool-cases (s.word == conflict_by t)) [
    | inl conflict ↦
        rw conflict (goes-Inv t calls_unlock s inv (own_conflict t s.word s.ser inv.1 h conflict))
    | inr bad ↦ rw bad (goes-Inv t failed s inv (ground arith))
  ])
]
mtx_unlock-Inv t calls_unlock s inv h = inv
mtx_unlock-Inv t failed s inv h = inv

pub marked :
    (w : ℕ) (ws : List ℕ)
    → (w == 0) ≡ false
    → is_conflict w ≡ false
    → word_ok w ws ≡ true
    → word_ok (w + 2) [] ≡ true
marked w [] n c h = ground arith
marked w (v ∷ ws) n c h = ground arith

mark-Inv :
    (t prev : ℕ) (s : MtxState)
    → Inv s
    → (prev == 0) ≡ false
    → is_conflict prev ≡ false
    → (s.word == prev) ≡ true
    → Inv (goes_with t calls_lock (prev + 2) s)
mark-Inv t prev s inv nonzero free same =
    goes_with-Inv t calls_lock (prev + 2) s inv (ground arith)
      (marked prev s.waits nonzero free (
        subst (λ (e : ℕ). word_ok e s.waits ≡ true) ((==_iff s.word prev).0 same)
          (subst (λ (e : ℕ). word_ok e s.waits ≡ true)
            (no_exchange s.word s.ser
              (subst (λ (e : ℕ). is_conflict e ≡ false) (sym ((==_iff s.word prev).0 same)) free)
              inv.1)
            inv.2)))
      (λ (u : ℕ) (differs : (t == u) ≡ false) h.
        marks-ok prev s.waits (is_target s.ser) u (s.at u) free (
          subst (λ (e : ℕ). at_ok e s.waits (is_target s.ser) u (s.at u) ≡ true)
            ((==_iff s.word prev).0 same) h))
      (ground arith)

pub resume-Inv :
    (t : ℕ) (p : At) (s : MtxState)
    → Inv s
    → at_ok (settled s.word s.ser) s.waits (is_target s.ser) t p ≡ true
    → Inv (resume t p s)
unfolding resume
resume-Inv t (attempts prev) s inv h = elim (Bool-cases (prev == 0)) [
  | inl z ↦ rw z (elim (Bool-cases (s.word == 0)) [
    | inl free ↦ rw free (takes-Inv t s inv free)
    | inr taken ↦ rw taken (goes-Inv t (marks s.word) s inv (rw taken refl))
  ])
  | inr n ↦ rw n (goes-Inv t (marks prev) s inv (rw n refl))
]
resume-Inv t (marks prev) s inv h = elim (Bool-cases (is_conflict prev)) [
  | inl c ↦ rw c (goes-Inv t calls_lock s inv refl)
  | inr free ↦ rw free (elim (Bool-cases (s.word == prev)) [
    | inl same ↦ rw same (mark-Inv t prev s inv (ground arith) free same)
    | inr changed ↦ rw changed (goes-Inv t (attempts s.word) s inv refl)
  ])
]
resume-Inv t woken s inv h = elim (Bool-cases (s.word / 64 == t)) [
  | inl own ↦ rw own (goes-Inv t holding s inv h)
  | inr other ↦ rw other (goes-Inv t failed s inv refl)
]
resume-Inv t idle s inv h = inv
resume-Inv t calls_lock s inv h = inv
resume-Inv t queued s inv h = inv
resume-Inv t holding s inv h = inv
resume-Inv t calls_unlock s inv h = inv
resume-Inv t failed s inv h = inv
