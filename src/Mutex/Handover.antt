-- ===== src/Mutex/Handover.antt =====
-- lib/mtx.c: the steps of the serializer keep what holds of the mutex.
use sneks.Base.{
  ℕ, ◌+◌, ◌/◌, ◌≡◌, refl, Bool, true, false, List, [], ◌∷◌, ◌++◌, ◌==◌, update, arith, Bool-cases,
  inl, inr, ==_iff,
}
use mathlib.Core.Path.{subst, sym}
use sneks.Mutex.{
  At, idle, attempts, marks, calls_lock, queued, woken, holding, calls_unlock, failed, Serializer,
  ready, attempting, marking, exchanging, MtxState, locked_by, conflict_by, is_conflict, take_lock,
  hand_over, ser_unlock_op, ser_fn, replied,
}
use sneks.Mutex.Exclusion.{at_ok, word_ok, Inv, InvAt, at_one, locks-ok, marks-ok}
use sneks.Mutex.Threads.{not_waiting, marked}
use sneks.Mutex.Places.{
  nobody, waits_for-append, enqueues-ok, hands-ok, wakes-ok, frees-ok, exchanged-ok, replied-ok,
}

pub take_lock-Inv :
    (t : ℕ) (r : Serializer) (p : At) (s : MtxState) → Inv s → InvAt r s → Inv (take_lock t r p s)
unfolding take_lock
take_lock-Inv t (attempting u prev) p s inv h = inv
take_lock-Inv t (marking u prev) p s inv h = inv
take_lock-Inv t (exchanging u prev next) p s inv h = inv
take_lock-Inv t ready calls_lock s inv (threads, ser, word, under) =
    (threads, ground arith, word, under)
take_lock-Inv t ready idle s inv h = inv
take_lock-Inv t ready (attempts prev) s inv h = inv
take_lock-Inv t ready (marks prev) s inv h = inv
take_lock-Inv t ready queued s inv h = inv
take_lock-Inv t ready woken s inv h = inv
take_lock-Inv t ready holding s inv h = inv
take_lock-Inv t ready calls_unlock s inv h = inv
take_lock-Inv t ready failed s inv h = inv

-- The place of one thread is known.
known_here :
    (P : ℕ → At → Bool) (at : ℕ → At) (t u : ℕ) (p : At)
    → at t ≡ p
    → (t == u) ≡ true
    → P t p ≡ true
    → P u (at u) ≡ true
known_here P at t u p e same this =
    subst (λ (v : ℕ). P v (at v) ≡ true) ((==_iff t u).0 same)
      (subst (λ (q : At). P t q ≡ true) (sym e) this)

known_one :
    (P : ℕ → At → Bool) (at : ℕ → At) (t : ℕ) (p : At)
    → at t ≡ p
    → ((u : ℕ) → (t == u) ≡ false → P u (at u) ≡ true)
    → P t p ≡ true
    → (u : ℕ) → P u (at u) ≡ true
known_one P at t p e others this u = elim (Bool-cases (t == u)) [
  | inl same ↦ known_here P at t u p e same this
  | inr differs ↦ others u differs
]

hand_over-Inv :
    (t : ℕ) (x : Bool) (ws : List ℕ) (s : MtxState)
    → s.at t ≡ calls_unlock
    → s.word ≡ conflict_by t
    → s.from_under ≡ false
    → ((u : ℕ) → at_ok (conflict_by t) ws nobody u (s.at u) ≡ true)
    → Inv (hand_over t x ws s)
unfolding hand_over
hand_over-Inv t x [] s here w under threads = (
  known_one (at_ok 0 [] (λ (v : ℕ). t == v)) s.at t calls_unlock here
      (λ (u : ℕ) (c : (t == u) ≡ false). frees-ok t u (s.at u) c (threads u)) (ground arith),
  rw w (ground arith),
  refl,
  under,
)
hand_over-Inv t true (w ∷ []) s here e under threads = (
  at_one (at_ok (conflict_by w) [] (λ (v : ℕ). w == v)) s.at t idle
      (λ (u : ℕ) (c : (t == u) ≡ false). hands-ok t w u [] (s.at u) c (threads u)) refl,
  rw e (ground arith),
  ground arith,
  under,
)
hand_over-Inv t false (w ∷ []) s here e under threads = (
  at_one (at_ok (conflict_by w) [] (λ (v : ℕ). t == v)) s.at w woken
      (λ (u : ℕ) (d : (w == u) ≡ false). elim (Bool-cases (t == u)) [
        | inl same ↦
            known_here (at_ok (conflict_by w) [] (λ (v : ℕ). t == v)) s.at t u calls_unlock here
              same (ground arith)
        | inr c ↦ wakes-ok t w u (s.at u) c d (threads u)
      ])
      (ground arith),
  rw e (ground arith),
  ground arith,
  under,
)
hand_over-Inv t x (w ∷ (v ∷ ws)) s here e under threads = (
  at_one (at_ok (conflict_by w) (v ∷ ws) (λ (v : ℕ). w == v)) s.at t idle
      (λ (u : ℕ) (c : (t == u) ≡ false). hands-ok t w u (v ∷ ws) (s.at u) c (threads u)) refl,
  rw e (ground arith),
  ground arith,
  under,
)

pub ser_unlock_op-Inv :
    (t : ℕ) (x : Bool) (r : Serializer) (p : At) (s : MtxState)
    → Inv s
    → InvAt r s
    → s.at t ≡ p
    → Inv (ser_unlock_op t x r p s)
unfolding ser_unlock_op
ser_unlock_op-Inv t x (attempting u prev) p s inv h e = inv
ser_unlock_op-Inv t x (marking u prev) p s inv h e = inv
ser_unlock_op-Inv t x (exchanging u prev next) p s inv h e = inv
ser_unlock_op-Inv t x ready calls_unlock s inv (threads, ser, word, under) e =
    elim (Bool-cases (s.word / 64 == t)) [
      | inl own ↦ rw own (
          hand_over-Inv t x s.waits s e own_word under (
            subst (λ (w : ℕ). (u : ℕ) → at_ok w s.waits nobody u (s.at u) ≡ true) own_word threads))
      | inr other ↦ rw other inv
    ]
  where
    calls : at_ok s.word s.waits nobody t calls_unlock ≡ true
    calls = subst (λ (q : At). at_ok s.word s.waits nobody t q ≡ true) e (threads t)

    own_word : s.word ≡ conflict_by t
    own_word = ground (arith, calls)
ser_unlock_op-Inv t x ready idle s inv h e = inv
ser_unlock_op-Inv t x ready (attempts prev) s inv h e = inv
ser_unlock_op-Inv t x ready (marks prev) s inv h e = inv
ser_unlock_op-Inv t x ready calls_lock s inv h e = inv
ser_unlock_op-Inv t x ready queued s inv h e = inv
ser_unlock_op-Inv t x ready woken s inv h e = inv
ser_unlock_op-Inv t x ready holding s inv h e = inv
ser_unlock_op-Inv t x ready failed s inv h e = inv

word-append :
    (e t : ℕ) (ws : List ℕ)
    → is_conflict e ≡ true
    → word_ok e ws ≡ true
    → word_ok e (ws ++ (t ∷ [])) ≡ true
word-append e t [] c h = ground arith
word-append e t (w ∷ ws) c h = h

-- The thread that ser_lock_op() puts on the list.
enqueue-Inv :
    (t v : ℕ) (s : MtxState)
    → ((u : ℕ) → at_ok v s.waits nobody u (s.at u) ≡ true)
    → is_conflict v ≡ true
    → word_ok v s.waits ≡ true
    → s.from_under ≡ false
    → Inv
        (record s { word = v; ser = ready; waits = s.waits ++ (t ∷ []); at = update s.at t queued })
enqueue-Inv t v s threads c word under = (
  at_one (at_ok v (s.waits ++ (t ∷ [])) nobody) s.at t queued
      (λ (u : ℕ) (differs : (t == u) ≡ false).
        enqueues-ok v s.waits nobody t u (s.at u) (threads u))
      (ground (arith, waits_for-append s.waits t t)),
  refl,
  word-append v t s.waits c word,
  under,
)

pub ser_fn-Inv : (r : Serializer) (s : MtxState) → Inv s → InvAt r s → Inv (ser_fn r s)
unfolding ser_fn
ser_fn-Inv ready s inv h = inv
ser_fn-Inv (exchanging target prev next) s inv (threads, ser, word, under) = (
  at_one (at_ok next s.waits nobody) s.at target (replied (s.at target))
      (λ (u : ℕ) (differs : (target == u) ≡ false).
        exchanged-ok next target u s.waits (s.at u) differs (threads u))
      (replied-ok next target s.waits (s.at target) (threads target)),
  refl,
  word,
  ground arith,
)
ser_fn-Inv (attempting t prev) s inv (threads, ser, word, under) = elim (Bool-cases (prev == 0)) [
  | inl z ↦ rw z (elim (Bool-cases (s.word == 0)) [
    | inl free ↦ rw free (
      at_one (at_ok (locked_by t) s.waits nobody) s.at t woken
          (λ (u : ℕ) (differs : (t == u) ≡ false). locks-ok s.waits nobody t u (s.at u) (
            subst (λ (w : ℕ). at_ok w s.waits nobody u (s.at u) ≡ true) ((==_iff s.word 0).0 free)
              (threads u)))
          (ground arith),
      refl,
      not_waiting s.word (locked_by t) s.waits (ground arith) word (ground arith),
      under,
    )
    | inr taken ↦ rw taken (threads, ground arith, word, under)
  ])
  | inr n ↦ rw n (threads, ground arith, word, under)
]
ser_fn-Inv (marking t prev) s inv (threads, ser, word, under) =
    elim (Bool-cases (is_conflict prev)) [
      | inl c ↦ rw c (enqueue-Inv t s.word s threads (ground arith) word under)
      | inr free ↦ rw free (elim (Bool-cases (s.word == prev)) [
        | inl same ↦ rw same (
            enqueue-Inv t (prev + 2) s
              (λ (u : ℕ). marks-ok prev s.waits nobody u (s.at u) free (
                subst (λ (w : ℕ). at_ok w s.waits nobody u (s.at u) ≡ true)
                  ((==_iff s.word prev).0 same) (threads u)))
              (ground arith)
              (not_waiting prev (prev + 2) s.waits free (prev_word same)
                (marked prev s.waits (ground arith) free (prev_word same)))
              under)
        | inr changed ↦ rw changed (threads, ground arith, word, under)
      ])
    ]
  where
    prev_word : (s.word == prev) ≡ true → word_ok prev s.waits ≡ true
    prev_word same = subst (λ (w : ℕ). word_ok w s.waits ≡ true) ((==_iff s.word prev).0 same) word
