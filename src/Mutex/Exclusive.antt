-- ===== src/Mutex/Exclusive.antt =====
-- lib/mtx.c: mutual exclusion, and the list, in every order of steps.
use sneks.Base.{ℕ, ◌%◌, ◌≡◌, refl, true, List, [], ◌∷◌, ◌==◌, if◌then◌else◌, arith}
use mathlib.Core.Path.{subst}
use sneks.Mutex.{
  At, queued, holding, Serializer, MtxState, conflict_by, mtx_init, Step, lock, trylock, unlock,
  resumes, takes_lock, takes_unlock, serializes, take_step, interleave,
}
use sneks.Mutex.Exclusion.{settled, is_target, waits_for, owns, at_ok, word_ok, Inv}
use sneks.Mutex.Threads.{mtx_lock-Inv, mtx_trylock-Inv, mtx_unlock-Inv, resume-Inv}
use sneks.Mutex.Handover.{take_lock-Inv, ser_unlock_op-Inv, ser_fn-Inv}

pub init-Inv : Inv mtx_init
unfolding mtx_init
init-Inv = ((λ (t : ℕ). refl), refl, refl, refl)

pub take_step-Inv : (a : Step) (s : MtxState) → Inv s → Inv (take_step a s)
unfolding take_step
take_step-Inv (lock t) s inv = mtx_lock-Inv t (s.at t) s inv
take_step-Inv (trylock t) s inv = mtx_trylock-Inv t (s.at t) s inv
take_step-Inv (unlock t) s inv = mtx_unlock-Inv t (s.at t) s inv (inv.0 t)
take_step-Inv (resumes t) s inv = resume-Inv t (s.at t) s inv (inv.0 t)
take_step-Inv (takes_lock t) s inv = take_lock-Inv t s.ser (s.at t) s inv inv
take_step-Inv (takes_unlock t x) s inv = ser_unlock_op-Inv t x s.ser (s.at t) s inv inv refl
take_step-Inv serializes s inv = ser_fn-Inv s.ser s inv inv

pub interleave-Inv : (steps : List Step) (s : MtxState) → Inv s → Inv (interleave steps s)
unfolding interleave
interleave-Inv [] s inv = inv
interleave-Inv (a ∷ more) s inv = interleave-Inv more (take_step a s) (take_step-Inv a s inv)

owner_of : (s : MtxState) (t : ℕ) → Inv s → s.at t ≡ holding → owns (settled s.word s.ser) t ≡ true
owner_of s t inv e =
    subst (λ (p : At). at_ok (settled s.word s.ser) s.waits (is_target s.ser) t p ≡ true) e
      (inv.0 t)

one_owner : (e t u : ℕ) → owns e t ≡ true → owns e u ≡ true → t ≡ u
one_owner e t u h k = ground arith

-- In every sequence of steps of threads and the serializer from a new mutex, two threads that are
-- inside are the same.
pub interleave-excludes :
    (steps : List Step) (t u : ℕ)
    → (interleave steps mtx_init).at t ≡ holding
    → (interleave steps mtx_init).at u ≡ holding
    → t ≡ u
interleave-excludes steps t u e f =
    let inv = interleave-Inv steps mtx_init init-Inv in
    one_owner (settled (interleave steps mtx_init).word (interleave steps mtx_init).ser) t u
      (owner_of (interleave steps mtx_init) t inv e) (owner_of (interleave steps mtx_init) u inv f)

-- A sleeping thread, by the word as it is once the exchange that the serializer is about to make is
-- done: it is on the list, or is about to be replied to and owns the mutex, which is locked with CONFLICT.
abbrev pub Sleeps : ℕ → (e : ℕ) → Serializer → List ℕ → Type 0
Sleeps t e r ws =
    (e % 64 ≡ 3) × ((if is_target r t then e == conflict_by t else waits_for ws t) ≡ true)

sleeps :
    (t e : ℕ) (r : Serializer) (ws : List ℕ)
    → word_ok e ws ≡ true
    → at_ok e ws (is_target r) t queued ≡ true
    → Sleeps t e r ws
unfolding waits_for
sleeps t e r [] shape h = ground arith
sleeps t e r (w ∷ ws) shape h = (ground arith, h)

-- In every sequence of steps from a new mutex, a thread that sleeps in mtx_lock() sleeps on a
-- mutex that is locked with CONFLICT, and is on its list or is its owner, about to be replied to,
-- by the word as the serializer leaves it.
pub interleave-Sleeps :
    (steps : List Step) (t : ℕ)
    → (interleave steps mtx_init).at t ≡ queued
    → Sleeps t
        (settled (interleave steps mtx_init).word (interleave steps mtx_init).ser)
        (interleave steps mtx_init).ser
        (interleave steps mtx_init).waits
interleave-Sleeps steps t e =
    let s = interleave steps mtx_init in
    let inv = interleave-Inv steps mtx_init init-Inv in
    sleeps t (settled s.word s.ser) s.ser s.waits inv.2 (
      subst (λ (p : At). at_ok (settled s.word s.ser) s.waits (is_target s.ser) t p ≡ true) e
        (inv.0 t))
