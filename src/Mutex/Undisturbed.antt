-- ===== src/Mutex/Undisturbed.antt =====
-- lib/mtx.c: the asserts of mtx_lock() and mtx_unlock().
use sneks.Base.{ℕ, zero, suc, ◌≡◌, refl, ◌≢◌, Bool, true, false, not, ◌&&◌, List, [], ◌∷◌, arith}
use mathlib.Core.Path.{subst}
use sneks.Mutex.{
  At, idle, attempts, marks, calls_lock, queued, woken, holding, calls_unlock, failed, Serializer,
  ready, attempting, marking, exchanging, MtxState, mtx_init, Step, lock, trylock, unlock, resumes,
  takes_lock, takes_unlock, serializes, take_step, interleave,
}
use sneks.Mutex.Exclusion.{settled, is_target, at_ok, owns, word_ok, Inv}
use sneks.Mutex.Exclusive.{init-Inv, take_step-Inv}
use sneks.Mutex.Asserts.{
  is_fine, Fine, has_replied, promised, mtx_lock-Fine, mtx_trylock-Fine, mtx_unlock-Fine,
  resume-Fine, take_lock-Fine, ser_unlock_op-Fine, ser_fn-Fine,
}

shape : (w : ℕ) (ws : List ℕ) → word_ok w ws ≡ true → word_ok w [] ≡ true
shape w [] h = h
shape w (v ∷ ws) h = ground arith

owner_promised : (w t : ℕ) → word_ok w [] ≡ true → owns w t ≡ true → promised w t holding ≡ true
owner_promised w t h o = ground arith

promise :
    (w t : ℕ) (ws : List ℕ) (target : ℕ → Bool) (p : At)
    → word_ok w ws ≡ true
    → at_ok w ws target t p ≡ true
    → promised w t p ≡ true
promise w t ws target idle h k = refl
promise w t ws target (attempts prev) h k = refl
promise w t ws target (marks prev) h k = refl
promise w t ws target calls_lock h k = refl
promise w t ws target queued h k = refl
promise w t ws target woken h k = ground arith
promise w t ws target holding h k = owner_promised w t (shape w ws h) k
promise w t ws target calls_unlock h k = refl
promise w t ws target failed h k = refl

-- Where the next word is 0, nobody is inside or has been woken.
promise_free :
    (w t : ℕ) (ws : List ℕ) (target : ℕ → Bool) (p : At)
    → at_ok 0 ws target t p ≡ true
    → promised w t p ≡ true
promise_free w t ws target idle k = refl
promise_free w t ws target (attempts prev) k = refl
promise_free w t ws target (marks prev) k = refl
promise_free w t ws target calls_lock k = refl
promise_free w t ws target queued k = refl
promise_free w t ws target woken k = absurd (ground arith)
promise_free w t ws target holding k = absurd (ground arith)
promise_free w t ws target calls_unlock k = refl
promise_free w t ws target failed k = refl

promises_by :
    (w t : ℕ) (ws : List ℕ) (r : Serializer) (p : At)
    → has_replied r ≡ false
    → word_ok (settled w r) ws ≡ true
    → at_ok (settled w r) ws (is_target r) t p ≡ true
    → promised w t p ≡ true
promises_by w t ws ready p calm h k = promise w t ws (is_target ready) p h k
promises_by w t ws (attempting u prev) p calm h k =
    promise w t ws (is_target (attempting u prev)) p h k
promises_by w t ws (marking u prev) p calm h k = promise w t ws (is_target (marking u prev)) p h k
promises_by w t ws (exchanging target prev zero) p calm h k =
    promise_free w t ws (is_target (exchanging target prev zero)) p k
promises_by w t ws (exchanging target prev (suc n)) p calm h k = absurd (ground arith)

promises :
    (s : MtxState) (t : ℕ) → Inv s → has_replied s.ser ≡ false → promised s.word t (s.at t) ≡ true
promises s t inv calm = promises_by s.word t s.waits s.ser (s.at t) calm inv.2 (inv.0 t)

-- Whether nobody runs between a reply of ser_unlock_op() and its exchange.
unfoldable pub is_undisturbed : List Step → MtxState → Bool
is_undisturbed [] s = true
is_undisturbed (serializes ∷ more) s = is_undisturbed more (take_step serializes s)
is_undisturbed (lock t ∷ more) s =
    not (has_replied s.ser) && is_undisturbed more (take_step (lock t) s)
is_undisturbed (trylock t ∷ more) s =
    not (has_replied s.ser) && is_undisturbed more (take_step (trylock t) s)
is_undisturbed (unlock t ∷ more) s =
    not (has_replied s.ser) && is_undisturbed more (take_step (unlock t) s)
is_undisturbed (resumes t ∷ more) s =
    not (has_replied s.ser) && is_undisturbed more (take_step (resumes t) s)
is_undisturbed (takes_lock t ∷ more) s = is_undisturbed more (take_step (takes_lock t) s)
is_undisturbed (takes_unlock t x ∷ more) s = is_undisturbed more (take_step (takes_unlock t x) s)

stays-Fine :
    (steps : List Step) (s : MtxState)
    → is_undisturbed steps s ≡ true
    → Inv s
    → Fine s.at
    → Fine (interleave steps s).at
unfolding is_undisturbed interleave take_step
stays-Fine [] s h inv fine = fine
stays-Fine (serializes ∷ more) s h inv fine =
    stays-Fine more _ h (take_step-Inv serializes s inv) (ser_fn-Fine s.ser s fine)
stays-Fine (lock t ∷ more) s h inv fine =
    stays-Fine more _ (ground arith) (take_step-Inv (lock t) s inv)
      (mtx_lock-Fine t (s.at t) s fine)
stays-Fine (trylock t ∷ more) s h inv fine =
    stays-Fine more _ (ground arith) (take_step-Inv (trylock t) s inv)
      (mtx_trylock-Fine t (s.at t) s fine)
stays-Fine (unlock t ∷ more) s h inv fine =
    stays-Fine more _ (ground arith) (take_step-Inv (unlock t) s inv)
      (mtx_unlock-Fine t (s.at t) s (promises s t inv (ground arith)) fine)
stays-Fine (resumes t ∷ more) s h inv fine =
    stays-Fine more _ (ground arith) (take_step-Inv (resumes t) s inv)
      (resume-Fine t (s.at t) s (promises s t inv (ground arith)) fine)
stays-Fine (takes_lock t ∷ more) s h inv fine =
    stays-Fine more _ h (take_step-Inv (takes_lock t) s inv)
      (take_lock-Fine t s.ser (s.at t) s fine)
stays-Fine (takes_unlock t x ∷ more) s h inv fine =
    stays-Fine more _ h (take_step-Inv (takes_unlock t x) s inv)
      (ser_unlock_op-Fine t x s.ser (s.at t) s fine)

init-Fine : Fine mtx_init.at
unfolding mtx_init
init-Fine t = refl

failed_no : (p : At) → is_fine p ≡ true → p ≢ failed
failed_no p ok e = ground (arith, subst (λ (q : At). is_fine q ≡ true) e ok)

-- In every sequence of steps from a new mutex in which no thread runs between a reply of
-- ser_unlock_op() and the exchange that follows it, no assert of mtx_lock() or mtx_unlock() fails.
pub interleave-asserts :
    (steps : List Step) (t : ℕ)
    → is_undisturbed steps mtx_init ≡ true
    → (interleave steps mtx_init).at t ≢ failed
interleave-asserts steps t h =
    failed_no ((interleave steps mtx_init).at t) (stays-Fine steps mtx_init h init-Inv init-Fine t)
