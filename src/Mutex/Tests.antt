-- ===== src/Mutex/Tests.antt =====
-- Two threads and the serializer at one mutex.
use sneks.Base.{ℕ, ◌≡◌, ◌≢◌, refl, true, false, List, [], ◌∷◌, ◌++◌}
use sneks.Mutex.{
  queued, holding, failed, mtx_init, mtx_lock, mtx_unlock, resume, take_lock, hand_over,
  ser_unlock_op, ser_fn, Step, lock, unlock, resumes, takes_lock, takes_unlock, serializes,
  take_step, interleave,
}
use sneks.Mutex.Exclusion.{settled}
use sneks.Mutex.Exclusive.{Sleeps, interleave-excludes, interleave-Sleeps}
use sneks.Mutex.Undisturbed.{is_undisturbed, interleave-asserts}

-- Thread 1 is inside and thread 2 sleeps.
abbrev contended : List Step
contended =
    lock 1
    ∷ (resumes 1
        ∷ (lock 2 ∷ (resumes 2 ∷ (resumes 2 ∷ (takes_lock 2 ∷ (serializes ∷ (serializes ∷ [])))))))

-- Thread 1 unlocks and thread 2 goes inside.
abbrev handed : List Step
handed = contended ++ (unlock 1 ∷ (takes_unlock 1 false ∷ (serializes ∷ (resumes 2 ∷ []))))

handed_inside : (interleave handed mtx_init).at 2 ≡ holding
unfolding interleave take_step mtx_init mtx_lock mtx_unlock resume take_lock hand_over ser_unlock_op
    ser_fn
handed_inside = refl

contended_sleeps : (interleave contended mtx_init).at 2 ≡ queued
unfolding interleave take_step mtx_init mtx_lock mtx_unlock resume take_lock hand_over ser_unlock_op
    ser_fn
contended_sleeps = refl

handed_undisturbed : is_undisturbed handed mtx_init ≡ true
unfolding is_undisturbed take_step mtx_init mtx_lock mtx_unlock resume take_lock hand_over
    ser_unlock_op ser_fn
handed_undisturbed = refl

-- Without a waiting thread nothing is replied to, and another thread may run before the exchange.
free_undisturbed :
    is_undisturbed
      (lock 1
        ∷ (resumes 1
            ∷ (lock 2
                ∷ (resumes 2
                    ∷ (resumes 2
                        ∷ (unlock 1 ∷ (takes_unlock 1 false ∷ (lock 3 ∷ (serializes ∷ [])))))))))
      mtx_init
    ≡ true
unfolding is_undisturbed take_step mtx_init mtx_lock mtx_unlock resume take_lock hand_over
    ser_unlock_op ser_fn
free_undisturbed = refl

interleave-excludes_example : ◌≡◌ {A = ℕ} 2 2
interleave-excludes_example = interleave-excludes handed 2 2 handed_inside handed_inside

interleave-Sleeps_example :
    Sleeps 2
      (settled (interleave contended mtx_init).word (interleave contended mtx_init).ser)
      (interleave contended mtx_init).ser
      (interleave contended mtx_init).waits
interleave-Sleeps_example = interleave-Sleeps contended 2 contended_sleeps

interleave-asserts_example : (interleave handed mtx_init).at 1 ≢ failed
interleave-asserts_example = interleave-asserts handed 1 handed_undisturbed

-- A thread that runs as soon as it is replied to finds the word of the thread before it.
woken_early :
    (interleave (contended ++ (unlock 1 ∷ (takes_unlock 1 false ∷ (resumes 2 ∷ [])))) mtx_init).at 2
    ≡ failed
unfolding interleave take_step mtx_init mtx_lock mtx_unlock resume take_lock hand_over ser_unlock_op
    ser_fn
woken_early = refl
