-- ===== src/Mutex/Places.antt =====
-- lib/mtx.c: the places of the threads that the serializer does not move.
use sneks.Base.{ℕ, ◌≡◌, refl, Bool, true, false, ◌||◌, List, [], ◌∷◌, ◌++◌, ◌==◌, arith}
use sneks.Mutex.{
  At, idle, attempts, marks, calls_lock, queued, woken, holding, calls_unlock, failed, conflict_by,
  replied,
}
use sneks.Mutex.Exclusion.{waits_for, at_ok}

abbrev pub nobody : ℕ → Bool
nobody t = false

pub waits_for-append :
    (ws : List ℕ) (t u : ℕ) → waits_for (ws ++ (t ∷ [])) u ≡ (waits_for ws u || (t == u))
unfolding waits_for
waits_for-append [] t u = ground arith
waits_for-append (w ∷ ws) t u = ground (arith, waits_for-append ws t u)

pub enqueues-ok :
    (e : ℕ) (ws : List ℕ) (target : ℕ → Bool) (t u : ℕ) (p : At)
    → at_ok e ws target u p ≡ true
    → at_ok e (ws ++ (t ∷ [])) target u p ≡ true
enqueues-ok e ws target t u idle h = h
enqueues-ok e ws target t u (attempts prev) h = h
enqueues-ok e ws target t u (marks prev) h = h
enqueues-ok e ws target t u calls_lock h = h
enqueues-ok e ws target t u queued h = ground (arith, waits_for-append ws t u)
enqueues-ok e ws target t u woken h = h
enqueues-ok e ws target t u holding h = h
enqueues-ok e ws target t u calls_unlock h = h
enqueues-ok e ws target t u failed h = h

pub hands-ok :
    (t w u : ℕ) (ws : List ℕ) (p : At)
    → (t == u) ≡ false
    → at_ok (conflict_by t) (w ∷ ws) nobody u p ≡ true
    → at_ok (conflict_by w) ws (λ (v : ℕ). w == v) u p ≡ true
unfolding waits_for
hands-ok t w u ws idle c h = h
hands-ok t w u ws (attempts prev) c h = h
hands-ok t w u ws (marks prev) c h = h
hands-ok t w u ws calls_lock c h = h
hands-ok t w u ws queued c h = ground arith
hands-ok t w u ws woken c h = ground arith
hands-ok t w u ws holding c h = ground arith
hands-ok t w u ws calls_unlock c h = ground arith
hands-ok t w u ws failed c h = h

pub wakes-ok :
    (t w u : ℕ) (p : At)
    → (t == u) ≡ false
    → (w == u) ≡ false
    → at_ok (conflict_by t) (w ∷ []) nobody u p ≡ true
    → at_ok (conflict_by w) [] (λ (v : ℕ). t == v) u p ≡ true
unfolding waits_for
wakes-ok t w u idle c d h = h
wakes-ok t w u (attempts prev) c d h = h
wakes-ok t w u (marks prev) c d h = h
wakes-ok t w u calls_lock c d h = h
wakes-ok t w u queued c d h = ground arith
wakes-ok t w u woken c d h = ground arith
wakes-ok t w u holding c d h = ground arith
wakes-ok t w u calls_unlock c d h = ground arith
wakes-ok t w u failed c d h = h

pub frees-ok :
    (t u : ℕ) (p : At)
    → (t == u) ≡ false
    → at_ok (conflict_by t) [] nobody u p ≡ true
    → at_ok 0 [] (λ (v : ℕ). t == v) u p ≡ true
unfolding waits_for
frees-ok t u idle c h = h
frees-ok t u (attempts prev) c h = h
frees-ok t u (marks prev) c h = h
frees-ok t u calls_lock c h = h
frees-ok t u queued c h = ground arith
frees-ok t u woken c h = ground arith
frees-ok t u holding c h = ground arith
frees-ok t u calls_unlock c h = ground arith
frees-ok t u failed c h = h

pub exchanged-ok :
    (e t u : ℕ) (ws : List ℕ) (p : At)
    → (t == u) ≡ false
    → at_ok e ws (λ (v : ℕ). t == v) u p ≡ true
    → at_ok e ws nobody u p ≡ true
exchanged-ok e t u ws idle c h = h
exchanged-ok e t u ws (attempts prev) c h = h
exchanged-ok e t u ws (marks prev) c h = h
exchanged-ok e t u ws calls_lock c h = h
exchanged-ok e t u ws queued c h = ground arith
exchanged-ok e t u ws woken c h = h
exchanged-ok e t u ws holding c h = h
exchanged-ok e t u ws calls_unlock c h = ground arith
exchanged-ok e t u ws failed c h = h

pub replied-ok :
    (e t : ℕ) (ws : List ℕ) (p : At)
    → at_ok e ws (λ (v : ℕ). t == v) t p ≡ true
    → at_ok e ws nobody t (replied p) ≡ true
replied-ok e t ws idle h = h
replied-ok e t ws (attempts prev) h = h
replied-ok e t ws (marks prev) h = h
replied-ok e t ws calls_lock h = h
replied-ok e t ws queued h = ground arith
replied-ok e t ws woken h = h
replied-ok e t ws holding h = h
replied-ok e t ws calls_unlock h = refl
replied-ok e t ws failed h = h
