-- ===== src/Sysmsg/Order.antt =====
-- sys/msg/sysmsg.c: the records of a broadcast are sorted by process ID, and each stays once.
use sneks.Base.{
  ℕ, suc, ◌≤◌, ◌≡◌, refl, Bool, true, false, ◌&&◌, ◌||◌, List, [], ◌∷◌, ◌==◌, leb, arith,
}
use sneks.Sysmsg.Clients.{insert_pid, qsort, uniq_after, uniq}

unfoldable pub mem : ℕ → List ℕ → Bool
mem p [] = false
mem p (q ∷ qs) = q == p || mem p qs

-- Every element of the list is at least, or more than, a number.
unfoldable pub all_from : ℕ → List ℕ → Bool
all_from a [] = true
all_from a (q ∷ qs) = leb a q && all_from a qs

unfoldable pub is_sorted : List ℕ → Bool
is_sorted [] = true
is_sorted (p ∷ ps) = all_from p ps && is_sorted ps

unfoldable pub is_increasing : List ℕ → Bool
is_increasing [] = true
is_increasing (p ∷ ps) = all_from (suc p) ps && is_increasing ps

mem-insert_pid : (p q : ℕ) (qs : List ℕ) → mem p (insert_pid q qs) ≡ q == p || mem p qs
unfolding mem insert_pid
mem-insert_pid p q [] = refl
mem-insert_pid p q (r ∷ qs) = ground (arith, mem-insert_pid p q qs)

pub mem-qsort : (p : ℕ) (ps : List ℕ) → mem p (qsort ps) ≡ mem p ps
unfolding mem qsort
mem-qsort p [] = refl
mem-qsort p (q ∷ ps) = ground (arith, mem-insert_pid p q (qsort ps), mem-qsort p ps)

all_from-insert_pid :
    (a q : ℕ) (qs : List ℕ) → all_from a (insert_pid q qs) ≡ leb a q && all_from a qs
unfolding all_from insert_pid
all_from-insert_pid a q [] = refl
all_from-insert_pid a q (r ∷ qs) = ground (arith, all_from-insert_pid a q qs)

all_from_le : (a b : ℕ) (qs : List ℕ) → a ≤ b → all_from b qs ≡ true → all_from a qs ≡ true
unfolding all_from
all_from_le a b [] h e = refl
all_from_le a b (q ∷ qs) h e = ground (arith, all_from_le a b qs)

is_sorted-insert_pid :
    (q : ℕ) (qs : List ℕ) → is_sorted qs ≡ true → is_sorted (insert_pid q qs) ≡ true
unfolding is_sorted insert_pid all_from
is_sorted-insert_pid q [] e = refl
is_sorted-insert_pid q (r ∷ qs) e =
    ground (arith, is_sorted-insert_pid q qs, all_from-insert_pid r q qs, all_from_le q r qs)

pub is_sorted-qsort : (ps : List ℕ) → is_sorted (qsort ps) ≡ true
unfolding qsort is_sorted
is_sorted-qsort [] = refl
is_sorted-qsort (p ∷ ps) = is_sorted-insert_pid p (qsort ps) (is_sorted-qsort ps)

mem-uniq_after :
    (p last : ℕ) (ps : List ℕ) → (last == p || mem p (uniq_after last ps)) ≡ (last == p || mem p ps)
unfolding mem uniq_after
mem-uniq_after p last [] = refl
mem-uniq_after p last (q ∷ ps) = ground (arith, mem-uniq_after p q ps)

pub mem-uniq : (p : ℕ) (ps : List ℕ) → mem p (uniq ps) ≡ mem p ps
unfolding mem uniq
mem-uniq p [] = refl
mem-uniq p (q ∷ ps) = mem-uniq_after p q ps

uniq_after-increasing :
    (last : ℕ) (ps : List ℕ)
    → all_from last ps ≡ true
    → is_sorted ps ≡ true
    → (all_from (suc last) (uniq_after last ps) ≡ true)
      × (is_increasing (uniq_after last ps) ≡ true)
unfolding uniq_after is_sorted is_increasing all_from
uniq_after-increasing last [] low sorted = (refl, refl)
uniq_after-increasing last (q ∷ ps) low sorted =
    ground (arith, uniq_after-increasing q ps, all_from_le (suc last) (suc q) (uniq_after q ps))

pub is_increasing-uniq : (ps : List ℕ) → is_sorted ps ≡ true → is_increasing (uniq ps) ≡ true
unfolding uniq is_sorted is_increasing
is_increasing-uniq [] sorted = refl
is_increasing-uniq (p ∷ ps) sorted = ground (arith, uniq_after-increasing p ps)
