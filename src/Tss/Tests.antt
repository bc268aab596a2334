-- ===== src/Tss/Tests.antt =====
-- Keys and values of one thread.
use sneks.Base.{ℕ, ◌≡◌, refl, ◌↔◌, true, some, [], ◌∷◌, ◌==◌, ◌&&◌, leb, if◌then◌else◌}
use sneks.Tss.{free_key, create_at, tss_create, tss_get, tss_set}
use sneks.Tss.Keys.{tss_create-again}
use sneks.Tss.Values.{is_wf, tss_get-set}

-- Key 1 is in use.
abbrev one_used : ℕ → ℕ
one_used j = if j == 1 then 4096 else 0

second_key : (tss_create 0 one_used).0 ≡ some 2
unfolding tss_create create_at free_key
second_key = refl

tss_create-again_example :
    ((tss_create 8192 (tss_create 0 one_used).1).0 ≡ some 2) ↔ (◌≡◌ {A = ℕ} 0 0)
tss_create-again_example = tss_create-again 0 8192 2 one_used second_key

tss_get-set_example :
    (tss_get 3 (tss_set 5 77 (some (record { max = 3; ptrs = 0 ∷ (0 ∷ (0 ∷ (9 ∷ []))) }))) ≡ (
      if 3 == 5 && (leb 1 5 && leb 5 15)
      then 77
      else tss_get 3 (some (record { max = 3; ptrs = 0 ∷ (0 ∷ (0 ∷ (9 ∷ []))) }))))
    × (is_wf (tss_set 5 77 (some (record { max = 3; ptrs = 0 ∷ (0 ∷ (0 ∷ (9 ∷ []))) }))) ≡ true)
tss_get-set_example =
    tss_get-set 5 77 3 (some (record { max = 3; ptrs = 0 ∷ (0 ∷ (0 ∷ (9 ∷ []))) })) refl
