-- ===== src/Tss/Values.antt =====
-- lib/tss.c: the values of one thread.
use sneks.Base.{
  ℕ, Bool, zero, suc, ◌+◌, ◌-◌, ◌≤◌, ◌<◌, ◌≡◌, refl, sym, ◌∙◌, true, false, ◌||◌, Option, none,
  some, List, [], ◌∷◌, ◌++◌, ◌==◌, ltb, if◌then◌else◌, length, get_or, set, arith, Bool-cases, inl,
  inr, length-append, length-set, leb, ◌&&◌, ap,
}
use sneks.Tss.{Tss, nulls, tss_get, grow, store_value, tss_set}

-- The table has a pointer for each key up to `max`.
abbrev pub is_wf : Option Tss → Bool
is_wf none = true
is_wf (some t) = length t.ptrs == t.max + 1

get_or-set :
    (xs : List ℕ) (i j v : ℕ)
    → i < length xs
    → get_or (set xs i v) j 0 ≡ (if j == i then v else get_or xs j 0)
get_or-set [] i j v h = absurd (omega arith)
get_or-set (x ∷ xs) zero zero v h = refl
get_or-set (x ∷ xs) zero (suc j) v h = ground arith
get_or-set (x ∷ xs) (suc i) zero v h = ground arith
get_or-set (x ∷ xs) (suc i) (suc j) v h = get_or-set xs i j v (omega arith) ∙ ground arith

get_or-zeros : (n j : ℕ) → get_or (nulls n) j 0 ≡ 0
get_or-zeros zero j = refl
get_or-zeros (suc n) zero = refl
get_or-zeros (suc n) (suc j) = get_or-zeros n j

get_or-append_zeros : (xs : List ℕ) (n j : ℕ) → get_or (xs ++ nulls n) j 0 ≡ get_or xs j 0
get_or-append_zeros [] n j = get_or-zeros n j
get_or-append_zeros (x ∷ xs) n zero = refl
get_or-append_zeros (x ∷ xs) n (suc j) = get_or-append_zeros xs n j

get_or-past : (xs : List ℕ) (j : ℕ) → length xs ≤ j → get_or xs j 0 ≡ 0
get_or-past [] j h = refl
get_or-past (x ∷ xs) zero h = absurd (omega arith)
get_or-past (x ∷ xs) (suc j) h = get_or-past xs j (omega arith)

length-zeros : (n : ℕ) → length (nulls n) ≡ n
length-zeros zero = refl
length-zeros (suc n) = omega (arith, length-zeros n)

length-grow : (key : ℕ) (xs : List ℕ) → length xs ≤ key → length (grow key xs) ≡ key + 1
unfolding grow
length-grow key xs h =
    omega
      (arith, length-append xs (nulls (key + 1 - length xs)), length-zeros (key + 1 - length xs))

grow_get : (key j : ℕ) (xs : List ℕ) → get_or (grow key xs) j 0 ≡ get_or xs j 0
unfolding grow
grow_get key j xs = get_or-append_zeros xs (key + 1 - length xs) j

-- A read of the table, where what is past its end is null.
get_plain : (j : ℕ) (t : Tss) → is_wf (some t) ≡ true → tss_get j (some t) ≡ get_or t.ptrs j 0
unfolding tss_get
get_plain j t wf = elim (Bool-cases (ltb t.max j)) [
  | inl past ↦ rw past (sym (get_or-past t.ptrs j (ground arith)))
  | inr within ↦ rw within refl
]

-- A write of a table that reaches the key.
write_get :
    (key j v m : ℕ) (xs : List ℕ)
    → length xs ≡ m + 1
    → key < length xs
    → tss_get j (some (record { max = m; ptrs = set xs key v }))
      ≡ (if j == key then v else get_or xs j 0)
write_get key j v m xs wf h =
    get_plain j (record { max = m; ptrs = set xs key v }) (ground (arith, length-set xs key v))
    ∙ get_or-set xs key j v h

none_get : (j : ℕ) → get_or [] j 0 ≡ tss_get j none
unfolding tss_get
none_get j = refl

store_value-get :
    (key value j : ℕ) (t : Option Tss)
    → is_wf t ≡ true
    → tss_get j (store_value key value t) ≡ (if j == key then value else tss_get j t)
unfolding store_value
store_value-get key value j none wf =
    write_get key j value key (grow key []) (length-grow key [] (omega arith))
      (omega (arith, length-grow key [] (omega arith)))
    ∙ ap (λ (v : ℕ). if j == key then value else v) (grow_get key j [] ∙ none_get j)
store_value-get key value j (some t) wf = elim (Bool-cases (ltb t.max key)) [
  | inl past ↦ rw past (
      write_get key j value key (grow key t.ptrs) (length-grow key t.ptrs (ground arith))
        (omega (arith, length-grow key t.ptrs (ground arith)))
      ∙ ap (λ (v : ℕ). if j == key then value else v)
          (grow_get key j t.ptrs ∙ sym (get_plain j t wf)))
  | inr within ↦ rw within (
      write_get key j value t.max t.ptrs (ground arith) (ground arith)
      ∙ ap (λ (v : ℕ). if j == key then value else v) (sym (get_plain j t wf)))
]

store_value-wf :
    (key value : ℕ) (t : Option Tss) → is_wf t ≡ true → is_wf (store_value key value t) ≡ true
unfolding store_value
store_value-wf key value none wf =
    ground (arith, length-set (grow key []) key value, length-grow key [] (omega arith))
store_value-wf key value (some t) wf = elim (Bool-cases (ltb t.max key)) [
  | inl past ↦ rw past (
      ground (arith, length-set (grow key t.ptrs) key value, length-grow key t.ptrs (ground arith)))
  | inr within ↦ rw within (ground (arith, length-set t.ptrs key value))
]

-- After tss_set() of a thread whose table has a pointer for each key up to its maximum, tss_get()
-- gives the value for the key, if it is from 1 to 15, and what it gave before for any other; the
-- table has a pointer for each key up to its maximum.
pub tss_get-set :
    (key value j : ℕ) (t : Option Tss)
    → is_wf t ≡ true
    → (tss_get j (tss_set key value t)
        ≡ (if j == key && (leb 1 key && leb key 15) then value else tss_get j t))
      × (is_wf (tss_set key value t) ≡ true)
unfolding tss_set
tss_get-set key value j t wf = elim (Bool-cases (key == 0 || ltb 15 key)) [
  | inl bad ↦ rw (bad, out key bad) (ground arith)
  | inr good ↦
      rw (good, inside key good)
        (ground (arith, store_value-get key value j t wf, store_value-wf key value t wf))
]
  where
    out : (key : ℕ) → (key == 0 || ltb 15 key) ≡ true → (leb 1 key && leb key 15) ≡ false
    out key h = ground arith

    inside : (key : ℕ) → (key == 0 || ltb 15 key) ≡ false → (leb 1 key && leb key 15) ≡ true
    inside key h = ground arith
