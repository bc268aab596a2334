-- ===== src/Environ/Table.antt =====
-- lib/env.c: keys and strings in the hash table.
use sneks.Base.{
  ℕ, zero, suc, ◌+◌, ◌≤◌, ◌≡◌, refl, ap, Bool, true, false, ◌&&◌, Option, none, some, List, [], ◌∷◌,
  ◌++◌, ◌==◌, if◌then◌else◌, take, drop, get_or, returns, arith, Bool-cases, inl, inr, ==_iff,
}
use sneks.Environ.{
  Str, EnvStr, bytes_eq, cmp_envstr_key, find_key, entry_at, htable_del, value_of, get_from,
  addr_at,
}

pub bytes_eq→eq : (xs ys : List ℕ) → bytes_eq xs ys ≡ true → xs ≡ ys
unfolding bytes_eq
bytes_eq→eq [] [] h = refl
bytes_eq→eq [] (y ∷ ys) h = ground arith
bytes_eq→eq (x ∷ xs) [] h = ground arith
bytes_eq→eq (x ∷ xs) (y ∷ ys) h = heads (ground arith) (bytes_eq→eq xs ys (ground arith))
  where
    heads : (x == y) ≡ true → xs ≡ ys → (x ∷ xs) ≡ (y ∷ ys)
    heads e f = cc ((==_iff x y).0 e, f)

pub bytes_eq_refl : (xs : List ℕ) → bytes_eq xs xs ≡ true
unfolding bytes_eq
bytes_eq_refl [] = refl
bytes_eq_refl (x ∷ xs) = ground (arith, bytes_eq_refl xs)

-- An entry of a key has another key exactly if the keys are equal.
pub key_of :
    (e : EnvStr) (n m : List ℕ) → cmp_envstr_key e n ≡ true → cmp_envstr_key e m ≡ bytes_eq n m
unfolding cmp_envstr_key
key_of e n m h = ap (λ (k : List ℕ). bytes_eq k m) (bytes_eq→eq (take e.keylen e.str.text) n h)

-- The value that the table has for a key.
unfoldable pub lookup : List ℕ → List EnvStr → Option (List ℕ)
lookup key [] = none
lookup key (e ∷ es) =
    let rest = lookup key es in
    if cmp_envstr_key e key then some (drop (e.keylen + 1) e.str.text) else rest

abbrev pub one_if : Bool → ℕ
one_if true = 1
one_if false = 0

unfoldable pub count_key : List ℕ → List EnvStr → ℕ
count_key key [] = 0
count_key key (e ∷ es) = one_if (cmp_envstr_key e key) + count_key key es

unfoldable pub count_entries : ℕ → List EnvStr → ℕ
count_entries a [] = 0
count_entries a (e ∷ es) = one_if (e.str.addr == a) + count_entries a es

unfoldable pub count_addr : ℕ → List Str → ℕ
count_addr a [] = 0
count_addr a (x ∷ xs) = one_if (x.addr == a) + count_addr a xs

-- Whether each entry has '=' after its key.
unfoldable pub all_good : List EnvStr → Bool
all_good [] = true
all_good (e ∷ es) = get_or e.str.text e.keylen 0 == b'=' && all_good es

-- The place of the first entry for a key.
abbrev pub IsAt : List ℕ → ℕ → List EnvStr → Type 0
IsAt n i [] = false ≡ true
IsAt n zero (e ∷ es) = cmp_envstr_key e n ≡ true
IsAt n (suc i) (e ∷ es) = (cmp_envstr_key e n ≡ false) × IsAt n i es

-- What find_key() gives.
abbrev pub Found : List ℕ → List EnvStr → Option ℕ → Type 0
Found n es none = (count_key n es ≡ 0) × (lookup n es ≡ none)
Found n es (some i) = IsAt n i es

later :
    (n : List ℕ) (e : EnvStr) (es : List EnvStr) (o : Option ℕ)
    → cmp_envstr_key e n ≡ false
    → Found n es o
    → Found n (e ∷ es) (elim o [ none ↦ none | some i ↦ some (suc i) ])
unfolding count_key lookup
later n e es none h (count, empty) = rw h (omega (arith, count), empty)
later n e es (some i) h found = (h, found)

pub find_key-Found : (n : List ℕ) (es : List EnvStr) → Found n es (find_key n es)
unfolding find_key count_key lookup
find_key-Found n [] = (refl, refl)
find_key-Found n (e ∷ es) = elim (Bool-cases (cmp_envstr_key e n)) [
  | inl here ↦ rw here here
  | inr skip ↦ rw skip (later n e es (find_key n es) skip (find_key-Found n es))
]

-- Appending an entry.
pub count_key-append :
    (n : List ℕ) (es : List EnvStr) (e : EnvStr)
    → count_key n (es ++ (e ∷ [])) ≡ count_key n es + one_if (cmp_envstr_key e n)
unfolding count_key
count_key-append n [] e = omega arith
count_key-append n (x ∷ es) e = omega (arith, count_key-append n es e)

pub count_entries-append :
    (a : ℕ) (es : List EnvStr) (e : EnvStr)
    → count_entries a (es ++ (e ∷ [])) ≡ count_entries a es + one_if (e.str.addr == a)
unfolding count_entries
count_entries-append a [] e = omega arith
count_entries-append a (x ∷ es) e = omega (arith, count_entries-append a es e)

pub count_addr-append :
    (a : ℕ) (xs : List Str) (y : Str)
    → count_addr a (xs ++ (y ∷ [])) ≡ count_addr a xs + one_if (y.addr == a)
unfolding count_addr
count_addr-append a [] y = omega arith
count_addr-append a (x ∷ xs) y = omega (arith, count_addr-append a xs y)

pub all_good-append :
    (es : List EnvStr) (e : EnvStr)
    → all_good es ≡ true
    → (get_or e.str.text e.keylen 0 == b'=') ≡ true
    → all_good (es ++ (e ∷ [])) ≡ true
unfolding all_good
all_good-append [] e h k = ground arith
all_good-append (x ∷ es) e h k = ground (arith, all_good-append es e (ground arith) k)

pub lookup-append :
    (n : List ℕ) (es : List EnvStr) (e : EnvStr)
    → count_key n (es ++ (e ∷ [])) ≤ 1
    → lookup n (es ++ (e ∷ []))
      ≡ (if cmp_envstr_key e n then some (drop (e.keylen + 1) e.str.text) else lookup n es)
unfolding lookup count_key
lookup-append n [] e h = refl
lookup-append n (x ∷ es) e h = elim (Bool-cases (cmp_envstr_key x n)) [
  | inl here ↦ rw (here, last_no (ground arith)) refl
  | inr skip ↦ rw skip (lookup-append n es e (ground arith))
]
  where
    last_no : count_key n (es ++ (e ∷ [])) ≤ 0 → cmp_envstr_key e n ≡ false
    last_no k = ground (arith, count_key-append n es e)

-- Taking out the entry for a key.
pub count_key-del :
    (n m : List ℕ) (i : ℕ) (es : List EnvStr)
    → IsAt n i es
    → count_key m (htable_del i es) + one_if (bytes_eq n m) ≡ count_key m es
unfolding count_key htable_del
count_key-del n m i [] h = ground arith
count_key-del n m zero (e ∷ es) h = rw (key_of e n m h) (omega arith)
count_key-del n m (suc i) (e ∷ es) (skip, h) = omega (arith, count_key-del n m i es h)

pub count_entries-del :
    (n : List ℕ) (a i : ℕ) (es : List EnvStr)
    → IsAt n i es
    → count_entries a (htable_del i es) + one_if (addr_at i es == a) ≡ count_entries a es
unfolding count_entries htable_del
count_entries-del n a i [] h = ground arith
count_entries-del n a zero (e ∷ es) h = omega arith
count_entries-del n a (suc i) (e ∷ es) (skip, h) = omega (arith, count_entries-del n a i es h)

pub all_good-del :
    (n : List ℕ) (i : ℕ) (es : List EnvStr)
    → IsAt n i es
    → all_good es ≡ true
    → all_good (htable_del i es) ≡ true
unfolding all_good htable_del
all_good-del n i [] h good = ground arith
all_good-del n zero (e ∷ es) h good = ground arith
all_good-del n (suc i) (e ∷ es) (skip, h) good =
    ground (arith, all_good-del n i es h (ground arith))

pub lookup-del_other :
    (n m : List ℕ) (i : ℕ) (es : List EnvStr)
    → IsAt n i es
    → bytes_eq n m ≡ false
    → lookup m (htable_del i es) ≡ lookup m es
unfolding lookup htable_del
lookup-del_other n m i [] h d = ground arith
lookup-del_other n m zero (e ∷ es) h d = rw (key_of e n m h, d) refl
lookup-del_other n m (suc i) (e ∷ es) (skip, h) d = rw (lookup-del_other n m i es h d) refl

pub lookup-none : (n : List ℕ) (es : List EnvStr) → count_key n es ≡ 0 → lookup n es ≡ none
unfolding lookup count_key
lookup-none n [] h = refl
lookup-none n (e ∷ es) h = rw (skip (ground arith)) (lookup-none n es (ground arith))
  where
    skip : one_if (cmp_envstr_key e n) ≡ 0 → cmp_envstr_key e n ≡ false
    skip k = ground arith

pub del-append :
    (n : List ℕ) (i : ℕ) (es : List EnvStr) (e : EnvStr)
    → IsAt n i es
    → htable_del i (es ++ (e ∷ [])) ≡ htable_del i es ++ (e ∷ [])
unfolding htable_del
del-append n i [] e h = ground arith
del-append n zero (x ∷ es) e h = refl
del-append n (suc i) (x ∷ es) e (skip, h) = rw (del-append n i es e h) refl

-- getenv() gives the value.
value_here :
    (e : EnvStr)
    → (get_or e.str.text e.keylen 0 == b'=') ≡ true
    → value_of (some e) ≡ returns (some (drop (e.keylen + 1) e.str.text))
value_here e h = rw h refl

get_from-lookup :
    (n : List ℕ) (i : ℕ) (es : List EnvStr)
    → all_good es ≡ true
    → IsAt n i es
    → value_of (entry_at i es) ≡ returns (lookup n es)
unfolding lookup all_good
get_from-lookup n i [] good h = ground arith
get_from-lookup n zero (e ∷ es) good h = rw h (value_here e (ground arith))
get_from-lookup n (suc i) (e ∷ es) good (skip, h) =
    rw skip (get_from-lookup n i es (ground arith) h)

pub found_value :
    (n : List ℕ) (es : List EnvStr) (o : Option ℕ)
    → all_good es ≡ true
    → Found n es o
    → get_from es o ≡ returns (lookup n es)
found_value n es none good (count, skip) = rw skip refl
found_value n es (some i) good h = get_from-lookup n i es good h
