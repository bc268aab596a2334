-- ===== src/Environ/Strings.antt =====
-- lib/env.c: `environ` beside the hash table.
use sneks.Base.{
  ℕ, ◌+◌, ◌≤◌, ◌≡◌, refl, sym, ◌∙◌, Bool, true, false, none, some, List, [], ◌∷◌, ◌++◌, ◌==◌,
  if◌then◌else◌, drop, get_or, arith, Bool-cases, inl, inr, ==_iff,
}
use mathlib.Core.Path.{subst}
use sneks.Environ.{
  Str, EnvStr, bytes_eq, cmp_envstr_key, htable_del, has_addr, remove_addr, replace_addr,
  without_addr, addr_at,
}
use sneks.Environ.Table.{
  bytes_eq→eq, bytes_eq_refl, key_of, lookup, one_if, count_key, count_entries, count_addr,
  all_good, IsAt, count_key-append, count_entries-append, all_good-append, lookup-append,
  count_key-del, count_entries-del, all_good-del, lookup-del_other, lookup-none,
}

-- Each key is in the table once and with '=' after it, each string is in `environ` as often as in
-- the table, and that is once at most.
abbrev pub Wf : List Str → List EnvStr → Type 0
Wf xs es =
    ((n : List ℕ) → count_key n es ≤ 1)
    × (all_good es ≡ true)
    × ((a : ℕ) → count_addr a xs ≡ count_entries a es)
    × ((a : ℕ) → count_entries a es ≤ 1)

pub has_addr-count : (a : ℕ) (xs : List Str) → has_addr a xs ≡ false → count_addr a xs ≡ 0
unfolding count_addr
has_addr-count a [] h = refl
has_addr-count a (x ∷ xs) h = ground (arith, has_addr-count a xs (ground arith))

pub count-has_addr : (a : ℕ) (xs : List Str) → 1 ≤ count_addr a xs → has_addr a xs ≡ true
unfolding count_addr
count-has_addr a [] h = absurd (omega arith)
count-has_addr a (x ∷ xs) h = elim (Bool-cases (x.addr == a)) [
  | inl same ↦ rw same refl
  | inr differs ↦ rw differs (count-has_addr a xs (ground arith))
]

pub count-remove :
    (a b : ℕ) (xs : List Str)
    → has_addr a xs ≡ true
    → count_addr b (remove_addr a xs) + one_if (a == b) ≡ count_addr b xs
unfolding count_addr remove_addr
count-remove a b [] h = ground arith
count-remove a b (x ∷ xs) h = elim (Bool-cases (x.addr == a)) [
  | inl same ↦ rw same (ground arith)
  | inr differs ↦ rw differs (omega (arith, count-remove a b xs (ground arith)))
]

pub count-replace :
    (a b : ℕ) (y : Str) (xs : List Str)
    → has_addr a xs ≡ true
    → count_addr b (replace_addr a y xs) + one_if (a == b) ≡ count_addr b xs + one_if (y.addr == b)
unfolding count_addr replace_addr
count-replace a b y [] h = ground arith
count-replace a b y (x ∷ xs) h = elim (Bool-cases (x.addr == a)) [
  | inl same ↦ rw same (ground arith)
  | inr differs ↦ rw differs (omega (arith, count-replace a b y xs (ground arith)))
]

pub count-without :
    (a b : ℕ) (xs : List Str)
    → count_addr b (without_addr a xs) ≡ (if a == b then 0 else count_addr b xs)
unfolding count_addr without_addr
count-without a b [] = ground arith
count-without a b (x ∷ xs) = elim (Bool-cases (x.addr == a)) [
  | inl same ↦ rw (same, count-without a b xs) (ground arith)
  | inr differs ↦ rw (differs, count-without a b xs) (ground arith)
]

-- The string of an entry is in `environ`.
pub has_addr_at :
    (n : List ℕ) (i : ℕ) (xs : List Str) (es : List EnvStr)
    → Wf xs es
    → IsAt n i es
    → has_addr (addr_at i es) xs ≡ true
has_addr_at n i xs es (once, good, same, alone) h = count-has_addr (addr_at i es) xs (
    omega (
      arith,
      same (addr_at i es),
      count_entries-del n (addr_at i es) i es h,
      itself (addr_at i es),
    ))
  where
    itself : (a : ℕ) → one_if (a == a) ≡ 1
    itself a = ground arith

-- A new entry for a key that is not in the table.
module _ (n : List ℕ) (e : EnvStr) (of_key : cmp_envstr_key e n ≡ true)
    (good_value : (get_or e.str.text e.keylen 0 == b'=') ≡ true) where
  once-append :
      (es : List EnvStr)
      → ((m : List ℕ) → count_key m es ≤ 1)
      → count_key n es ≡ 0
      → (m : List ℕ) → count_key m (es ++ (e ∷ [])) ≤ 1
  once-append es once absent m = elim (Bool-cases (bytes_eq n m)) [
    | inl same ↦
        subst (λ (k : List ℕ). count_key k (es ++ (e ∷ [])) ≤ 1) (bytes_eq→eq n m same)
          (rw (count_key-append n es e, absent, of_key) (omega arith))
    | inr differs ↦
        rw (count_key-append m es e, key_of e n m of_key, differs) (omega (arith, once m))
  ]

  pub append-Wf :
      (ys : List Str) (es : List EnvStr)
      → ((m : List ℕ) → count_key m es ≤ 1)
      → all_good es ≡ true
      → ((a : ℕ) → count_entries a es ≤ 1)
      → count_key n es ≡ 0
      → count_entries e.str.addr es ≡ 0
      → ((a : ℕ) → count_addr a ys ≡ count_entries a es + one_if (e.str.addr == a))
      → Wf ys (es ++ (e ∷ []))
  append-Wf ys es once good alone absent fresh same = (
    once-append es once absent,
    all_good-append es e good good_value,
    λ (a : ℕ). same a ∙ sym (count_entries-append a es e),
    λ (a : ℕ). elim (Bool-cases (e.str.addr == a)) [
      | inl here ↦
          rw (count_entries-append a es e, here)
            (omega (
              arith,
              subst (λ (b : ℕ). count_entries b es ≡ 0) ((==_iff e.str.addr a).0 here) fresh,
            ))
      | inr other ↦ rw (count_entries-append a es e, other) (omega (arith, alone a))
    ],
  )

  pub lookup-new :
      (es : List EnvStr) (m : List ℕ)
      → ((k : List ℕ) → count_key k es ≤ 1)
      → count_key n es ≡ 0
      → lookup m (es ++ (e ∷ []))
        ≡ (if bytes_eq n m then some (drop (e.keylen + 1) e.str.text) else lookup m es)
  lookup-new es m once absent =
      lookup-append m es e (once-append es once absent m) ∙ rw (key_of e n m of_key) refl

-- Taking out the entry for a key.
pub del_absent :
    (n : List ℕ) (i : ℕ) (es : List EnvStr)
    → IsAt n i es
    → ((m : List ℕ) → count_key m es ≤ 1)
    → count_key n (htable_del i es) ≡ 0
del_absent n i es h once =
    omega (arith, count_key-del n n i es h, once n, itself (bytes_eq n n) (bytes_eq_refl n))
  where
    itself : (b : Bool) → b ≡ true → one_if b ≡ 1
    itself b h = ground arith

pub del_once :
    (n : List ℕ) (i : ℕ) (es : List EnvStr)
    → IsAt n i es
    → ((m : List ℕ) → count_key m es ≤ 1)
    → (m : List ℕ) → count_key m (htable_del i es) ≤ 1
del_once n i es h once m = omega (arith, count_key-del n m i es h, once m)

pub del_alone :
    (n : List ℕ) (i : ℕ) (es : List EnvStr)
    → IsAt n i es
    → ((a : ℕ) → count_entries a es ≤ 1)
    → (a : ℕ) → count_entries a (htable_del i es) ≤ 1
del_alone n i es h alone a = omega (arith, count_entries-del n a i es h, alone a)

pub lookup-del :
    (n m : List ℕ) (i : ℕ) (es : List EnvStr)
    → IsAt n i es
    → ((k : List ℕ) → count_key k es ≤ 1)
    → lookup m (htable_del i es) ≡ (if bytes_eq n m then none else lookup m es)
lookup-del n m i es h once = elim (Bool-cases (bytes_eq n m)) [
  | inl same ↦ rw same (
      subst (λ (k : List ℕ). lookup k (htable_del i es) ≡ none) (bytes_eq→eq n m same)
        (lookup-none n (htable_del i es) (del_absent n i es h once)))
  | inr differs ↦ rw differs (lookup-del_other n m i es h differs)
]

pub del-Wf :
    (n : List ℕ) (i : ℕ) (xs : List Str) (es : List EnvStr)
    → IsAt n i es
    → Wf xs es
    → Wf (without_addr (addr_at i es) xs) (htable_del i es)
del-Wf n i xs es h (once, good, same, alone) = (
  del_once n i es h once,
  all_good-del n i es h good,
  λ (a : ℕ).
      count-without (addr_at i es) a xs
      ∙ ground (arith, same a, alone a, count_entries-del n a i es h),
  del_alone n i es h alone,
)
