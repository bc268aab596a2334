-- ===== src/Tss/Keys.antt =====
-- lib/tss.c: which key tss_create() gives.
use sneks.Base.{
  ℕ, zero, suc, ◌+◌, ◌≤◌, ◌<◌, ◌≡◌, refl, sym, ◌∙◌, ◌≢◌, ◌↔◌, Option, none, some, ◌==◌,
  if◌then◌else◌, arith, Bool-cases, inl, inr, ==_iff,
}
use mathlib.Core.Path.{subst}
use sneks.Tss.{free_key, create_at, tss_create}

-- What the loop finds: the first key with a null destructor, or none if no key has one.
abbrev pub Finds : (left i : ℕ) → (ℕ → ℕ) → Option ℕ → Type 0
Finds left i dtors none = (j : ℕ) → i ≤ j → j < i + left → dtors j ≢ 0
Finds left i dtors (some k) =
    (i ≤ k) × (k < i + left) × (dtors k ≡ 0) × ((j : ℕ) → i ≤ j → j < k → dtors j ≢ 0)

later :
    (left i : ℕ) (dtors : ℕ → ℕ) (o : Option ℕ)
    → dtors i ≢ 0
    → Finds left (suc i) dtors o
    → Finds (suc left) i dtors o
later left i dtors none taken more = λ (j : ℕ) (low : i ≤ j) (high : j < i + suc left).
    elim (Bool-cases (i == j)) [
      | inl same ↦ subst (λ (v : ℕ). dtors v ≢ 0) ((==_iff i j).0 same) taken
      | inr differs ↦ more j (ground arith) (omega arith)
    ]
later left i dtors (some k) taken (from, upto, null, before) = (
  omega arith,
  omega arith,
  null,
  λ (j : ℕ) (low : i ≤ j) (high : j < k). elim (Bool-cases (i == j)) [
    | inl same ↦ subst (λ (v : ℕ). dtors v ≢ 0) ((==_iff i j).0 same) taken
    | inr differs ↦ before j (ground arith) high
  ],
)

free_key-Finds : (left i : ℕ) (dtors : ℕ → ℕ) → Finds left i dtors (free_key left i dtors)
unfolding free_key
free_key-Finds zero i dtors = λ (j : ℕ) (low : i ≤ j) (high : j < i + 0). absurd (omega arith)
free_key-Finds (suc left) i dtors = elim (Bool-cases (dtors i == 0)) [
  | inl null ↦ rw null (
    omega arith,
    omega arith,
    (==_iff (dtors i) 0).0 null,
    λ (j : ℕ) (low : i ≤ j) (high : j < i). absurd (omega arith),
  )
  | inr taken ↦ rw taken (
      later left i dtors (free_key left (suc i) dtors) (ground arith)
        (free_key-Finds left (suc i) dtors))
]

-- A key is made, or thrd_error and nothing changed.
abbrev pub Creates : ℕ → (ℕ → ℕ) → Option ℕ × (ℕ → ℕ) → Type 0
Creates dtor dtors (key, dtors') =
    Finds 15 1 dtors key
    × ((j : ℕ)
        → dtors' j ≡ elim key [ none ↦ dtors j | some k ↦ (if k == j then dtor else dtors j) ])

create_at-Creates :
    (o : Option ℕ) (dtor : ℕ) (dtors : ℕ → ℕ)
    → Finds 15 1 dtors o
    → Creates dtor dtors (create_at o dtor dtors)
unfolding create_at
create_at-Creates none dtor dtors finds = (finds, λ (j : ℕ). refl)
create_at-Creates (some k) dtor dtors finds = (finds, λ (j : ℕ). refl)

-- tss_create() gives the first of the keys 1 to 15 whose destructor is null, and stores the new
-- destructor there and no other; if there is no such key it is thrd_error, and nothing changes.
pub tss_create-Creates : (dtor : ℕ) (dtors : ℕ → ℕ) → Creates dtor dtors (tss_create dtor dtors)
unfolding tss_create
tss_create-Creates dtor dtors =
    create_at-Creates (free_key 15 1 dtors) dtor dtors (free_key-Finds 15 1 dtors)

free_key-same :
    (left i : ℕ) (f g : ℕ → ℕ) → ((j : ℕ) → f j ≡ g j) → free_key left i f ≡ free_key left i g
unfolding free_key
free_key-same zero i f g same = refl
free_key-same (suc left) i f g same = rw (same i, free_key-same left (suc i) f g same) refl

at_key : (o : Option ℕ) (dtor : ℕ) (dtors : ℕ → ℕ) → (create_at o dtor dtors).0 ≡ o
unfolding create_at
at_key none dtor dtors = refl
at_key (some k) dtor dtors = refl

key_of : (dtor : ℕ) (dtors : ℕ → ℕ) → (tss_create dtor dtors).0 ≡ free_key 15 1 dtors
unfolding tss_create
key_of dtor dtors = at_key (free_key 15 1 dtors) dtor dtors

some_inj : (i k : ℕ) → ◌≡◌ {A = Option ℕ} (some i) (some k) → i ≡ k
some_inj i k e = ground arith

unchanged :
    (k j v d : ℕ) (dtors : ℕ → ℕ)
    → v ≡ (if k == j then d else dtors j)
    → d ≡ 0
    → dtors k ≡ 0
    → v ≡ dtors j
unchanged k j v d dtors e null free = elim (Bool-cases (k == j)) [
  | inl same ↦ subst (λ (x : ℕ). v ≡ dtors x) ((==_iff k j).0 same) (ground arith)
  | inr differs ↦ ground arith
]

stored :
    (k dtor j : ℕ) (dtors : ℕ → ℕ) (r : Option ℕ × (ℕ → ℕ))
    → r.0 ≡ some k
    → Creates dtor dtors r
    → (r.1 j ≡ (if k == j then dtor else dtors j)) × (dtors k ≡ 0)
stored k dtor j dtors (none, dtors') e (finds, at) = ground arith
stored k dtor j dtors (some i, dtors') e (finds, at) = (
  subst (λ (x : ℕ). dtors' j ≡ (if x == j then dtor else dtors j)) (some_inj i k e) (at j),
  subst (λ (x : ℕ). dtors x ≡ 0) (some_inj i k e) finds.2,
)

null_of : (k : ℕ) (dtors : ℕ → ℕ) (o : Option ℕ) → o ≡ some k → Finds 15 1 dtors o → dtors k ≡ 0
null_of k dtors none e finds = ground arith
null_of k dtors (some i) e finds = subst (λ (x : ℕ). dtors x ≡ 0) (some_inj i k e) finds.2

-- If tss_create() gives a key, the next call gives the same key exactly if the destructor was null.
pub tss_create-again :
    (d d' k : ℕ) (dtors : ℕ → ℕ)
    → (tss_create d dtors).0 ≡ some k
    → ((tss_create d' (tss_create d dtors).1).0 ≡ some k) ↔ (d ≡ 0)
tss_create-again d d' k dtors e = (
  λ (again : (tss_create d' (tss_create d dtors).1).0 ≡ some k). ground (
    arith,
    after k,
    null_of k (tss_create d dtors).1 (tss_create d' (tss_create d dtors).1).0 again
        (tss_create-Creates d' (tss_create d dtors).1).0,
  ),
  λ (null : d ≡ 0).
      key_of d' (tss_create d dtors).1
      ∙ (free_key-same 15 1 (tss_create d dtors).1 dtors (λ (j : ℕ).
            unchanged k j ((tss_create d dtors).1 j) d dtors (after j).0 null (after j).1)
          ∙ (sym (key_of d dtors) ∙ e)),
)
  where
    after : (j : ℕ) → ((tss_create d dtors).1 j ≡ (if k == j then d else dtors j)) × (dtors k ≡ 0)
    after j = stored k d j dtors (tss_create d dtors) e (tss_create-Creates d dtors)
