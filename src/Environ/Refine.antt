-- ===== src/Environ/Refine.antt =====
-- lib/env.c against the map from names to values.
use sneks.Base.{
  ℕ, zero, suc, ◌+◌, ◌≡◌, refl, sym, ap, ◌∙◌, Bool, true, false, not, ◌&&◌, ◌||◌, Option, none,
  some, List, [], ◌∷◌, ◌++◌, ◌==◌, ltb, if◌then◌else◌, length, take, drop, get_or, arith,
  Bool-cases, inl, inr, Option-cases,
}
use mathlib.Core.Path.{subst}
use sneks.Environ.{
  Str, EnvStr, Env, Memory, okay, enomem, bytes_eq, equals_at, is_some, is_name, cmp_envstr_key,
  find_key, strings, has_addr, addr_at, set_string, setenv, unset_at, unsetenv, put_at, putenv,
  clearenv,
}
use sneks.Environ.Table.{
  bytes_eq→eq, bytes_eq_refl, lookup, count_key, count_entries, count_addr, all_good, IsAt, Found,
  find_key-Found,
}
use sneks.Environ.Strings.{Wf, del-Wf, lookup-del, has_addr_at}
use sneks.Environ.Spec.{
  Call, sets, unsets, puts, clears, serve, Values, store, erase, spec_put, spec, Has, Refines,
  is_fresh, may_call,
}
use sneks.Environ.Stored.{insert-Refines, put_string-Refines}

at_some : (n : List ℕ) (i : ℕ) (es : List EnvStr) → IsAt n i es → is_some (lookup n es) ≡ true
unfolding lookup
at_some n i [] h = ground arith
at_some n zero (e ∷ es) h = rw h refl
at_some n (suc i) (e ∷ es) (skip, h) = rw skip (at_some n i es h)

found_some :
    (n : List ℕ) (es : List EnvStr) (o : Option ℕ)
    → Found n es o
    → is_some o ≡ is_some (lookup n es)
found_some n es none (count, absent) = rw absent refl
found_some n es (some i) h = sym (at_some n i es h)

-- The key and the value of the string that setenv() makes.
take_name : (n v : List ℕ) → take (length n) (n ++ v) ≡ n
take_name [] v = refl
take_name (c ∷ n) v = rw (take_name n v) refl

drop-suc : (k x : ℕ) (xs : List ℕ) → drop (suc k + 1) (x ∷ xs) ≡ drop (k + 1) xs
drop-suc k x xs = ap (λ (j : ℕ). drop j (x ∷ xs)) (next k)
  where
    next : (k : ℕ) → suc k + 1 ≡ suc (k + 1)
    next k = omega arith

drop_name : (n v : List ℕ) (c : ℕ) → drop (length n + 1) (n ++ (c ∷ v)) ≡ v
drop_name [] v c = refl
drop_name (x ∷ n) v c = drop-suc (length n) x (n ++ (c ∷ v)) ∙ drop_name n v c

equals_name : (n v : List ℕ) (c : ℕ) → get_or (n ++ (c ∷ v)) (length n) 0 ≡ c
equals_name [] v c = refl
equals_name (x ∷ n) v c = equals_name n v c

made : (a : ℕ) (n v : List ℕ) → EnvStr
made a n v = record {
  str = record { addr = a; text = n ++ (b'=' ∷ v) };
  keylen = length n;
  is_ours = true;
}

made_key : (a : ℕ) (n v : List ℕ) → cmp_envstr_key (made a n v) n ≡ true
unfolding cmp_envstr_key made
made_key a n v = rw (take_name n (b'=' ∷ v)) (bytes_eq_refl n)

set_string-Refines :
    (m : Memory) (n v : List ℕ) (a old : Option ℕ) (s : Env) (f : Values)
    → Has s f
    → is_fresh a s ≡ true
    → Found n s.table old
    → Refines
        (set_string m n v a old s)
        (if is_some a && (m.in_table && m.vector) then (okay, store n v f) else (enomem, f))
unfolding set_string made
set_string-Refines m n v none old s f has fresh found = (refl, has)
set_string-Refines m n v (some a) old s f has fresh found =
    elim (Bool-cases (m.in_table && m.vector)) [
      | inl memory ↦ rw memory (
          insert-Refines n v (made a n v) (made_key a n v) (rw (equals_name n v b'=') refl)
            (drop_name n v b'=') old s f has fresh found)
      | inr full ↦ rw full (refl, has)
    ]

setenv-Refines :
    (m : Memory) (n v : List ℕ) (overwrite : Bool) (s : Env) (f : Values)
    → Has s f
    → m.entry ≡ true
    → is_fresh m.string s ≡ true
    → Refines (setenv m n v overwrite s) (spec m (sets n v overwrite) f)
unfolding setenv set_string
setenv-Refines m n v overwrite s f has entry fresh =
    elim (Bool-cases (not (is_name n) || ltb 32767 (length n))) [
      | inl bad ↦ rw bad (refl, has)
      | inr good ↦
          rw (good, entry, known)
            (elim (Bool-cases (is_some (f n) && not overwrite)) [
              | inl kept ↦ rw kept (refl, has)
              | inr new ↦ rw new (
                  set_string-Refines m n v m.string (find_key n s.table) s f has fresh
                    (find_key-Found n s.table))
            ])
    ]
  where
    known : is_some (find_key n s.table) ≡ is_some (f n)
    known =
        found_some n s.table (find_key n s.table) (find_key-Found n s.table)
        ∙ ap (λ (o : Option (List ℕ)). is_some o) (has.1 n)

erased :
    (n : List ℕ) (o : Option ℕ) (s : Env) (f : Values)
    → Has s f
    → Found n s.table o
    → Refines (unset_at o s) (okay, erase n f)
unfolding unset_at
erased n none s f has (count, absent) = (refl, (has.0, untouched))
  where
    untouched : (m : List ℕ) → lookup m s.table ≡ erase n f m
    untouched m = elim (Bool-cases (bytes_eq n m)) [
      | inl same ↦
          rw same (subst (λ (k : List ℕ). lookup k s.table ≡ none) (bytes_eq→eq n m same) absent)
      | inr differs ↦ rw differs (has.1 m)
    ]
erased n (some i) s f has h = elim (Option-cases s.environ) [
  | inl null ↦ impossible (
      subst (λ (o : Option (List Str)). has_addr (addr_at i s.table) (strings o) ≡ true) null
        (has_addr_at n i (strings s.environ) s.table has.0 h))
  | inr (strs, e) ↦ rw e (
    refl,
    (
      del-Wf n i strs s.table h (subst (λ (o : Option (List Str)). Wf (strings o) s.table) e has.0),
      λ (m : List ℕ).
          lookup-del n m i s.table h has.0.0
          ∙ ap (λ (o : Option (List ℕ)). if bytes_eq n m then none else o) (has.1 m),
    ),
  )
]
  where
    impossible : {A : Type 0} → false ≡ true → A
    impossible e = ground arith

pub unsetenv-Refines :
    (m : Memory) (n : List ℕ) (s : Env) (f : Values)
    → Has s f
    → Refines (unsetenv n s) (spec m (unsets n) f)
unfolding unsetenv
unsetenv-Refines m n s f has = elim (Bool-cases (is_name n)) [
  | inl good ↦ rw good (erased n (find_key n s.table) s f has (find_key-Found n s.table))
  | inr bad ↦ rw bad (refl, has)
]

-- What strchr() finds.
after_cons :
    (c : ℕ) (text : List ℕ) (b : Bool) (o : Option ℕ) (k : ℕ)
    → (c == b'=') ≡ b
    → ((j : ℕ) → o ≡ some j → get_or text j 0 ≡ b'=')
    → (if b then some 0 else elim o [ none ↦ none | some j ↦ some (suc j) ]) ≡ some k
    → get_or (c ∷ text) k 0 ≡ b'='
after_cons c text true o zero e rest h = ground arith
after_cons c text true o (suc k) e rest h = ground arith
after_cons c text false none k e rest h = ground arith
after_cons c text false (some j) zero e rest h = ground arith
after_cons c text false (some j) (suc k) e rest h = rest k (ground arith)

after_equals : (text : List ℕ) (k : ℕ) → equals_at text ≡ some k → get_or text k 0 ≡ b'='
unfolding equals_at
after_equals [] k h = ground arith
after_equals (c ∷ text) k h =
    after_cons c text (c == b'=') (equals_at text) k refl (after_equals text) h

key_self :
    (x : Str) (k : ℕ)
    → cmp_envstr_key (record { str = x; keylen = k; is_ours = false }) (take k x.text) ≡ true
unfolding cmp_envstr_key
key_self x k = bytes_eq_refl (take k x.text)

put_at-Refines :
    (m : Memory) (x : Str) (o : Option ℕ) (s : Env) (f : Values)
    → Has s f
    → is_fresh (some x.addr) s ≡ true
    → equals_at x.text ≡ o
    → Refines (put_at m x o s) (spec_put m x.text o f)
unfolding put_at
put_at-Refines m x none s f has fresh e = (refl, has)
put_at-Refines m x (some zero) s f has fresh e = (refl, has)
put_at-Refines m x (some (suc k)) s f has fresh e =
    elim (Bool-cases (ltb 32767 (suc k) || not m.entry || not m.in_table)) [
      | inl bad ↦ rw bad (refl, has)
      | inr good ↦
          rw (good, sym known)
            (put_string-Refines (take (suc k) x.text) (drop (suc k + 1) x.text)
              (record { str = x; keylen = suc k; is_ours = false }) (key_self x (suc k))
              (rw (after_equals x.text (suc k) e) refl) refl m
              (find_key (take (suc k) x.text) s.table) s f has fresh
              (find_key-Found (take (suc k) x.text) s.table))
    ]
  where
    known : is_some (find_key (take (suc k) x.text) s.table) ≡ is_some (f (take (suc k) x.text))
    known =
        found_some (take (suc k) x.text) s.table (find_key (take (suc k) x.text) s.table)
          (find_key-Found (take (suc k) x.text) s.table)
        ∙ ap (λ (o : Option (List ℕ)). is_some o) (has.1 (take (suc k) x.text))

pub serve-Refines :
    (m : Memory) (c : Call) (s : Env) (f : Values)
    → Has s f
    → may_call m c s ≡ true
    → Refines (serve m c s) (spec m c f)
unfolding serve putenv clearenv count_key all_good count_addr count_entries lookup
serve-Refines m (sets name value overwrite) s f has may =
    setenv-Refines m name value overwrite s f has (ground arith) (ground arith)
serve-Refines m (unsets name) s f has may = unsetenv-Refines m name s f has
serve-Refines m (puts x) s f has may = put_at-Refines m x (equals_at x.text) s f has may refl
serve-Refines m clears s f has may = (
  refl,
  (
    ((λ (n : List ℕ). omega arith), refl, (λ (a : ℕ). refl), λ (a : ℕ). omega arith),
    λ (n : List ℕ). refl,
  ),
)
