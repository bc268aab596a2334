-- ===== src/Environ/Stored.antt =====
-- lib/env.c: setenv() and putenv() store a value.
use sneks.Base.{
  ℕ, ◌+◌, ◌≤◌, ◌≡◌, refl, ◌∙◌, true, false, not, ◌||◌, Option, none, some, List, [], ◌∷◌, ◌++◌,
  ◌==◌, if◌then◌else◌, drop, get_or, arith, Bool-cases, inl, inr,
}
use sneks.Environ.{
  Str, EnvStr, Env, Memory, okay, enomem, bytes_eq, is_some, cmp_envstr_key, htable_del, strings,
  has_addr, remove_addr, replace_addr, addr_at, insert, put_string,
}
use sneks.Environ.Table.{
  lookup, one_if, count_key, count_entries, count_addr, IsAt, Found, count_addr-append,
  count_entries-del, all_good-del, del-append, lookup-del_other,
}
use sneks.Environ.Strings.{
  Wf, has_addr-count, count-remove, count-replace, has_addr_at, append-Wf, lookup-new, del_absent,
  del_once, del_alone,
}
use sneks.Environ.Spec.{Values, store, Has, HasIn, Refines}

fresh_count :
    (a : ℕ) (xs : List Str) (es : List EnvStr)
    → not (has_addr a xs) ≡ true
    → Wf xs es
    → count_entries a es ≡ 0
fresh_count a xs es h (once, good, same, alone) =
    omega (arith, has_addr-count a xs (ground arith), same a)

-- An entry for a key, with a fresh string.
module _ (n v : List ℕ) (e : EnvStr) (of_key : cmp_envstr_key e n ≡ true)
    (good_value : (get_or e.str.text e.keylen 0 == b'=') ≡ true)
    (value : drop (e.keylen + 1) e.str.text ≡ v) where
  stores :
      (es : List EnvStr) (f : Values)
      → ((m : List ℕ) → count_key m es ≤ 1)
      → count_key n es ≡ 0
      → ((m : List ℕ) → bytes_eq n m ≡ false → lookup m es ≡ f m)
      → (m : List ℕ) → lookup m (es ++ (e ∷ [])) ≡ store n v f m
  stores es f once absent has m = elim (Bool-cases (bytes_eq n m)) [
    | inl same ↦ lookup-new n e of_key good_value es m once absent ∙ rw (same, value) refl
    | inr differs ↦ lookup-new n e of_key good_value es m once absent ∙ rw differs (has m differs)
  ]

  add-Has :
      (s : Env) (f : Values)
      → Has s f
      → not (has_addr e.str.addr (strings s.environ)) ≡ true
      → Found n s.table none
      → HasIn (strings s.environ ++ (e.str ∷ [])) (s.table ++ (e ∷ [])) (store n v f)
  add-Has s f (wf, has) fresh (absent, none_yet) = (
    append-Wf n e of_key good_value (strings s.environ ++ (e.str ∷ [])) s.table wf.0 wf.1 wf.3
        absent (fresh_count e.str.addr (strings s.environ) s.table fresh wf)
        (λ (a : ℕ). omega (arith, count_addr-append a (strings s.environ) e.str, wf.2 a)),
    stores s.table f wf.0 absent (λ (m : List ℕ) (d : bytes_eq n m ≡ false). has m),
  )

  swap-Has :
      (i : ℕ) (ys : List Str) (s : Env) (f : Values)
      → Has s f
      → not (has_addr e.str.addr (strings s.environ)) ≡ true
      → IsAt n i s.table
      → ((a : ℕ)
          → count_addr a ys + one_if (addr_at i s.table == a)
            ≡ count_addr a (strings s.environ) + one_if (e.str.addr == a))
      → HasIn ys (htable_del i (s.table ++ (e ∷ []))) (store n v f)
  swap-Has i ys s f (wf, has) fresh h strs = rw (del-append n i s.table e h) (
    append-Wf n e of_key good_value ys (htable_del i s.table) (del_once n i s.table h wf.0)
        (all_good-del n i s.table h wf.1) (del_alone n i s.table h wf.3)
        (del_absent n i s.table h wf.0)
        (omega (
          arith,
          fresh_count e.str.addr (strings s.environ) s.table fresh wf,
          count_entries-del n e.str.addr i s.table h,
        ))
        (λ (a : ℕ). omega (arith, strs a, wf.2 a, count_entries-del n a i s.table h)),
    stores (htable_del i s.table) f (del_once n i s.table h wf.0) (del_absent n i s.table h wf.0)
        (λ (m : List ℕ) (d : bytes_eq n m ≡ false). lookup-del_other n m i s.table h d ∙ has m),
  )

  pub insert-Refines :
      (o : Option ℕ) (s : Env) (f : Values)
      → Has s f
      → not (has_addr e.str.addr (strings s.environ)) ≡ true
      → Found n s.table o
      → Refines (insert e o s) (okay, store n v f)
  unfolding insert
  insert-Refines none s f has fresh found = (refl, add-Has s f has fresh found)
  insert-Refines (some i) s f has fresh h =
      rw (has_addr_at n i (strings s.environ) s.table has.0 h) (
        refl,
        swap-Has i (remove_addr (addr_at i s.table) (strings s.environ) ++ (e.str ∷ [])) s f has
            fresh h
            (λ (a : ℕ). omega (
              arith,
              count_addr-append a (remove_addr (addr_at i s.table) (strings s.environ)) e.str,
              count-remove (addr_at i s.table) a (strings s.environ)
                  (has_addr_at n i (strings s.environ) s.table has.0 h),
            )),
      )

  pub put_string-Refines :
      (m : Memory) (o : Option ℕ) (s : Env) (f : Values)
      → Has s f
      → not (has_addr e.str.addr (strings s.environ)) ≡ true
      → Found n s.table o
      → Refines
          (put_string m e o s)
          (if is_some o || m.vector then (okay, store n v f) else (enomem, f))
  unfolding put_string
  put_string-Refines m none s f has fresh found = elim (Bool-cases m.vector) [
    | inl memory ↦ rw memory (refl, add-Has s f has fresh found)
    | inr full ↦ rw full (refl, has)
  ]
  put_string-Refines m (some i) s f has fresh h =
      rw (has_addr_at n i (strings s.environ) s.table has.0 h) (
        refl,
        swap-Has i (replace_addr (addr_at i s.table) e.str (strings s.environ)) s f has fresh h
            (λ (a : ℕ).
              count-replace (addr_at i s.table) a e.str (strings s.environ)
                (has_addr_at n i (strings s.environ) s.table has.0 h)),
      )
