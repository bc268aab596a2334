-- ===== src/Environ/Session.antt =====
-- lib/env.c: sequences of calls against the map from names to values.
use sneks.Base.{
  ℕ, ◌≡◌, refl, sym, ap, ◌∙◌, Bool, true, false, ◌&&◌, Option, none, List, [], ◌∷◌, ◌==◌, Ends,
  abort, returns, arith, inl, inr, Option-cases,
}
use mathlib.Core.Path.{subst}
use sneks.Environ.{Str, EnvStr, Env, Memory, Errno, find_key, strings, getenv, getenv_in}
use sneks.Environ.Table.{lookup, one_if, count_entries, count_addr, find_key-Found, found_value}
use sneks.Environ.Strings.{Wf}
use sneks.Environ.Spec.{Call, serve, Values, spec, Has, Refines, may_call}
use sneks.Environ.Refine.{serve-Refines}

null_empty : (n : List ℕ) (es : List EnvStr) → Wf [] es → lookup n es ≡ none
unfolding lookup count_addr count_entries
null_empty n [] wf = refl
null_empty n (e ∷ es) (once, good, same, alone) =
    absurd (omega (arith, same e.str.addr, itself e.str.addr))
  where
    itself : (a : ℕ) → one_if (a == a) ≡ 1
    itself a = ground arith

-- getenv() gives the value of the name.
pub getenv-lookup : (n : List ℕ) (s : Env) (f : Values) → Has s f → getenv n s ≡ returns (f n)
unfolding getenv getenv_in
getenv-lookup n s f has = elim (Option-cases s.environ) [
  | inl null ↦ rw null (
      ap (λ (o : Option (List ℕ)). returns o)
        (sym (
            null_empty n s.table
              (subst (λ (o : Option (List Str)). Wf (strings o) s.table) null has.0))
          ∙ has.1 n))
  | inr (strs, e) ↦ rw e (
      found_value n s.table (find_key n s.table) has.0.1 (find_key-Found n s.table)
      ∙ ap (λ (o : Option (List ℕ)). returns o) (has.1 n))
]

abbrev prepend : Errno → Ends (List Errno × Env) → Ends (List Errno × Env)
prepend st abort = abort
prepend st (returns (sts, s)) = returns (st ∷ sts, s)

-- The calls in their order, each with what the allocations in it answer.
unfoldable pub serve_calls : List (Memory × Call) → Env → Ends (List Errno × Env)
serve_calls [] s = returns ([], s)
serve_calls ((m, c) ∷ cs) s = elim (serve m c s) [
  | abort ↦ abort
  | returns (st, t) ↦ prepend st (serve_calls cs t)
]

unfoldable pub spec_calls : List (Memory × Call) → Values → List Errno × Values
spec_calls [] f = ([], f)
spec_calls ((m, c) ∷ cs) f =
    let rest = spec_calls cs (spec m c f).1 in ((spec m c f).0 ∷ rest.0, rest.1)

unfoldable pub may_calls : List (Memory × Call) → Env → Bool
may_calls [] s = true
may_calls ((m, c) ∷ cs) s =
    may_call m c s && elim (serve m c s) [ abort ↦ true | returns (st, t) ↦ may_calls cs t ]

-- The calls return with these statuses, and getenv() gives these values.
abbrev pub Gives : Ends (List Errno × Env) → List Errno × Values → Type 0
Gives abort r = false ≡ true
Gives (returns (sts, s)) (sts', f) = (sts ≡ sts') × ((n : List ℕ) → getenv n s ≡ returns (f n))

prepend-Gives :
    (st st' : Errno) (r : Ends (List Errno × Env)) (p : List Errno × Values)
    → st ≡ st'
    → Gives r p
    → Gives (prepend st r) (st' ∷ p.0, p.1)
prepend-Gives st st' abort p e gives = gives
prepend-Gives st st' (returns (sts, s)) p e (same, values) = (cc (e, same), values)

continues-Gives :
    (cs : List (Memory × Call)) (p : Errno × Values) (r : Ends (Errno × Env))
    → ((t : Env) → Has t p.1 → may_calls cs t ≡ true → Gives (serve_calls cs t) (spec_calls cs p.1))
    → Refines r p
    → elim r [ abort ↦ true | returns (st, t) ↦ may_calls cs t ] ≡ true
    → Gives
        (elim r [ abort ↦ abort | returns (st, t) ↦ prepend st (serve_calls cs t) ])
        (p.0 ∷ (spec_calls cs p.1).0, (spec_calls cs p.1).1)
continues-Gives cs p abort rest bad may = bad
continues-Gives cs p (returns (st, t)) rest (same, has) may =
    prepend-Gives st p.0 (serve_calls cs t) (spec_calls cs p.1) same (rest t has may)

-- A sequence of setenv(), unsetenv(), putenv() and clearenv() from an environment in order, with
-- strings that are not in `environ` yet and memory for the entries that setenv() makes, fails no
-- assert, returns the statuses that it has on a map from names to values, also when other memory
-- runs out, and getenv() then gives for every name what the map has.
pub serve_calls-Gives :
    (cs : List (Memory × Call)) (s : Env) (f : Values)
    → Has s f
    → may_calls cs s ≡ true
    → Gives (serve_calls cs s) (spec_calls cs f)
unfolding serve_calls spec_calls may_calls
serve_calls-Gives [] s f has may = (refl, λ (n : List ℕ). getenv-lookup n s f has)
serve_calls-Gives ((m, c) ∷ cs) s f has may =
    continues-Gives cs (spec m c f) (serve m c s)
      (λ (t : Env). serve_calls-Gives cs t (spec m c f).1)
      (serve-Refines m c s f has (ground arith)) (ground arith)
