-- ===== src/Environ/Tests.antt =====
-- An environment with one variable.
use sneks.Base.{
  ℕ, ◌≡◌, refl, true, false, none, some, List, [], ◌∷◌, if◌then◌else◌, abort, codes, arith,
}
use sneks.Environ.{
  Str, Env, Memory, bytes_eq, cmp_envstr_key, find_key, equals_at, htable_del, remove_addr,
  without_addr, replace_addr, insert, set_string, setenv, unset_at, unsetenv, put_string, put_at,
  putenv,
}
use sneks.Environ.Table.{lookup, count_key, count_entries, count_addr, all_good}
use sneks.Environ.Spec.{Call, sets, unsets, puts, serve, Values, Has}
use sneks.Environ.Session.{serve_calls, spec_calls, may_calls, Gives, serve_calls-Gives}

abbrev path : Str
path = record { addr = 10; text = codes "PATH=/bin" }

abbrev one : Env
one = record {
  environ = some (path ∷ []);
  table = record { str = path; keylen = 4; is_ours = false } ∷ [];
  our_environ = false;
}

abbrev path_only : Values
path_only k = if bytes_eq (codes "PATH") k then some (codes "/bin") else none

abbrev ample : ℕ → Memory
ample a = record { entry = true; string = some a; in_table = true; vector = true }

abbrev calls : List (Memory × Call)
calls =
    (ample 20, sets (codes "HOME") (codes "/root") false)
    ∷ ((ample 30, puts (record { addr = 40; text = codes "PATH=/usr" }))
        ∷ ((ample 50, sets (codes "HOME") (codes "/") true)
            ∷ ((
              record { entry = true; string = none; in_table = true; vector = true },
              sets (codes "TERM") (codes "vt") true,
            )
                ∷ ((ample 60, unsets (codes "PATH")) ∷ []))))

one-Has : Has one path_only
unfolding lookup count_key count_entries count_addr all_good cmp_envstr_key
one-Has = (
  ((λ (n : List ℕ). ground arith), refl, (λ (a : ℕ). refl), λ (a : ℕ). ground arith),
  λ (n : List ℕ). refl,
)

calls_allowed : may_calls calls one ≡ true
unfolding may_calls serve setenv unsetenv putenv put_at put_string unset_at set_string insert
    find_key cmp_envstr_key bytes_eq equals_at remove_addr without_addr replace_addr htable_del
calls_allowed = refl

serve_calls-Gives_example : Gives (serve_calls calls one) (spec_calls calls path_only)
serve_calls-Gives_example = serve_calls-Gives calls one path_only one-Has calls_allowed

home_stays :
    ((spec_calls calls path_only).1 (codes "HOME") ≡ some (codes "/"))
    × ((spec_calls calls path_only).1 (codes "PATH") ≡ none)
unfolding spec_calls bytes_eq equals_at
home_stays = (refl, refl)

-- setenv() without memory for its entry goes on to `free(ent->str)` with a null `ent`.
no_entry :
    setenv
      (record { entry = false; string = none; in_table = true; vector = true })
      (codes "A")
      (codes "b")
      true
      one
    ≡ abort
unfolding setenv find_key cmp_envstr_key bytes_eq equals_at
no_entry = refl
