-- ===== src/Environ/Spec.antt =====
-- lib/env.c: what the calls mean, on a map from names to values.
use sneks.Base.{
  ℕ, zero, suc, ◌+◌, ◌≡◌, Bool, true, false, not, ◌&&◌, ◌||◌, Option, none, some, List, ltb,
  if◌then◌else◌, length, take, drop, Ends, abort, returns,
}
use sneks.Environ.{
  Str, EnvStr, Env, Memory, Errno, okay, einval, enomem, bytes_eq, equals_at, is_some, is_name,
  strings, has_addr, setenv, unsetenv, putenv, clearenv,
}
use sneks.Environ.Table.{lookup}
use sneks.Environ.Strings.{Wf}

pub data Call : Type 0 where
  sets : (name value : List ℕ) → (overwrite : Bool) → Call
  unsets : (name : List ℕ) → Call
  puts : Str → Call
  clears : Call

unfoldable pub serve : Memory → Call → Env → Ends (Errno × Env)
serve m (sets name value overwrite) s = setenv m name value overwrite s
serve m (unsets name) s = unsetenv name s
serve m (puts x) s = putenv m x s
serve m clears s = returns (okay, clearenv s)

-- The values of the names.
abbrev pub Values : Type 0
Values = List ℕ → Option (List ℕ)

abbrev pub store : List ℕ → List ℕ → Values → Values
store name value f k = if bytes_eq name k then some value else f k

abbrev pub erase : List ℕ → Values → Values
erase name f k = if bytes_eq name k then none else f k

abbrev pub spec_put : Memory → List ℕ → Option ℕ → Values → Errno × Values
spec_put m text none f = (okay, f)
spec_put m text (some zero) f = (okay, f)
spec_put m text (some (suc k)) f =
    if ltb 32767 (suc k) || not m.entry || not m.in_table
    then (enomem, f)
    else if is_some (f (take (suc k) text)) || m.vector
    then (okay, store (take (suc k) text) (drop (suc k + 1) text) f)
    else (enomem, f)

-- The status of a call, and the values after it.
abbrev pub spec : Memory → Call → Values → Errno × Values
spec m (sets name value overwrite) f =
    if not (is_name name) || ltb 32767 (length name)
    then (einval, f)
    else if is_some (f name) && not overwrite
    then (okay, f)
    else if is_some m.string && (m.in_table && m.vector)
    then (okay, store name value f)
    else (enomem, f)
spec m (unsets name) f = if is_name name then (okay, erase name f) else (einval, f)
spec m (puts x) f = spec_put m x.text (equals_at x.text) f
spec m clears f = (okay, λ (k : List ℕ). none)

-- The environment is in order and has these values.
abbrev pub HasIn : List Str → List EnvStr → Values → Type 0
HasIn xs es f = Wf xs es × ((n : List ℕ) → lookup n es ≡ f n)

abbrev pub Has : Env → Values → Type 0
Has s f = HasIn (strings s.environ) s.table f

abbrev pub Refines : Ends (Errno × Env) → Errno × Values → Type 0
Refines abort r = false ≡ true
Refines (returns (status, s)) (status', f) = (status ≡ status') × Has s f

abbrev pub is_fresh : Option ℕ → Env → Bool
is_fresh none s = true
is_fresh (some a) s = not (has_addr a (strings s.environ))

-- What a call asks of the caller: a new string is not in `environ` yet, and setenv() has memory for its entry.
abbrev pub may_call : Memory → Call → Env → Bool
may_call m (sets name value overwrite) s = m.entry && is_fresh m.string s
may_call m (unsets name) s = true
may_call m (puts x) s = is_fresh (some x.addr) s
may_call m clears s = true
