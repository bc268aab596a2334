-- ===== src/Environ.antt =====
-- lib/env.c: the environment, from one assignment of `environ` by the program to the next. Names
-- and values are lists of bytes without the final zero, and a pointer to a string is its number.
pub mod Table
pub mod Strings
pub mod Spec
pub mod Stored
pub mod Refine
pub mod Session
mod Tests
use sneks.Base.{
  ℕ, zero, suc, ◌+◌, Bool, true, false, not, ◌&&◌, ◌||◌, Option, none, some, List, [], ◌∷◌, ◌++◌,
  ◌==◌, ltb, if◌then◌else◌, length, take, drop, get_or, Ends, abort, returns,
}

unfoldable pub bytes_eq : (xs ys : List ℕ) → Bool
bytes_eq [] [] = true
bytes_eq [] (y ∷ ys) = false
bytes_eq (x ∷ xs) [] = false
bytes_eq (x ∷ xs) (y ∷ ys) = x == y && bytes_eq xs ys

-- A string of the environment, by its address, with its bytes.
pub record Str : Type 0 where
  pub addr : ℕ
  pub text : List ℕ

pub record EnvStr : Type 0 where
  pub str : Str
  pub keylen : ℕ
  pub is_ours : Bool

-- `environ`, which may be NULL, the hash table, and whether this file allocated `environ`.
pub record Env : Type 0 where
  pub environ : Option (List Str)
  pub table : List EnvStr
  pub our_environ : Bool

-- strchr() of '=', as an offset.
unfoldable pub equals_at : List ℕ → Option ℕ
equals_at [] = none
equals_at (c ∷ s) =
    let rest = equals_at s in
    if c == b'=' then some 0 else elim rest [ none ↦ none | some k ↦ some (suc k) ]

abbrev pub is_some {ℓ} : {A : Type ℓ} → Option A → Bool
is_some none = false
is_some (some a) = true

-- What setenv() and unsetenv() take for a name.
abbrev pub is_name : List ℕ → Bool
is_name [] = false
is_name (c ∷ s) = not (is_some (equals_at (c ∷ s)))

unfoldable pub cmp_envstr_key : EnvStr → List ℕ → Bool
cmp_envstr_key e key = bytes_eq (take e.keylen e.str.text) key

-- htable_get(): the entry for a key, as its place in the table.
unfoldable pub find_key : List ℕ → List EnvStr → Option ℕ
find_key key [] = none
find_key key (e ∷ es) =
    let rest = find_key key es in
    if cmp_envstr_key e key then some 0 else elim rest [ none ↦ none | some i ↦ some (suc i) ]

abbrev pub entry_at : ℕ → List EnvStr → Option EnvStr
entry_at i [] = none
entry_at zero (e ∷ es) = some e
entry_at (suc i) (e ∷ es) = entry_at i es

-- htable_del() of the entry at a place.
unfoldable pub htable_del : ℕ → List EnvStr → List EnvStr
htable_del i [] = []
htable_del zero (e ∷ es) = es
htable_del (suc i) (e ∷ es) = e ∷ htable_del i es

-- The assert of getenv(), and the value.
abbrev pub value_of : Option EnvStr → Ends (Option (List ℕ))
value_of none = returns none
value_of (some e) =
    if get_or e.str.text e.keylen 0 == b'='
    then returns (some (drop (e.keylen + 1) e.str.text))
    else abort

abbrev pub get_from : List EnvStr → Option ℕ → Ends (Option (List ℕ))
get_from es none = returns none
get_from es (some i) = value_of (entry_at i es)

-- getenv(), where `environ` is NULL or as it was cached.
unfoldable pub getenv_in : Option (List Str) → List ℕ → List EnvStr → Ends (Option (List ℕ))
getenv_in none key es = returns none
getenv_in (some strs) key es = get_from es (find_key key es)

unfoldable pub getenv : List ℕ → Env → Ends (Option (List ℕ))
getenv key s = getenv_in s.environ key s.table

-- The strings, none if `environ` is NULL.
abbrev pub strings : Option (List Str) → List Str
strings none = []
strings (some strs) = strs

abbrev pub has_addr : ℕ → List Str → Bool
has_addr a [] = false
has_addr a (x ∷ xs) = x.addr == a || has_addr a xs

-- The first string with an address taken out, replaced by another one, and all of them taken out.
unfoldable pub remove_addr : ℕ → List Str → List Str
remove_addr a [] = []
remove_addr a (x ∷ xs) = let rest = remove_addr a xs in if x.addr == a then xs else x ∷ rest

unfoldable pub replace_addr : ℕ → Str → List Str → List Str
replace_addr a y [] = []
replace_addr a y (x ∷ xs) =
    let rest = replace_addr a y xs in if x.addr == a then y ∷ xs else x ∷ rest

unfoldable pub without_addr : ℕ → List Str → List Str
without_addr a [] = []
without_addr a (x ∷ xs) = let rest = without_addr a xs in if x.addr == a then rest else x ∷ rest

pub data Errno : Type 0 where
  okay : Errno
  einval : Errno
  enomem : Errno

-- What malloc(), htable_add() and realloc() answer: whether there is memory for the entry, where
-- the string is, if there is memory for it, and whether there is memory in the table and for `environ`.
pub record Memory : Type 0 where
  pub entry : Bool
  pub string : Option ℕ
  pub in_table : Bool
  pub vector : Bool

-- The address of the string of an entry.
abbrev pub addr_at : ℕ → List EnvStr → ℕ
addr_at i [] = 0
addr_at zero (e ∷ es) = e.str.addr
addr_at (suc i) (e ∷ es) = addr_at i es

-- The end of setenv(): the new string, and the old one removed.
unfoldable pub insert : EnvStr → Option ℕ → Env → Ends (Errno × Env)
insert e none s = returns (
  okay,
  record {
    environ = some (strings s.environ ++ (e.str ∷ []));
    table = s.table ++ (e ∷ []);
    our_environ = true;
  },
)
insert e (some i) s =
    if has_addr (addr_at i s.table) (strings s.environ)
    then returns (
      okay,
      record {
        environ = some (remove_addr (addr_at i s.table) (strings s.environ) ++ (e.str ∷ []));
        table = htable_del i (s.table ++ (e ∷ []));
        our_environ = true;
      },
    )
    else abort

-- setenv() from its first allocation, with the address of the string. When the table or `environ`
-- has no memory, the entry is freed or taken out again.
unfoldable pub set_string :
    Memory → (name value : List ℕ) → Option ℕ → Option ℕ → Env → Ends (Errno × Env)
set_string m name value none old s = returns (enomem, s)
set_string m name value (some a) old s =
    if m.in_table && m.vector
    then insert
        (record {
          str = record { addr = a; text = name ++ (b'=' ∷ value) };
          keylen = length name;
          is_ours = true;
        })
        old s
    else returns (enomem, s)

-- setenv(); without memory for the entry it reads a null pointer.
unfoldable pub setenv :
    Memory → (name value : List ℕ) → (overwrite : Bool) → Env → Ends (Errno × Env)
setenv m name value overwrite s =
    if not (is_name name) || ltb 32767 (length name)
    then returns (einval, s)
    else if is_some (find_key name s.table) && not overwrite
    then returns (okay, s)
    else if m.entry
    then set_string m name value m.string (find_key name s.table) s
    else abort

unfoldable pub unset_at : Option ℕ → Env → Ends (Errno × Env)
unset_at none s = returns (okay, s)
unset_at (some i) s = elim s.environ [
  | none ↦ abort
  | some strs ↦ returns (
    okay,
    record s {
      environ = some (without_addr (addr_at i s.table) strs);
      table = htable_del i s.table;
    },
  )
]

unfoldable pub unsetenv : (name : List ℕ) → Env → Ends (Errno × Env)
unsetenv name s = if is_name name then unset_at (find_key name s.table) s else returns (einval, s)

-- putenv() from htable_add() on.
unfoldable pub put_string : Memory → EnvStr → Option ℕ → Env → Ends (Errno × Env)
put_string m e none s =
    if m.vector
    then returns (
      okay,
      record {
        environ = some (strings s.environ ++ (e.str ∷ []));
        table = s.table ++ (e ∷ []);
        our_environ = true;
      },
    )
    else returns (enomem, s)
put_string m e (some i) s =
    if has_addr (addr_at i s.table) (strings s.environ)
    then returns (
      okay,
      record s {
        environ = some (replace_addr (addr_at i s.table) e.str (strings s.environ));
        table = htable_del i (s.table ++ (e ∷ []));
      },
    )
    else abort

unfoldable pub put_at : Memory → Str → Option ℕ → Env → Ends (Errno × Env)
put_at m x none s = returns (okay, s)
put_at m x (some zero) s = returns (okay, s)
put_at m x (some (suc k)) s =
    if ltb 32767 (suc k) || not m.entry || not m.in_table
    then returns (enomem, s)
    else put_string m (record { str = x; keylen = suc k; is_ours = false })
        (find_key (take (suc k) x.text) s.table) s

unfoldable pub putenv : Memory → Str → Env → Ends (Errno × Env)
putenv m x s = put_at m x (equals_at x.text) s

unfoldable pub clearenv : Env → Env
clearenv s = record s { environ = none; table = [] }
