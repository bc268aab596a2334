-- ===== src/Tss.antt =====
-- lib/tss.c: the keys of thread-specific storage and one thread's values. A null pointer is 0.
pub mod Keys
pub mod Values
mod Tests
use sneks.Base.{
  ℕ, zero, suc, ◌+◌, ◌-◌, Bool, ◌||◌, Option, none, some, List, [], ◌∷◌, ◌++◌, ◌==◌, ltb,
  if◌then◌else◌, length, get_or, set, replicate, update,
}

-- The loop of tss_create() from key `i`, with so many keys left: the first key whose destructor is null.
unfoldable pub free_key : (left i : ℕ) → (ℕ → ℕ) → Option ℕ
free_key zero i dtors = none
free_key (suc left) i dtors =
    let rest = free_key left (suc i) dtors in if dtors i == 0 then some i else rest

-- With the key, or thrd_error, the destructors afterwards.
unfoldable pub create_at : Option ℕ → ℕ → (ℕ → ℕ) → Option ℕ × (ℕ → ℕ)
create_at none dtor dtors = (none, dtors)
create_at (some i) dtor dtors = (some i, update dtors i dtor)

unfoldable pub tss_create : ℕ → (ℕ → ℕ) → Option ℕ × (ℕ → ℕ)
tss_create dtor dtors = create_at (free_key 15 1 dtors) dtor dtors

unfoldable pub tss_delete : ℕ → (ℕ → ℕ) → ℕ → ℕ
tss_delete key dtors = update dtors key 0

-- `struct tss`, of which a thread has none at first.
pub record Tss : Type 0 where
  pub max : ℕ
  pub ptrs : List ℕ

unfoldable pub tss_get : ℕ → Option Tss → ℕ
tss_get key none = 0
tss_get key (some t) = if ltb t.max key then 0 else get_or t.ptrs key 0

abbrev pub nulls : ℕ → List ℕ
nulls n = replicate n 0

-- The pointers after realloc(), with null in the new ones.
unfoldable pub grow : ℕ → List ℕ → List ℕ
grow key ptrs = ptrs ++ nulls (key + 1 - length ptrs)

unfoldable pub store_value : ℕ → ℕ → Option Tss → Option Tss
store_value key value none = some (record { max = key; ptrs = set (grow key []) key value })
store_value key value (some t) =
    if ltb t.max key
    then some (record { max = key; ptrs = set (grow key t.ptrs) key value })
    else some (record t { ptrs = set t.ptrs key value })

unfoldable pub tss_set : ℕ → ℕ → Option Tss → Option Tss
tss_set key value t = if key == 0 || ltb 15 key then t else store_value key value t
