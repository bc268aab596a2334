-- ===== src/Descriptors/Linked.antt =====
-- Handles and the arrays of their owners point at each other, and the two ways in which sys/io/io.c
-- changes the arrays keep this.
use sneks.Base.{
  ℕ, ◌-◌, ◌<◌, ◌≡◌, ◌&&◌, Option, none, some, List, [], ◌∷◌, ◌++◌, arith, ◌==◌, ltb, if◌then◌else◌,
  length, get_elem?, get_or,
}
use sneks.Descriptors.Links.{
  remove_fast, remove_fast-length, get_elem?-remove_fast, get_elem?-append_one, get_elem?-lt,
  get_elem?-get_or,
}

-- `items k` is the array of owner `k`, `key d` the owner of handle `d`, `ix d` its position.
pub record Linked (items : ℕ → List ℕ) (key : ℕ → Option ℕ) (ix : ℕ → ℕ) : Type 0 where
  pub there : (d k : ℕ) → key d ≡ some k → get_elem? (items k) (ix d) ≡ some d
  pub back : (k i d : ℕ) → get_elem? (items k) i ≡ some d → (key d ≡ some k) × (ix d ≡ i)

pub Linked-items :
    {items items' : ℕ → List ℕ} {key : ℕ → Option ℕ} {ix : ℕ → ℕ}
    → Linked items key ix
    → ((j : ℕ) → items' j ≡ items j)
    → Linked items' key ix
Linked-items {items} {items'} {key} {ix} l same = record {
  there = λ d k own. ground (arith, same k, l.there d k own);
  back = λ k i d at. ground (arith, same k, l.back k i d);
}

pub Linked-key :
    {items : ℕ → List ℕ} {key key' : ℕ → Option ℕ} {ix ix' : ℕ → ℕ}
    → Linked items key ix
    → ((d : ℕ) → key' d ≡ key d)
    → ((d : ℕ) → ix' d ≡ ix d)
    → Linked items key' ix'
Linked-key {items} {key} {key'} {ix} {ix'} l same at = record {
  there = λ d k own. ground (arith, same d, at d, l.there d k);
  back = λ k i d placed. ground (arith, same d, at d, l.back k i d placed);
}

-- A handle without an owner is pushed onto the array of `k`.
pub attach-Linked :
    {items items' : ℕ → List ℕ} {key key' : ℕ → Option ℕ} {ix ix' : ℕ → ℕ} (d k : ℕ)
    → Linked items key ix
    → key d ≡ none
    → ((j : ℕ) → items' j ≡ (if k == j then items k ++ (d ∷ []) else items j))
    → ((e : ℕ) → key' e ≡ (if d == e then some k else key e))
    → ((e : ℕ) → ix' e ≡ (if d == e then length (items k) else ix e))
    → Linked items' key' ix'
attach-Linked {items} {items'} {key} {key'} {ix} {ix'} d k l free hi hk hx = record {
  there = λ e j own. ground (
    arith,
    hi j,
    hk e,
    hx e,
    l.there e j,
    get_elem?-append_one (items k) d (ix' e),
    get_elem?-lt (items k) (ix e) e,
  );
  back = λ j i e at.
      ground (arith, hi j, hk e, hx e, l.back j i e, get_elem?-append_one (items k) d i);
}

last_item :
    (xs : List ℕ) (i : ℕ)
    → i < length xs - 1
    → (get_elem? xs (length xs - 1) ≡ some (get_or xs (length xs - 1) 0))
      × (get_or (remove_fast xs i) i 0 ≡ get_or xs (length xs - 1) 0)
last_item xs i h = ground (
  arith,
  get_elem?-get_or xs (length xs - 1) 0,
  get_elem?-remove_fast xs i i,
  remove_fast-length xs i,
  get_elem?-get_or (remove_fast xs i) i 0,
)

-- Handle `d` is taken out of the array of its owner `k`, and the handle that takes its place gets
-- its position.
pub detach-Linked :
    {items items' : ℕ → List ℕ} {key key' : ℕ → Option ℕ} {ix ix' : ℕ → ℕ} (d k : ℕ)
    → Linked items key ix
    → key d ≡ some k
    → ((j : ℕ) → items' j ≡ (if k == j then remove_fast (items k) (ix d) else items j))
    → ((e : ℕ) → key' e ≡ (if d == e then none else key e))
    → ((e : ℕ)
        → ix' e ≡ (
            if ltb (ix d) (length (items k) - 1)
              && (get_or (remove_fast (items k) (ix d)) (ix d) 0 == e)
            then ix d
            else ix e))
    → Linked items' key' ix'
detach-Linked {items} {items'} {key} {key'} {ix} {ix'} d k l own hi hk hx =
    let xs = items k in
    let placed = l.there d k own in
    let inside = get_elem?-lt xs (ix d) d placed in
    let m = get_or xs (length xs - 1) 0 in
    record {
      there = λ e j mine. ground (
        arith,
        hi j,
        hk e,
        hx e,
        l.there e j,
        last_item xs (ix d),
        l.back k (length xs - 1) m,
        l.back k (ix d) e,
        placed,
        inside,
        get_elem?-lt xs (ix e) e,
        get_elem?-remove_fast xs (ix d) (ix' e) inside,
      );
      back = λ j i e at. ground (
        arith,
        hi j,
        hk e,
        hx e,
        last_item xs (ix d),
        l.back k (length xs - 1) m,
        l.back j i e,
        placed,
        inside,
        get_elem?-remove_fast xs (ix d) i inside,
      );
    }
