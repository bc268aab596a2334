-- ===== src/Descriptors/Links.antt =====
-- Arrays of handles with back indices, as `struct client` and `struct io_file` of sys/io keep them:
-- every handle knows its position in the array of its owner.
use sneks.Base.{
  ℕ, zero, suc, ◌-◌, ◌<◌, ◌≡◌, refl, none, some, List, [], ◌∷◌, ◌++◌, arith, ◌==◌, ltb,
  if◌then◌else◌, length, get_elem?, get_or, set, take, length-set, length-take,
}

-- darray_remove_fast(): the last item takes the place of the one at `i`.
unfoldable pub remove_fast : List ℕ → ℕ → List ℕ
remove_fast xs i =
    let size = length xs - 1 in
    if ltb i size then set (take size xs) i (get_or xs size 0) else take size xs

module _ {ℓ} {A : Type ℓ} where
  pub get_elem?-set :
      (xs : List A) (i j : ℕ) (v : A)
      → i < length xs
      → get_elem? (set xs i v) j ≡ (if i == j then some v else get_elem? xs j)
  get_elem?-set [] i j v h = absurd (omega arith)
  get_elem?-set (x ∷ xs) zero zero v h = refl
  get_elem?-set (x ∷ xs) zero (suc j) v h = ground arith
  get_elem?-set (x ∷ xs) (suc i) zero v h = ground arith
  get_elem?-set (x ∷ xs) (suc i) (suc j) v h = ground (arith, get_elem?-set xs i j v)

  pub get_elem?-take :
      (n : ℕ) (xs : List A) (j : ℕ)
      → get_elem? (take n xs) j ≡ (if ltb j n then get_elem? xs j else none)
  get_elem?-take zero xs j = ground arith
  get_elem?-take (suc n) [] j = ground arith
  get_elem?-take (suc n) (x ∷ xs) zero = ground arith
  get_elem?-take (suc n) (x ∷ xs) (suc j) = ground (arith, get_elem?-take n xs j)

  pub get_elem?-append_one :
      (xs : List A) (y : A) (j : ℕ)
      → get_elem? (xs ++ (y ∷ [])) j ≡ (if j == length xs then some y else get_elem? xs j)
  get_elem?-append_one [] y zero = refl
  get_elem?-append_one [] y (suc j) = ground arith
  get_elem?-append_one (x ∷ xs) y zero = ground arith
  get_elem?-append_one (x ∷ xs) y (suc j) = ground (arith, get_elem?-append_one xs y j)

  pub get_elem?-lt : (xs : List A) (i : ℕ) (x : A) → get_elem? xs i ≡ some x → i < length xs
  get_elem?-lt [] i x e = absurd (ground arith)
  get_elem?-lt (y ∷ xs) zero x e = omega arith
  get_elem?-lt (y ∷ xs) (suc i) x e = omega (arith, get_elem?-lt xs i x e)

  pub get_elem?-get_or :
      (xs : List A) (i : ℕ) (d : A) → i < length xs → get_elem? xs i ≡ some (get_or xs i d)
  get_elem?-get_or [] i d h = absurd (omega arith)
  get_elem?-get_or (x ∷ xs) zero d h = refl
  get_elem?-get_or (x ∷ xs) (suc i) d h = get_elem?-get_or xs i d (omega arith)

pub remove_fast-length : (xs : List ℕ) (i : ℕ) → length (remove_fast xs i) ≡ length xs - 1
unfolding remove_fast
remove_fast-length xs i = ground (
  arith,
  length-take (length xs - 1) xs,
  length-set (take (length xs - 1) xs) i (get_or xs (length xs - 1) 0),
)

pub get_elem?-remove_fast :
    (xs : List ℕ) (i j : ℕ)
    → i < length xs
    → get_elem? (remove_fast xs i) j ≡ (
        if ltb j (length xs - 1)
        then (if i == j then some (get_or xs (length xs - 1) 0) else get_elem? xs j)
        else none)
unfolding remove_fast
get_elem?-remove_fast xs i j h = ground (
  arith,
  length-take (length xs - 1) xs,
  get_elem?-take (length xs - 1) xs j,
  get_elem?-set (take (length xs - 1) xs) i j (get_or xs (length xs - 1) 0),
)
