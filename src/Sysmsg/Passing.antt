-- ===== src/Sysmsg/Passing.antt =====
-- sys/msg/sysmsg.c: a label that a client has added passes its filter.
use native.Mathlib.Nat.{div-add-mod'}
use sneks.Base.{
  ℕ, zero, suc, ◌+◌, ◌/◌, ◌%◌, ◌≤◌, ◌<◌, ◌≡◌, refl, sym, ap, Bool, true, false, ◌&&◌, ◌||◌, List,
  [], ◌∷◌, some, ◌==◌, arith, bit_and, bit_and-low, Bool-cases, ==_iff, inl, inr, get_elem?,
  has_bit, get_or, replicate, bit_xor,
}
use mathlib.Core.Path.{subst}
use sneks.Sysmsg.{
  filter_inc, get_slots, filter_query, inc_slots, slots_for, for_each_bit, add_label, add_labels,
  passes_bits, filter_pass, MsgClient, Server,
}
use sneks.Sysmsg.Filter.{counter, IsFilter, counter_le, filter_inc-counter, in_slot-counter}
use sneks.Sysmsg.Clients.{add_filter, add_filter_of, add_to, filter_or_new, client_or_new}

low_seven : (x : ℕ) → bit_and x 127 ≡ x % 128
low_seven x = omega (
  arith,
  ap (λ (t : ℕ). bit_and t 127) (div-add-mod' x 128),
  bit_and-low 7 (x / 128) (x % 128) (omega arith),
)

abbrev AreSlots : ℕ × ℕ × ℕ → Type 0
AreSlots (a, b, c) = (a < 128) × (b < 128) × (c < 128)

get_slots-AreSlots : (hash : ℕ) → AreSlots (get_slots hash)
unfolding get_slots
get_slots-AreSlots hash = (
  omega (arith, low_seven hash),
  omega (arith, low_seven (hash / 128)),
  omega (arith, low_seven (hash / 128 / 128)),
)

-- The second filter counts at least what the first does.
abbrev Grows : List ℕ → List ℕ → Type 0
Grows f g = IsFilter g × ((j : ℕ) → counter f j ≤ counter g j)

inc-Grows :
    (f : List ℕ) (slot : ℕ)
    → IsFilter f
    → slot < 128
    → Grows f (filter_inc f slot).0 × (0 < counter (filter_inc f slot).0 slot)
inc-Grows f slot valid h = (
  (
    (filter_inc-counter f slot valid h).0,
    λ j. ground (arith, (filter_inc-counter f slot valid h).2 j, counter_le f j),
  ),
  ground (arith, (filter_inc-counter f slot valid h).2 slot),
)

query-counter :
    (f : List ℕ) (a b c : ℕ)
    → 0 < counter f a
    → 0 < counter f b
    → 0 < counter f c
    → filter_query f (a, b, c) ≡ true
unfolding filter_query
query-counter f a b c ha hb hc =
    rw (in_slot-counter f a, in_slot-counter f b, in_slot-counter f c) (ground arith)

query_counters :
    (f : List ℕ) (a b c : ℕ)
    → filter_query f (a, b, c) ≡ true
    → (0 < counter f a) × (0 < counter f b) × (0 < counter f c)
unfolding filter_query
query_counters f a b c h =
    ground (arith, in_slot-counter f a, in_slot-counter f b, in_slot-counter f c)

-- A query that holds goes on to hold.
Grows-query :
    (f g : List ℕ) (slots : ℕ × ℕ × ℕ)
    → Grows f g
    → filter_query f slots ≡ true
    → filter_query g slots ≡ true
Grows-query f g (a, b, c) (valid, more) h =
    query-counter g a b c (omega (arith, query_counters f a b c h, more a))
      (omega (arith, query_counters f a b c h, more b))
      (omega (arith, query_counters f a b c h, more c))

Grows-trans : (f g h : List ℕ) → Grows f g → Grows g h → Grows f h
Grows-trans f g h (v, m) (w, n) = (w, λ j. omega (arith, m j, n j))

or_left : {a : Bool} (b : Bool) → a ≡ true → a || b ≡ true
or_left b e = ground arith

or_true : (a : Bool) → a || true ≡ true
or_true a = ground arith

and_both : {a b : Bool} → a ≡ true → b ≡ true → a && b ≡ true
and_both e f = ground arith

some-injective : {x y : ℕ} → some x ≡ some y → x ≡ y
some-injective e = ground arith

clash : {b : Bool} → b ≡ false → b ≡ true → ⊥
clash e f = ground arith

==_self : (k : ℕ) → (k == k) ≡ true
==_self k = ground arith

get_or-replicate_zero : (n i : ℕ) → get_or {A = ℕ} (replicate n 0) i 0 ≡ 0
get_or-replicate_zero zero i = refl
get_or-replicate_zero (suc n) zero = refl
get_or-replicate_zero (suc n) (suc i) = get_or-replicate_zero n i

pub zeros-IsFilter : IsFilter (replicate 16 0)
zeros-IsFilter = (refl, λ i. omega (arith, get_or-replicate_zero 16 i))

module _ (int_hash : ℕ → ℕ) (filter_salt : ℕ → ℕ) where
  inc_slots-Grows :
      (slots : ℕ × ℕ × ℕ) (f : List ℕ)
      → AreSlots slots
      → IsFilter f
      → Grows f (inc_slots int_hash filter_salt slots f)
        × (filter_query (inc_slots int_hash filter_salt slots f) slots ≡ true)
  unfolding inc_slots
  inc_slots-Grows (a, b, c) f (ha, hb, hc) valid = (
    Grows-trans f f1 f3 (inc-Grows f a valid ha).0
        (Grows-trans f1 f2 f3 (inc-Grows f1 b v1 hb).0 (inc-Grows f2 c v2 hc).0),
    query-counter f3 a b c
        (omega (
          arith,
          (inc-Grows f a valid ha).1,
          (inc-Grows f1 b v1 hb).0.1 a,
          (inc-Grows f2 c v2 hc).0.1 a,
        ))
        (omega (arith, (inc-Grows f1 b v1 hb).1, (inc-Grows f2 c v2 hc).0.1 b))
        (inc-Grows f2 c v2 hc).1,
  )
    where
      f1 : List ℕ
      f1 = (filter_inc f a).0

      f2 : List ℕ
      f2 = (filter_inc f1 b).0

      f3 : List ℕ
      f3 = (filter_inc f2 c).0

      v1 : IsFilter f1
      v1 = (inc-Grows f a valid ha).0.0

      v2 : IsFilter f2
      v2 = (inc-Grows f1 b v1 hb).0.0

  Grows-refl : (f : List ℕ) → IsFilter f → Grows f f
  Grows-refl f valid = (valid, λ j. omega arith)

  -- One bit of the loop for a label.
  abbrev inc_bit : (hash : ℕ) → ℕ → List ℕ → List ℕ
  inc_bit hash bit f = inc_slots int_hash filter_salt (slots_for int_hash filter_salt hash bit) f

  inc_bit-Grows :
      (hash bit : ℕ) (f : List ℕ)
      → IsFilter f
      → Grows f (inc_bit hash bit f)
        × (filter_query (inc_bit hash bit f) (slots_for int_hash filter_salt hash bit) ≡ true)
  inc_bit-Grows hash bit f valid =
      inc_slots-Grows (slots_for int_hash filter_salt hash bit) f
        (get_slots-AreSlots (bit_xor hash (filter_salt bit))) valid

  -- The loop over `n` bits from `b` on keeps the counts and adds the label for its bits.
  abbrev Adds : (hash mask n b : ℕ) → (f g : List ℕ) → Type 0
  Adds hash mask n b f g =
      Grows f g
      × ((bit : ℕ)
          → b ≤ bit
          → bit < b + n
          → has_bit mask bit ≡ true
          → filter_query g (slots_for int_hash filter_salt hash bit) ≡ true)

  Adds-on :
      (hash mask n b : ℕ) (f g : List ℕ)
      → IsFilter f
      → Adds hash mask n (b + 1) (inc_bit hash b f) g
      → Adds hash mask (suc n) b f g
  Adds-on hash mask n b f g valid (grows, later) = (
    Grows-trans f (inc_bit hash b f) g (inc_bit-Grows hash b f valid).0 grows,
    λ bit low high has. elim (Bool-cases (b == bit)) [
      | inl at ↦
          subst (λ (k : ℕ). filter_query g (slots_for int_hash filter_salt hash k) ≡ true)
            ((==_iff b bit).0 at)
            (Grows-query (inc_bit hash b f) g (slots_for int_hash filter_salt hash b) grows
              (inc_bit-Grows hash b f valid).1)
      | inr past ↦ later bit (ground arith) (omega arith) has
    ],
  )

  Adds-off :
      (hash mask n b : ℕ) (f g : List ℕ)
      → has_bit mask b ≡ false
      → Adds hash mask n (b + 1) f g
      → Adds hash mask (suc n) b f g
  Adds-off hash mask n b f g off (grows, later) = (
    grows,
    λ bit low high has. elim (Bool-cases (b == bit)) [
      | inl at ↦
          absurd
            (clash off (subst (λ (k : ℕ). has_bit mask k ≡ true) (sym ((==_iff b bit).0 at)) has))
      | inr past ↦ later bit (ground arith) (omega arith) has
    ],
  )

  loop-Adds :
      (hash mask n b : ℕ) (f : List ℕ)
      → IsFilter f
      → Adds hash mask n b f (for_each_bit (inc_bit hash) mask n b f)
  unfolding for_each_bit
  loop-Adds hash mask zero b f valid =
      (Grows-refl f valid, λ bit low high has. absurd (omega arith))
  loop-Adds hash mask (suc n) b f valid = elim (Bool-cases (has_bit mask b)) [
    | inl on ↦ rw on (
        Adds-on hash mask n b f _ valid
          (loop-Adds hash mask n (b + 1) (inc_bit hash b f) (inc_bit-Grows hash b f valid).0.0))
    | inr off ↦ rw off (Adds-off hash mask n b f _ off (loop-Adds hash mask n (b + 1) f valid))
  ]

  -- The label has been added for each bit of the mask.
  abbrev Knows : (mask label : ℕ) → List ℕ → Type 0
  Knows mask label f =
      (bit : ℕ)
      → bit < 32
      → has_bit mask bit ≡ true
      → filter_query f (slots_for int_hash filter_salt (int_hash label) bit) ≡ true

  add_label-Knows :
      (mask label : ℕ) (f : List ℕ)
      → IsFilter f
      → Grows f (add_label int_hash filter_salt mask label f)
        × Knows mask label (add_label int_hash filter_salt mask label f)
  unfolding add_label
  add_label-Knows mask label f valid = (
    (loop-Adds (int_hash label) mask 32 0 f valid).0,
    λ bit h has.
        (loop-Adds (int_hash label) mask 32 0 f valid).1 bit (omega arith) (omega arith) has,
  )

  add_labels-Grows :
      (mask : ℕ) (labels : List ℕ) (f : List ℕ)
      → IsFilter f
      → Grows f (add_labels int_hash filter_salt mask labels f)
  unfolding add_labels
  add_labels-Grows mask [] f valid = Grows-refl f valid
  add_labels-Grows mask (l ∷ labels) f valid =
      Grows-trans f (add_label int_hash filter_salt mask l f) _ (add_label-Knows mask l f valid).0
        (add_labels-Grows mask labels _ (add_label-Knows mask l f valid).0.0)

  add_labels-Knows :
      (mask : ℕ) (labels : List ℕ) (i label : ℕ) (f : List ℕ)
      → IsFilter f
      → get_elem? labels i ≡ some label
      → Knows mask label (add_labels int_hash filter_salt mask labels f)
  unfolding add_labels
  add_labels-Knows mask [] i label f valid e bit h has = absurd (ground arith)
  add_labels-Knows mask (l ∷ labels) zero label f valid e bit h has =
      Grows-query (add_label int_hash filter_salt mask l f) _
        (slots_for int_hash filter_salt (int_hash label) bit)
        (add_labels-Grows mask labels _ (add_label-Knows mask l f valid).0.0)
        (subst
          (λ (x : ℕ).
            filter_query (add_label int_hash filter_salt mask l f)
              (slots_for int_hash filter_salt (int_hash x) bit)
            ≡ true)
          (some-injective e) ((add_label-Knows mask l f valid).1 bit h has))
  add_labels-Knows mask (l ∷ labels) (suc i) label f valid e bit h has =
      add_labels-Knows mask labels i label _ (add_label-Knows mask l f valid).0.0 e bit h has

  passes_bits-true :
      (f : List ℕ) (maskp hash n b bit : ℕ)
      → b ≤ bit
      → bit < b + n
      → has_bit maskp bit ≡ true
      → filter_query f (slots_for int_hash filter_salt hash bit) ≡ true
      → passes_bits int_hash filter_salt f maskp hash n b ≡ true
  unfolding passes_bits
  passes_bits-true f maskp hash zero b bit low high has query = absurd (omega arith)
  passes_bits-true f maskp hash (suc n) b bit low high has query = elim (Bool-cases (b == bit)) [
    | inl at ↦ or_left _ (
        subst
          (λ (k : ℕ).
            (has_bit maskp k && filter_query f (slots_for int_hash filter_salt hash k)) ≡ true)
          (sym ((==_iff b bit).0 at)) (and_both has query))
    | inr past ↦
        rw (passes_bits-true f maskp hash n (b + 1) bit (ground arith) (omega arith) has query)
          (or_true _)
  ]

  -- After add_filter() of a client, with a filter that is valid or none yet, each of the labels is
  -- let through by the client's filter for a broadcast to any bit of the mask.
  pub add_filter_passes :
      (pid mask maskp bit i label : ℕ) (labels : List ℕ) (c : MsgClient) (s : Server)
      → s.clients pid ≡ some c
      → IsFilter (filter_or_new int_hash filter_salt c.filter)
      → bit < 32
      → has_bit mask bit ≡ true
      → has_bit maskp bit ≡ true
      → get_elem? labels i ≡ some label
      → filter_pass int_hash filter_salt
          (client_or_new ((add_filter int_hash filter_salt pid mask labels s).clients pid)).filter
          maskp
          (int_hash label)
        ≡ true
  unfolding add_filter add_filter_of add_to filter_pass
  add_filter_passes pid mask maskp bit i label labels c s known valid h has hasp at =
      rw (known, ==_self pid)
        (passes_bits-true
          (add_labels int_hash filter_salt mask labels
            (filter_or_new int_hash filter_salt c.filter))
          maskp (int_hash label) 32 0 bit (omega arith) (omega arith) hasp
          (add_labels-Knows mask labels i label _ valid at bit h has))
