-- ===== src/Sysmsg.antt =====
-- sys/msg/sysmsg.c: the counting filters of the system message server, and its clients.
pub mod Digits
pub mod Filter
pub mod Passing
pub mod Clients
pub mod Subscribed
pub mod Order
pub mod Recipients
mod Tests
use sneks.Base.{
  ℕ, zero, suc, ◌+◌, ◌-◌, ◌*◌, ◌/◌, ◌%◌, ◌^◌, Bool, true, false, not, ◌&&◌, ◌||◌, Option, none,
  some, List, [], ◌∷◌, ◌++◌, ◌==◌, ltb, leb, if◌then◌else◌, update, get_or, set, bit_and, bit_or,
  bit_xor, compl, has_bit, length, replicate,
}

-- FILTER_SIZE and SLOTS_PER_LIMB for 32-bit words.
abbrev pub filter_size : ℕ
filter_size = 16

abbrev pub slots_per_limb : ℕ
slots_per_limb = 8

abbrev pub limb_of : ℕ → ℕ
limb_of slot = slot / slots_per_limb

abbrev pub offs_of : ℕ → ℕ
offs_of slot = slot % slots_per_limb * 4

abbrev pub limb_at : List ℕ → ℕ → ℕ
limb_at filter slot = get_or filter (limb_of slot) 0

-- filter_inc(): the filter, and whether the field became saturated.
unfoldable pub filter_inc : List ℕ → ℕ → List ℕ × Bool
filter_inc filter slot =
    let field = bit_and (limb_at filter slot / 2 ^ offs_of slot) 0xf in
    (
      if ltb field 0xf
          then set filter (limb_of slot) ((limb_at filter slot + 2 ^ offs_of slot) % 2 ^ 32)
          else filter,
      field == 0xe,
    )

-- filter_dec().
unfoldable pub filter_dec : List ℕ → ℕ → List ℕ
filter_dec filter slot =
    if ltb 1 (bit_and (limb_at filter slot / 2 ^ offs_of slot + 1) 0xf)
    then set filter (limb_of slot) (limb_at filter slot - 2 ^ offs_of slot)
    else filter

-- The three slots of get_slots().
unfoldable pub get_slots : ℕ → ℕ × ℕ × ℕ
get_slots hash = (bit_and hash 127, bit_and (hash / 128) 127, bit_and (hash / 128 / 128) 127)

-- One round of filter_query(), and its three rounds.
abbrev pub in_slot : List ℕ → ℕ → Bool
in_slot filter slot = not (bit_and (limb_at filter slot) (0xf * 2 ^ offs_of slot) == 0)

unfoldable pub filter_query : List ℕ → ℕ × ℕ × ℕ → Bool
filter_query filter (a, b, c) = in_slot filter a && (in_slot filter b && in_slot filter c)

-- `struct msgclient`, by its process ID; its subscriptions are in the table.
pub record MsgClient : Type 0 where
  pub subs_mask : ℕ
  pub filter_mask : ℕ
  pub n_filters : ℕ
  pub filter : Option (List ℕ)

-- `client_ht`, by process ID, and `subs_ht`, as pairs of the bit and the client.
pub record Server : Type 0 where
  pub clients : ℕ → Option MsgClient
  pub subs : List (ℕ × ℕ)

-- for_each_bit(), over the `n` bits from `b` on.
unfoldable pub for_each_bit : {A : Type 0} → (ℕ → A → A) → (mask n b : ℕ) → A → A
for_each_bit f mask zero b a = a
for_each_bit f mask (suc n) b a =
    for_each_bit f mask n (b + 1) (if has_bit mask b then f b a else a)

-- `int_hash` and `filter_salt`.
module _ (int_hash : ℕ → ℕ) (filter_salt : ℕ → ℕ) where
  abbrev pub slots_for : (hash bit : ℕ) → ℕ × ℕ × ℕ
  slots_for hash bit = get_slots (bit_xor hash (filter_salt bit))

  unfoldable pub passes_bits : List ℕ → (maskp hash n b : ℕ) → Bool
  passes_bits filter maskp hash zero b = false
  passes_bits filter maskp hash (suc n) b =
      has_bit maskp b && filter_query filter (slots_for hash b)
      || passes_bits filter maskp hash n (b + 1)

  -- filter_pass().
  unfoldable pub filter_pass : Option (List ℕ) → (maskp hash : ℕ) → Bool
  filter_pass none maskp hash = true
  filter_pass (some filter) maskp hash = passes_bits filter maskp hash 32 0

  -- filter_inc() of the three slots.
  unfoldable pub inc_slots : ℕ × ℕ × ℕ → List ℕ → List ℕ
  inc_slots (a, b, c) filter = (filter_inc (filter_inc (filter_inc filter a).0 b).0 c).0

  unfoldable pub dec_slots : ℕ × ℕ × ℕ → List ℕ → List ℕ
  dec_slots (a, b, c) filter = filter_dec (filter_dec (filter_dec filter a) b) c

  -- The loop of add_filter() over the labels.
  unfoldable pub add_label : (mask label : ℕ) → List ℕ → List ℕ
  add_label mask label filter =
      for_each_bit (λ (bit : ℕ) (f : List ℕ). inc_slots (slots_for (int_hash label) bit) f) mask 32
        0 filter

  unfoldable pub add_labels : (mask : ℕ) → List ℕ → List ℕ → List ℕ
  add_labels mask [] filter = filter
  add_labels mask (label ∷ labels) filter = add_labels mask labels (add_label mask label filter)

  -- One label and bit of rm_filter(), with the count of removals.
  unfoldable pub remove_bit : (label bit : ℕ) → List ℕ × ℕ → List ℕ × ℕ
  remove_bit label bit (filter, removed) =
      if filter_query filter (slots_for (int_hash label) bit)
      then (dec_slots (slots_for (int_hash label) bit) filter, removed + 1)
      else (filter, removed)

  unfoldable pub remove_labels : (mask : ℕ) → List ℕ → List ℕ × ℕ → List ℕ × ℕ
  remove_labels mask [] state = state
  remove_labels mask (label ∷ labels) state =
      remove_labels mask labels (for_each_bit (remove_bit label) mask 32 0 state)
