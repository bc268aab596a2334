-- ===== src/Sysmsg/Tests.antt =====
-- The system message server with two clients, 50003 and 50005, and a label filter.
use sneks.Base.{
  ℕ, ◌≡◌, refl, true, not, ◌&&◌, List, [], ◌∷◌, some, none, ◌==◌, if◌then◌else◌, arith, min, ◌+◌,
  has_bit-eq, test_bit-zero, bit_and, ℤ, pos, replicate, abort, update,
}
use sneks.Sysmsg.{
  MsgClient, Server, for_each_bit, filter_inc, filter_dec, filter_query, get_slots, add_labels,
  add_label, inc_slots, dec_slots, remove_labels, remove_bit, filter_pass,
}
use sneks.Sysmsg.Clients.{
  setmask, add_filter, add_filter_of, add_to, rm_filter, rm_filter_of, rm_filter_by, remove_from,
  store_client, popcount, impl_broadcast, client_or_new, wants,
}
use sneks.Sysmsg.Filter.{counter, IsFilter, filter_inc-counter}
use sneks.Sysmsg.Passing.{zeros-IsFilter, add_filter_passes}
use sneks.Sysmsg.Subscribed.{entries, mask_of, TableRight, SetsMask, setmask-SetsMask}
use sneks.Sysmsg.Order.{mem, is_increasing}
use sneks.Sysmsg.Recipients.{client_of, none_delays, impl_broadcast_reaches}

abbrev empty : Server
empty = record { clients = λ pid. none; subs = [] }

empty-TableRight : TableRight empty
unfolding entries
empty-TableRight =
    (λ pid. omega arith, λ pid bit h. ground (arith, has_bit-eq 0 bit, test_bit-zero bit))

setmask-SetsMask_example : SetsMask 50005 5 0 empty (setmask 50005 5 0 empty)
setmask-SetsMask_example = setmask-SetsMask 50005 5 0 empty (omega arith) empty-TableRight

abbrev one_client : Server
one_client = (setmask 50005 5 0 empty).1

abbrev two_clients : Server
two_clients = (setmask 50003 4 0 one_client).1

two_clients-TableRight : TableRight two_clients
two_clients-TableRight =
    (setmask-SetsMask 50003 4 0 one_client (omega arith) setmask-SetsMask_example.0).0

-- A hash and salts for the tests.
abbrev times : ℕ → ℕ
times x = x + 77

abbrev salt : ℕ → ℕ
salt bit = bit

abbrev quick : ℕ → ℤ
quick pid = pos 0

impl_broadcast_reaches_example :
    (is_increasing (impl_broadcast times salt quick 4 1 9 two_clients).0 ≡ true)
    × (mem 50003 (impl_broadcast times salt quick 4 1 9 two_clients).0
        ≡ (not (bit_and (mask_of two_clients 50003) 4 == 0)
            && (bit_and (mask_of two_clients 50003) 1 == 0))
          && wants times salt 4 (times 9) (client_of times salt quick two_clients 50003))
    × ((impl_broadcast times salt quick 4 1 9 two_clients).1
        ≡ none_delays times salt quick (impl_broadcast times salt quick 4 1 9 two_clients).0)
impl_broadcast_reaches_example =
    impl_broadcast_reaches times salt quick 4 1 9 50003 two_clients two_clients-TableRight

filter_inc-counter_example :
    IsFilter (filter_inc (replicate 16 0) 12).0
    × ((filter_inc (replicate 16 0) 12).1 ≡ (counter (replicate 16 0) 12 == 14))
    × ((j : ℕ)
        → counter (filter_inc (replicate 16 0) 12).0 j ≡ (
            if j == 12
            then min 15 (counter (replicate 16 0) j + 1)
            else counter (replicate 16 0) j))
filter_inc-counter_example = filter_inc-counter (replicate 16 0) 12 zeros-IsFilter (omega arith)

abbrev plain : MsgClient
plain = record { subs_mask = 1; filter_mask = 0; n_filters = 0; filter = none }

abbrev lone : Server
lone = record { clients = update (λ pid. none) 50003 (some plain); subs = (0, 50003) ∷ [] }

add_filter_passes_example :
    filter_pass times salt
      (client_or_new ((add_filter times salt 50003 1 (9 ∷ 10 ∷ []) lone).clients 50003)).filter
      3
      (times 10)
    ≡ true
add_filter_passes_example =
    add_filter_passes times salt 50003 1 3 0 1 10 (9 ∷ 10 ∷ []) plain lone refl zeros-IsFilter
      (omega arith) (ground arith) (ground arith) refl

-- One label that was added sixteen times can be removed seventeen times, which fails the assert.
abbrev sixteen : List ℕ
sixteen = replicate 16 9

rm_filter_aborts :
    rm_filter times salt 50003 1 (9 ∷ sixteen) (add_filter times salt 50003 1 sixteen lone) ≡ abort
unfolding rm_filter rm_filter_of rm_filter_by remove_from store_client remove_labels remove_bit
    filter_dec dec_slots filter_query get_slots add_filter add_filter_of add_to add_labels add_label
    inc_slots filter_inc popcount for_each_bit
rm_filter_aborts = refl
