-- ===== src/Descriptors/Tests.antt =====
-- The theorems on the descriptor table of sys/io/io.c at a table with two processes.
use sneks.Base.{
  false, has_bit, ℕ, zero, suc, ◌≡◌, refl, true, Option, none, some, [], ◌∷◌, ℤ, pos, arith, ◌==◌,
  ◌||◌, ap, ◌^◌, length, get_or, replicate,
}
use sneks.Descriptors.{shadow_bit, Io, fd_dtor, unlink_client, unlink_file}
use sneks.Descriptors.Links.{remove_fast}
use sneks.Descriptors.Operations.{
  alloc_fd, link, new_fd, io_add_fd, touch, client_dtor, client_dtor_loop, fork_round,
  take_transfer, transfer,
}
use sneks.Descriptors.Invariant.{Wf}
use sneks.Descriptors.Destroy.{Gone, Ended, fd_dtor_removes, client_dtor_ends}
use sneks.Descriptors.Create.{Fresh, Unused, Added, link-Wf, io_add_fd_adds}
use sneks.Descriptors.Transfers.{Touched, touch_moves}
use sneks.Descriptors.Inherit.{Rounds, fork_round_inherits}

-- Clients 5 and 9 are known; 9 has a translation table for three numbers.
abbrev empty : Io
empty = record {
  fds = λ d. new_fd 0 0;
  clients = λ p. record { is_known = p == 5 || (p == 9); handles = []; fd_table = replicate 3 0 };
  files = λ f. record { handles = []; flags = 0 };
  transfers = record { fd = 1; target = 9 } ∷ [];
  closed = [];
}

empty-Wf : Wf empty
empty-Wf = record {
  clients_linked = record {
    there = λ d k own. absurd (ground arith);
    back = λ k i d at. absurd (ground arith);
  };
  files_linked = record {
    there = λ d k own. absurd (ground arith);
    back = λ k i d at. absurd (ground arith);
  };
}

-- Descriptors 1, in transfer to process 9, and 2 of process 5, both of file 7.
abbrev one_open : Io
one_open = link 1 5 (new_fd 7 (2 ^ 27)) empty

one_open-Wf : Wf one_open
one_open-Wf = link-Wf 1 5 (new_fd 7 (2 ^ 27)) empty empty-Wf refl

abbrev two_open : Io
two_open = link 2 5 (new_fd 7 0) one_open

second_free : (one_open.fds 2).owner ≡ none
unfolding link
second_free = refl

two_open-Wf : Wf two_open
two_open-Wf = link-Wf 2 5 (new_fd 7 0) one_open one_open-Wf second_free

first_owner : (two_open.fds 1).owner ≡ some 5
unfolding link
first_owner = refl

two_open-Fresh : Fresh two_open
unfolding link
two_open-Fresh p unknown = ground arith

three-Unused : Unused (3 ∷ []) two_open
unfolding link
three-Unused zero d at = (ground arith, ground arith)
three-Unused (suc i) d at = absurd (ground arith)

abbrev no_error : ℕ → ℤ
no_error f = pos 0

abbrev after_end : Option Io → Io
after_end none = empty
after_end (some io) = io

abbrev after_dtor : Option (ℤ × Io) → Io
after_dtor none = empty
after_dtor (some r) = r.1

-- Number 2 takes the place of number 1 in both arrays.
moves_last :
    (((after_dtor (fd_dtor no_error 1 true two_open)).clients 5).handles ≡ 2 ∷ [])
    × (((after_dtor (fd_dtor no_error 1 true two_open)).fds 2).client_ix ≡ 0)
    × (((after_dtor (fd_dtor no_error 1 true two_open)).files 7).handles ≡ 2 ∷ [])
    × ((after_dtor (fd_dtor no_error 1 true two_open)).closed ≡ [])
unfolding fd_dtor link unlink_client unlink_file remove_fast
moves_last = (refl, refl, refl, refl)

fd_dtor_removes_example :
    (n : ℤ) × (io' : Io) × (fd_dtor no_error 1 true two_open ≡ some (n, io'))
    × Gone 1 5 two_open io'
fd_dtor_removes_example = fd_dtor_removes no_error 1 5 true two_open two_open-Wf first_owner

client_dtor_ends_example :
    (io' : Io) × (client_dtor no_error 5 two_open ≡ some io') × Ended 5 two_open io'
client_dtor_ends_example = client_dtor_ends no_error 5 two_open two_open-Wf

closes_once :
    ((after_end (client_dtor no_error 5 two_open)).closed ≡ 7 ∷ [])
    × (((after_end (client_dtor no_error 5 two_open)).clients 5).handles ≡ [])
unfolding client_dtor client_dtor_loop fd_dtor link unlink_client unlink_file remove_fast
closes_once = (refl, refl)

io_add_fd_adds_example :
    Wf (io_add_fd true (3 ∷ []) 9 7 0 two_open).1
    × Added 9 7 two_open (io_add_fd true (3 ∷ []) 9 7 0 two_open)
io_add_fd_adds_example =
    io_add_fd_adds true (3 ∷ []) 9 7 0 two_open two_open-Wf two_open-Fresh three-Unused

adds_three : (io_add_fd true (3 ∷ []) 9 7 0 two_open).0 ≡ pos 3
unfolding io_add_fd alloc_fd link
adds_three = refl

touch_moves_example :
    Wf (touch true 1 9 two_open).1 × Touched 1 9 two_open (touch true 1 9 two_open)
touch_moves_example = touch_moves true 1 9 two_open two_open-Wf two_open-Fresh

touches :
    ((touch true 1 9 two_open).0 ≡ pos 0)
    × ((touch true 1 9 two_open).1.transfers ≡ [])
    × (((touch true 1 9 two_open).1.clients 9).handles ≡ 1 ∷ [])
unfolding touch take_transfer transfer link unlink_client remove_fast
touches = (refl, refl, refl)

three_taken : alloc_fd (3 ∷ []) (two_open.clients 9) ≡ some 3
unfolding alloc_fd link
three_taken = refl

nine_known : (two_open.clients 9).is_known ≡ true
unfolding link
nine_known = refl

nine_table : (two_open.clients 9).fd_table ≡ replicate 3 0
unfolding link
nine_table = refl

-- Number 1 is no shadow, so that the child inherits it.
fork_round_inherits_example :
    Rounds
      (has_bit (two_open.fds 1).flags shadow_bit)
      1
      5
      9
      3
      two_open
      (fork_round (3 ∷ []) 1 9 two_open)
fork_round_inherits_example =
    fork_round_inherits (3 ∷ []) 1 5 9 3 two_open two_open-Wf three-Unused first_owner (omega arith)
      nine_known (omega (arith, ap length nine_table)) (ap (λ l. get_or l 1 0) nine_table)
      three_taken (omega arith)

first_no_shadow : has_bit (two_open.fds 1).flags shadow_bit ≡ false
unfolding link
first_no_shadow = refl
