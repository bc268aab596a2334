-- ===== src/Descriptors/ReuseTests.antt =====
-- A process with an inherited number that is used again since (sys/io/io.c): what its child inherits
-- and its late close, at a concrete table.
use sneks.Base.{
  ◌&&◌, not, ℕ, ℤ, pos, zero, suc, ◌≡◌, ◌^◌, refl, ap, true, false, none, some, [], ◌∷◌, arith,
  ◌==◌, ◌||◌, if◌then◌else◌, length, get_or, replicate, has_bit,
}
use sneks.Descriptors.{Io, shadow_bit}
use sneks.Descriptors.Operations.{
  alloc_fd, link, new_fd, shadow_round, get_fd_nosync, is_mapped, late_close_fd,
}
use sneks.Descriptors.LateClose.{Closed, late_close_fd_removes}
use sneks.Descriptors.Invariant.{Wf}
use sneks.Descriptors.Create.{Unused, link-Wf}
use sneks.Descriptors.Reuse.{shadow_round_forks_number}

-- Process 9 has inherited number 1 as descriptor 2; process 11 is its new child.
abbrev empty : Io
empty = record {
  fds = λ d. new_fd 0 0;
  clients = λ p. record {
    is_known = p == 5 || (p == 9) || (p == 11);
    handles = [];
    fd_table = if p == 9 then 0 ∷ 2 ∷ 0 ∷ [] else replicate 3 0;
  };
  files = λ f. record { handles = []; flags = 0 };
  transfers = [];
  closed = [];
}

empty-Wf : Wf empty
empty-Wf = record {
  clients_linked = record {
    there = λ d k own. absurd (ground arith);
    back = λ k i d at. absurd (ground arith);
  };
  files_linked = record {
    there = λ d k own. absurd (ground arith);
    back = λ k i d at. absurd (ground arith);
  };
}

-- Number 1 was closed and is a descriptor of process 5 and file 7 by now.
abbrev reused : Io
reused = link 1 5 (new_fd 7 0) empty

abbrev inherited : Io
inherited = link 2 9 (record (new_fd 8 (2 ^ 26)) { orig_fd = 1 }) reused

reused-Wf : Wf reused
reused-Wf = link-Wf 1 5 (new_fd 7 0) empty empty-Wf refl

two_free : (reused.fds 2).owner ≡ none
unfolding link
two_free = refl

inherited-Wf : Wf inherited
inherited-Wf = link-Wf 2 9 (record (new_fd 8 (2 ^ 26)) { orig_fd = 1 }) reused reused-Wf two_free

three-Unused : Unused (3 ∷ []) inherited
unfolding link
three-Unused zero d at = (ground arith, ground arith)
three-Unused (suc i) d at = absurd (ground arith)

-- Files 7 and 8: what the parent has under number 1 is not what the child gets.
setting :
    ((inherited.fds 1).owner ≡ some 5)
    × (has_bit (inherited.fds 1).flags shadow_bit ≡ false)
    × ((inherited.clients 9).is_known ≡ true)
    × (is_mapped (inherited.clients 9) 1 ≡ true)
    × ((inherited.fds (get_or (inherited.clients 9).fd_table 1 0)).owner ≡ some 9)
    × (has_bit (inherited.fds (get_or (inherited.clients 9).fd_table 1 0)).flags shadow_bit ≡ true)
    × ((inherited.clients 11).is_known ≡ true)
    × ((inherited.clients 11).fd_table ≡ replicate 3 0)
    × (alloc_fd (3 ∷ []) (inherited.clients 11) ≡ some 3)
    × ((inherited.fds 2).file ≡ 8)
unfolding link alloc_fd
setting = (refl, refl, refl, refl, refl, refl, refl, refl, refl, refl)

shadow_round_forks_number_example :
    (get_fd_nosync 9 1 inherited ≡ some (some (get_or (inherited.clients 9).fd_table 1 0)))
    × ((io' : Io) × (shadow_round (3 ∷ []) 1 9 11 inherited ≡ some io')
        × (get_fd_nosync 11 1 io' ≡ some (some 3))
        × ((io'.fds 3).file ≡ (inherited.fds 1).file))
shadow_round_forks_number_example =
    shadow_round_forks_number (3 ∷ []) 1 9 11 5 3 inherited inherited-Wf three-Unused (setting.0)
      (omega arith) (omega arith) (setting.1) (setting.2) (setting.3) (setting.4) (setting.5)
      (setting.6) (omega (arith, ap length (setting.7))) (ap (λ l. get_or l 1 0) (setting.7))
      (setting.8) (omega arith)

two_owner : (inherited.fds 2).owner ≡ some 9
unfolding link
two_owner = refl

two_mapped :
    (has_bit (inherited.fds 2).flags shadow_bit
      && not (is_mapped (inherited.clients 9) (inherited.fds 2).orig_fd))
    ≡ false
unfolding link
two_mapped = refl

abbrev no_error : ℕ → ℤ
no_error f = pos 0

-- Process 9 closes the copy that it has inherited.
late_close_fd_removes_example :
    (io' : Io) × (late_close_fd no_error 2 inherited ≡ some io') × Closed 2 9 inherited io'
late_close_fd_removes_example =
    late_close_fd_removes no_error 2 9 inherited inherited-Wf two_owner two_mapped
