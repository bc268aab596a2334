-- ===== src/Descriptors/Inherit.antt =====
-- fork_handle() and the translation table of sys/io/io.c: a child process finds a copy of its
-- parent's descriptor under the parent's number.
use sneks.Base.{
  Bool, false, Option, Bool-cases, inl, inr, update, ℕ, ◌<◌, ◌^◌, ◌≡◌, ◌≢◌, ◌∙◌, ap, true, none,
  some, List, arith, length, get_or, set, ℤ, pos, has_bit, compl, bit_and, bit_or, test_bit-or,
  test_bit-pow, has_bit-eq, length-set, get_or-set_self,
}
use sneks.Descriptors.{Io, Fd, shadow_bit, transfer_bit}
use sneks.Descriptors.Linked.{Linked-items}
use sneks.Descriptors.Operations.{
  alloc_fd, link, fork_handle, fork_store, fork_number, fork_round, get_fd_nosync,
}
use sneks.Descriptors.Invariant.{Wf}
use sneks.Descriptors.Create.{link-Wf, Unused, alloc_fd-Unused}

-- What fork_handle() writes into the copy.
abbrev copied : ℕ → Io → Fd
copied d io = record (io.fds d) {
  orig_fd = d;
  flags = bit_or (bit_and (io.fds d).flags (compl 32 (2 ^ transfer_bit))) (2 ^ shadow_bit);
}

fork_handle-some :
    (free : List ℕ) (d child copy : ℕ) (io : Io)
    → alloc_fd free (io.clients child) ≡ some copy
    → fork_handle free d child io ≡ (pos copy, link copy child (copied d io) io)
unfolding fork_handle
fork_handle-some free d child copy io e = ground arith

copied_shadow : (d : ℕ) (io : Io) → has_bit (copied d io).flags shadow_bit ≡ true
copied_shadow d io = ground (
  arith,
  has_bit-eq (copied d io).flags shadow_bit,
  test_bit-or (bit_and (io.fds d).flags (compl 32 (2 ^ transfer_bit))) (2 ^ shadow_bit) shadow_bit,
  test_bit-pow shadow_bit shadow_bit,
)

-- The table after the round.
abbrev inherited : (d child copy : ℕ) → Io → Io
inherited d child copy io =
    let io1 = link copy child (copied d io) io in
    record io1 {
      clients =
          update io1.clients child
            (record (io1.clients child) { fd_table = set (io1.clients child).fd_table d copy });
    }

fork_number-some :
    (free : List ℕ) (d child copy : ℕ) (io : Io)
    → alloc_fd free (io.clients child) ≡ some copy
    → d < length (io.clients child).fd_table
    → get_or (io.clients child).fd_table d 0 ≡ 0
    → fork_number free d child io ≡ some (inherited d child copy io)
unfolding fork_number link
fork_number-some free d child copy io e inside empty =
    ap (λ (r : ℤ × Io). fork_store d child (r.0) (r.1)) (fork_handle-some free d child copy io e)
    ∙ ground arith

fork_round-number :
    (free : List ℕ) (d child : ℕ) (io : Io)
    → has_bit (io.fds d).flags shadow_bit ≡ false
    → d < length (io.clients child).fd_table
    → fork_round free d child io ≡ fork_number free d child io
unfolding fork_round
fork_round-number free d child io plain inside = ground arith

fork_round-shadow :
    (free : List ℕ) (d child : ℕ) (io : Io)
    → has_bit (io.fds d).flags shadow_bit ≡ true
    → fork_round free d child io ≡ some io
unfolding fork_round
fork_round-shadow free d child io shadow = ground arith

inherited-Wf :
    (d child copy : ℕ) (io : Io)
    → Wf io
    → (io.fds copy).owner ≡ none
    → Wf (inherited d child copy io)
inherited-Wf d child copy io wf was_free =
    let linked = link-Wf copy child (copied d io) io wf was_free in
    record {
      clients_linked = Linked-items linked.clients_linked (λ j. ground arith);
      files_linked = linked.files_linked;
    }

copy_file :
    (d child copy : ℕ) (io : Io) → ((inherited d child copy io).fds copy).file ≡ (io.fds d).file
unfolding link
copy_file d child copy io = ground arith

child_finds :
    (d parent child copy : ℕ) (io : Io)
    → (io.fds d).owner ≡ some parent
    → parent ≢ child
    → (io.clients child).is_known ≡ true
    → d < length (io.clients child).fd_table
    → (io.fds copy).owner ≡ none
    → 0 < copy
    → 0 < d
    → get_fd_nosync child d (inherited d child copy io) ≡ some (some copy)
unfolding link get_fd_nosync
child_finds d parent child copy io own other is_known inside was_free above number = ground (
  arith,
  copied_shadow d io,
  length-set (io.clients child).fd_table d copy,
  get_or-set_self (io.clients child).fd_table d copy 0 inside,
)

parent_finds :
    (d parent child copy : ℕ) (io : Io)
    → (io.fds d).owner ≡ some parent
    → (io.fds copy).owner ≡ none
    → get_fd_nosync parent d (inherited d child copy io) ≡ get_fd_nosync parent d io
unfolding link get_fd_nosync
parent_finds d parent child copy io own was_free = ground arith

-- What a process and its child find under a number after a round.
abbrev pub Inherits : (d parent child copy : ℕ) → Io → Option Io → Type 0
Inherits d parent child copy io result =
    (io' : Io) × (result ≡ some io')
    × Wf io'
    × (get_fd_nosync child d io' ≡ some (some copy))
    × ((io'.fds copy).file ≡ (io.fds d).file)
    × (get_fd_nosync parent d io' ≡ get_fd_nosync parent d io)

pub fork_number-Inherits :
    (free : List ℕ) (d parent child copy : ℕ) (io : Io)
    → Wf io
    → Unused free io
    → (io.fds d).owner ≡ some parent
    → parent ≢ child
    → (io.clients child).is_known ≡ true
    → d < length (io.clients child).fd_table
    → get_or (io.clients child).fd_table d 0 ≡ 0
    → alloc_fd free (io.clients child) ≡ some copy
    → 0 < d
    → Inherits d parent child copy io (fork_number free d child io)
fork_number-Inherits free d parent child copy io wf unused own other is_known inside empty e
      number =
    let found = alloc_fd-Unused free (io.clients child) io copy unused e in
    let was_free = found.0 in
    (
      inherited d child copy io,
      fork_number-some free d child copy io e inside empty,
      inherited-Wf d child copy io wf was_free,
      child_finds d parent child copy io own other is_known inside was_free (found.1) number,
      copy_file d child copy io,
      parent_finds d parent child copy io own was_free,
    )

-- The end of a round, by whether the handle is a shadow: nothing changes, or the child inherits.
abbrev pub Rounds : Bool → (d parent child copy : ℕ) → Io → Option Io → Type 0
Rounds true d parent child copy io result = result ≡ some io
Rounds false d parent child copy io result = Inherits d parent child copy io result

-- The round of fork_client()'s loop over handles for the number, above 0, of a live descriptor of
-- another process than the child, where the table satisfies the invariant, the child is known, its
-- translation table has room for the number and no entry yet, and an unused number above 0 is on
-- offer. If the descriptor is a shadow, the round fails no assert and changes nothing. Otherwise it
-- fails no assert and keeps the invariant; get_fd() then finds a copy for the child under the
-- parent's number, which is of the same file, and finds for the parent what it found before.
pub fork_round_inherits :
    (free : List ℕ) (d parent child copy : ℕ) (io : Io)
    → Wf io
    → Unused free io
    → (io.fds d).owner ≡ some parent
    → parent ≢ child
    → (io.clients child).is_known ≡ true
    → d < length (io.clients child).fd_table
    → get_or (io.clients child).fd_table d 0 ≡ 0
    → alloc_fd free (io.clients child) ≡ some copy
    → 0 < d
    → Rounds
        (has_bit (io.fds d).flags shadow_bit)
        d
        parent
        child
        copy
        io
        (fork_round free d child io)
fork_round_inherits free d parent child copy io wf unused own other is_known inside empty e number =
    elim (Bool-cases (has_bit (io.fds d).flags shadow_bit)) [
      | inl shadow ↦ rw shadow (fork_round-shadow free d child io shadow)
      | inr plain ↦
          rw (plain, fork_round-number free d child io plain inside)
            (fork_number-Inherits free d parent child copy io wf unused own other is_known inside
              empty e number)
    ]
