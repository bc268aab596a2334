-- ===== src/Descriptors/Reuse.antt =====
-- What a grandchild inherits of a number that its grandparent has closed (fork_client() in
-- sys/io/io.c).
use sneks.Base.{ℕ, ◌<◌, ◌≡◌, ◌≢◌, ◌∙◌, true, false, some, List, arith, length, get_or, has_bit}
use sneks.Descriptors.{Io, shadow_bit}
use sneks.Descriptors.Operations.{alloc_fd, fork_number, shadow_round, get_fd_nosync, is_mapped}
use sneks.Descriptors.Invariant.{Wf}
use sneks.Descriptors.Create.{Unused}
use sneks.Descriptors.Inherit.{fork_number-Inherits}

mapped_finds :
    (i parent other : ℕ) (p : ℕ) (io : Io)
    → (io.fds i).owner ≡ some other
    → other ≢ parent
    → (io.clients parent).is_known ≡ true
    → is_mapped (io.clients parent) i ≡ true
    → (io.fds (get_or (io.clients parent).fd_table i 0)).owner ≡ some p
    → has_bit (io.fds (get_or (io.clients parent).fd_table i 0)).flags shadow_bit ≡ true
    → 0 < i
    → get_fd_nosync parent i io ≡ some (some (get_or (io.clients parent).fd_table i 0))
unfolding get_fd_nosync
mapped_finds i parent other p io own ne is_known mapped live shadow number = ground arith

shadow_round-forks :
    (free : List ℕ) (i parent child other : ℕ) (io : Io)
    → is_mapped (io.clients parent) i ≡ true
    → (io.fds i).owner ≡ some other
    → has_bit (io.fds i).flags shadow_bit ≡ false
    → shadow_round free i parent child io ≡ fork_number free i child io
unfolding shadow_round
shadow_round-forks free i parent child other io mapped own plain = ground arith

-- The parent is known and has inherited number `i`, which is above 0, as a live shadow of its own that is in its
-- table; the descriptor numbered `i` belongs to another process by now, which is neither the parent
-- nor the child, and is no shadow; the table satisfies the invariant, the child is known, its
-- translation table has room for `i` and no entry yet, and an unused number above 0 is on offer.
-- The round of fork_client()'s loop over the parent's table for `i` then fails no assert and gives
-- the child, under number `i`, a copy of the other process's descriptor with its file, where
-- get_fd() gives the parent, before the round, the copy in the parent's table.
pub shadow_round_forks_number :
    (free : List ℕ) (i parent child other copy : ℕ) (io : Io)
    → Wf io
    → Unused free io
    → (io.fds i).owner ≡ some other
    → other ≢ child
    → other ≢ parent
    → has_bit (io.fds i).flags shadow_bit ≡ false
    → (io.clients parent).is_known ≡ true
    → is_mapped (io.clients parent) i ≡ true
    → (io.fds (get_or (io.clients parent).fd_table i 0)).owner ≡ some parent
    → has_bit (io.fds (get_or (io.clients parent).fd_table i 0)).flags shadow_bit ≡ true
    → (io.clients child).is_known ≡ true
    → i < length (io.clients child).fd_table
    → get_or (io.clients child).fd_table i 0 ≡ 0
    → alloc_fd free (io.clients child) ≡ some copy
    → 0 < i
    → (get_fd_nosync parent i io ≡ some (some (get_or (io.clients parent).fd_table i 0)))
      × ((io' : Io) × (shadow_round free i parent child io ≡ some io')
          × (get_fd_nosync child i io' ≡ some (some copy))
          × ((io'.fds copy).file ≡ (io.fds i).file))
shadow_round_forks_number free i parent child other copy io wf unused own nc np plain pk mapped live
      shadow ck inside empty e number =
    let forked =
      fork_number-Inherits free i other child copy io wf unused own nc ck inside empty e number in
    (
      mapped_finds i parent other parent io own np pk mapped live shadow number,
      (
        forked.0,
        shadow_round-forks free i parent child other io mapped own plain ∙ forked.1,
        forked.3,
        forked.4,
      ),
    )
