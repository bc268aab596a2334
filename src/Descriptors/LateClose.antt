-- ===== src/Descriptors/LateClose.antt =====
-- late_close_fd() of sys/io/io.c, which io_impl_close() confirms with and dup() rolls back with.
use sneks.Base.{
  zero, suc, refl, List, [], ◌∷◌, Bool, ◌==◌, get_or, ==_iff, update, ℕ, ◌-◌, ◌≡◌, ap, ◌∙◌, true,
  false, not, ◌&&◌, some, arith, if◌then◌else◌, length, set, ℤ, has_bit,
}
use sneks.Descriptors.{Io, shadow_bit, fd_dtor, unlink_client, unlink_file}
use sneks.Descriptors.Linked.{Linked-items}
use sneks.Descriptors.Operations.{late_close_fd, is_mapped}
use sneks.Descriptors.Invariant.{Wf}
use sneks.Descriptors.Destroy.{Gone, fd_dtor_removes}

-- The table with the entry of a shadow descriptor cleared.
abbrev cleared : (d pid : ℕ) → Io → Io
cleared d pid io =
    let c = io.clients pid in
    record io {
      clients = update io.clients pid (
          if has_bit (io.fds d).flags shadow_bit
          then record c { fd_table = set c.fd_table (io.fds d).orig_fd 0 }
          else c);
    }

-- Whether an entry of the translation tables is the one to clear: of a shadow descriptor, under the
-- number of its original, in the table of its client.
abbrev pub is_cleared : (d pid : ℕ) → Io → (q j : ℕ) → Bool
is_cleared d pid io q j =
    has_bit (io.fds d).flags shadow_bit && (pid == q && ((io.fds d).orig_fd == j))

cleared-handles :
    (d pid : ℕ) (io : Io) (j : ℕ) → ((cleared d pid io).clients j).handles ≡ (io.clients j).handles
cleared-handles d pid io j = ground arith

cleared-Wf : (d pid : ℕ) (io : Io) → Wf io → Wf (cleared d pid io)
cleared-Wf d pid io wf = record {
  clients_linked = Linked-items wf.clients_linked (cleared-handles d pid io);
  files_linked = wf.files_linked;
}

late_close_fd-dtor :
    (close : ℕ → ℤ) (d pid : ℕ) (n : ℤ) (io io' : Io)
    → (io.fds d).owner ≡ some pid
    → (has_bit (io.fds d).flags shadow_bit && not (is_mapped (io.clients pid) (io.fds d).orig_fd))
      ≡ false
    → fd_dtor close d true (cleared d pid io) ≡ some (n, io')
    → late_close_fd close d io ≡ some io'
unfolding late_close_fd
late_close_fd-dtor close d pid n io io' own mapped dtor = ground arith

fd_dtor-fd_table :
    (close : ℕ → ℤ) (d pid : ℕ) (n : ℤ) (io io' : Io)
    → (io.fds d).owner ≡ some pid
    → fd_dtor close d true io ≡ some (n, io')
    → (q : ℕ) → (io'.clients q).fd_table ≡ (io.clients q).fd_table
unfolding fd_dtor unlink_client unlink_file
fd_dtor-fd_table close d pid n io io' own dtor q = ground arith

get_or-set_zero :
    (xs : List ℕ) (i j : ℕ) → get_or (set xs i 0) j 0 ≡ (if i == j then 0 else get_or xs j 0)
get_or-set_zero [] i j = ground arith
get_or-set_zero (x ∷ xs) zero zero = refl
get_or-set_zero (x ∷ xs) zero (suc j) = ground arith
get_or-set_zero (x ∷ xs) (suc i) zero = ground arith
get_or-set_zero (x ∷ xs) (suc i) (suc j) = ground (arith, get_or-set_zero xs i j)

cleared-entry :
    (d pid : ℕ) (io : Io) (q j : ℕ)
    → get_or ((cleared d pid io).clients q).fd_table j 0
      ≡ (if is_cleared d pid io q j then 0 else get_or (io.clients q).fd_table j 0)
cleared-entry d pid io q j =
    ground (arith, get_or-set_zero (io.clients pid).fd_table (io.fds d).orig_fd j, ==_iff pid q)

-- The table without descriptor `d`, and with its entry of the translation table cleared if it was a
-- shadow.
pub record Closed (d pid : ℕ) (io io' : Io) : Type 0 where
  pub gone : Gone d pid io io'
  pub entries :
      (q j : ℕ)
      → get_or (io'.clients q).fd_table j 0
        ≡ (if is_cleared d pid io q j then 0 else get_or (io.clients q).fd_table j 0)

-- On a table that satisfies the invariant, late_close_fd() of a live descriptor that is not a
-- shadow, or is one with an entry in the translation table of its client, fails no assert. After
-- it the invariant holds, the descriptor has no owner, every other one has its client, all have
-- their files, and the client has one handle less; of all translation tables one entry is changed
-- to 0, if the descriptor is a shadow, that of its original's number in the table of its client,
-- and none otherwise.
pub late_close_fd_removes :
    (close : ℕ → ℤ) (d pid : ℕ) (io : Io)
    → Wf io
    → (io.fds d).owner ≡ some pid
    → (has_bit (io.fds d).flags shadow_bit && not (is_mapped (io.clients pid) (io.fds d).orig_fd))
      ≡ false
    → (io' : Io) × (late_close_fd close d io ≡ some io') × Closed d pid io io'
late_close_fd_removes close d pid io wf own mapped =
    let dtor = fd_dtor_removes close d pid true (cleared d pid io) (cleared-Wf d pid io wf) own in
    let gone = dtor.3 in
    (
      dtor.1,
      late_close_fd-dtor close d pid (dtor.0) io (dtor.1) own mapped (dtor.2),
      record {
        gone = record {
          wf = gone.wf;
          owners = gone.owners;
          same_files = gone.same_files;
          shorter = gone.shorter ∙ ap (λ l. length l - 1) (cleared-handles d pid io pid);
        };
        entries = λ q j.
            ap (λ l. get_or l j 0)
              (fd_dtor-fd_table close d pid (dtor.0) (cleared d pid io) (dtor.1) own (dtor.2) q)
            ∙ cleared-entry d pid io q j;
      },
    )
