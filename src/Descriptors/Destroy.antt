-- ===== src/Descriptors/Destroy.antt =====
-- The end of descriptors and of clients (sys/io/io.c): no assert fails, the invariant stays, and
-- exactly the descriptors in question are gone.
use sneks.Base.{
  update, ℕ, zero, suc, ◌-◌, ◌≡◌, refl, ◌∙◌, ap, Bool, true, false, ◌&&◌, Option, none, some, List,
  [], ◌∷◌, arith, ◌==◌, if◌then◌else◌, length, get_elem?, ℤ, pos, has_bit,
}
use sneks.Descriptors.{
  Transfer, Io, unlink_client, unlink_file, fd_dtor, is_at, drop_transfers, transfer_bit,
}
use sneks.Descriptors.Links.{remove_fast-length}
use sneks.Descriptors.Linked.{Linked-items}
use sneks.Descriptors.Operations.{client_dtor_loop, client_dtor}
use sneks.Descriptors.Invariant.{
  Wf, without, without-Wf, unlink_client-kept, unlink_client-handles, unlink_file-kept,
  unlink_file-handles,
}

both_at :
    (d pid : ℕ) (io : Io)
    → Wf io
    → (io.fds d).owner ≡ some pid
    → (is_at (io.clients pid).handles (io.fds d).client_ix d ≡ true)
      × (is_at
            ((unlink_client d pid io).files (io.fds d).file).handles
            ((unlink_client d pid io).fds d).file_ix
            d
          ≡ true)
both_at d pid io wf own = ground (
  arith,
  wf.clients_linked.there d pid,
  wf.files_linked.there d (io.fds d).file,
  unlink_client-kept d pid io d,
  unlink_client-handles d pid io (io.fds d).file,
)

-- What the destructor leaves: the table without the descriptor.
pub record Gone (d pid : ℕ) (io io' : Io) : Type 0 where
  pub wf : Wf io'
  pub owners : (e : ℕ) → (io'.fds e).owner ≡ (if d == e then none else (io.fds e).owner)
  pub same_files : (e : ℕ) → (io'.fds e).file ≡ (io.fds e).file
  pub shorter : length (io'.clients pid).handles ≡ length (io.clients pid).handles - 1

without-Gone :
    (d pid : ℕ) (io : Io) (ts : List Transfer) (cs : List ℕ)
    → Wf io
    → (io.fds d).owner ≡ some pid
    → Gone d pid io (record (without d pid io) { transfers = ts; closed = cs })
without-Gone d pid io ts cs wf own =
    let mid = unlink_client d pid io in
    let file = (io.fds d).file in
    let left = without-Wf d pid io wf own in
    record {
      wf = record { clients_linked = left.clients_linked; files_linked = left.files_linked };
      owners = λ e. ground (arith, unlink_client-kept d pid io e, unlink_file-kept d file mid e);
      same_files =
          λ e. ground (arith, unlink_client-kept d pid io e, unlink_file-kept d file mid e);
      shorter = ground (
        arith,
        unlink_client-handles d pid io pid,
        unlink_file-handles d file mid file,
        remove_fast-length (io.clients pid).handles (io.fds d).client_ix,
      );
    }

-- The table after fd_dtor(), with its lists of transfers and of closed files.
abbrev closes_file : ℕ → ℕ → Bool → Io → Bool
closes_file d pid destroy_file io =
    length ((unlink_file d (io.fds d).file (unlink_client d pid io)).files (io.fds d).file).handles
      == 0
    && destroy_file

abbrev destroyed : ℕ → ℕ → Bool → Io → Io
destroyed d pid destroy_file io =
    let no_file = unlink_file d (io.fds d).file (unlink_client d pid io) in
    record (without d pid io) {
      transfers =
          if has_bit (io.fds d).flags transfer_bit
          then drop_transfers d no_file.transfers
          else no_file.transfers;
      closed =
          if closes_file d pid destroy_file io
          then (io.fds d).file ∷ no_file.closed
          else no_file.closed;
    }

fd_dtor-some :
    (close : ℕ → ℤ) (d pid : ℕ) (destroy_file : Bool) (io : Io)
    → Wf io
    → (io.fds d).owner ≡ some pid
    → fd_dtor close d destroy_file io
      ≡ some (
        if closes_file d pid destroy_file io then close (io.fds d).file else pos 0,
        destroyed d pid destroy_file io,
      )
unfolding fd_dtor
fd_dtor-some close d pid destroy_file io wf own = ground (arith, both_at d pid io wf own)

-- On a table that satisfies the invariant, fd_dtor() of a live descriptor fails no assert; after it
-- the invariant holds, the descriptor has no owner, every other one has its client, all have their
-- files, and the client has one handle less.
pub fd_dtor_removes :
    (close : ℕ → ℤ) (d pid : ℕ) (destroy_file : Bool) (io : Io)
    → Wf io
    → (io.fds d).owner ≡ some pid
    → (n : ℤ) × (io' : Io) × (fd_dtor close d destroy_file io ≡ some (n, io')) × Gone d pid io io'
fd_dtor_removes close d pid destroy_file io wf own =
    (_, _, fd_dtor-some close d pid destroy_file io wf own, without-Gone d pid io _ _ wf own)

-- Every handle in the array of a client belongs to it.
member_owner :
    (pid d : ℕ) (ds : List ℕ) (io : Io)
    → Wf io
    → (io.clients pid).handles ≡ d ∷ ds
    → (io.fds d).owner ≡ some pid
member_owner pid d ds io wf e = (wf.clients_linked.back pid 0 d (ap (λ l. get_elem? l 0) e)).0

abbrev pub is_owned : ℕ → Option ℕ → Bool
is_owned pid none = false
is_owned pid (some p) = p == pid

-- The table without client `pid`.
pub record Ended (pid : ℕ) (io io' : Io) : Type 0 where
  pub wf : Wf io'
  pub owners :
      (d : ℕ)
      → (io'.fds d).owner ≡ (if is_owned pid (io.fds d).owner then none else (io.fds d).owner)
  pub same_files : (d : ℕ) → (io'.fds d).file ≡ (io.fds d).file

no_handles :
    (pid : ℕ) (io : Io)
    → Wf io
    → (io.clients pid).handles ≡ []
    → (d : ℕ)
    → (io.fds d).owner ≡ (if is_owned pid (io.fds d).owner then none else (io.fds d).owner)
no_handles pid io wf e d = ground (arith, wf.clients_linked.there d pid)

loop_step :
    (n : ℕ) (close : ℕ → ℤ) (pid d : ℕ) (ds : List ℕ) (r : ℤ) (io io' : Io)
    → (io.clients pid).handles ≡ d ∷ ds
    → fd_dtor close d true io ≡ some (r, io')
    → client_dtor_loop (suc n) close pid io ≡ client_dtor_loop n close pid io'
unfolding client_dtor_loop
loop_step n close pid d ds r io io' e dtor = ground arith

client_dtor_loop_lem :
    (n : ℕ) (close : ℕ → ℤ) (pid : ℕ) (hs : List ℕ) (io : Io)
    → Wf io
    → (io.clients pid).handles ≡ hs
    → length hs ≡ n
    → (io' : Io) × (client_dtor_loop n close pid io ≡ some io') × Ended pid io io'
unfolding client_dtor_loop
client_dtor_loop_lem zero close pid [] io wf e len = (
  io,
  rw e refl,
  record { wf = wf; owners = λ d. no_handles pid io wf e d; same_files = λ d. refl },
)
client_dtor_loop_lem zero close pid (d ∷ ds) io wf e len = absurd (omega arith)
client_dtor_loop_lem (suc n) close pid [] io wf e len = absurd (omega arith)
client_dtor_loop_lem (suc n) close pid (d ∷ ds) io wf e len =
    let own = member_owner pid d ds io wf e in
    let dtor = fd_dtor_removes close d pid true io wf own in
    let gone = dtor.3 in
    let after =
      client_dtor_loop_lem n close pid _ (dtor.1) gone.wf refl (ground (arith, gone.shorter)) in
    (
      after.0,
      loop_step n close pid d ds (dtor.0) io (dtor.1) e (dtor.2) ∙ after.1,
      record {
        wf = after.2.wf;
        owners = λ x. ground (arith, after.2.owners x, gone.owners x);
        same_files = λ x. after.2.same_files x ∙ gone.same_files x;
      },
    )

-- On a table that satisfies the invariant, client_dtor() fails no assert and its loop ends after as
-- many rounds as the client has handles; after it the invariant holds, no descriptor belongs to the
-- client, and all others have their clients and files.
pub client_dtor_ends :
    (close : ℕ → ℤ) (pid : ℕ) (io : Io)
    → Wf io
    → (io' : Io) × (client_dtor close pid io ≡ some io') × Ended pid io io'
unfolding client_dtor
client_dtor_ends close pid io wf =
    let io1 : Io = record io {
      clients = update io.clients pid (record (io.clients pid) { is_known = false });
    } in
    let wf1 : Wf io1 = record {
      clients_linked = Linked-items wf.clients_linked (λ j. ground arith);
      files_linked = wf.files_linked;
    } in
    let ended =
      client_dtor_loop_lem (length (io.clients pid).handles) close pid (io1.clients pid).handles io1
        wf1 refl (ground arith) in
    (
      ended.0,
      ended.1,
      record { wf = ended.2.wf; owners = ended.2.owners; same_files = ended.2.same_files },
    )
