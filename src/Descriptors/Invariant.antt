-- ===== src/Descriptors/Invariant.antt =====
-- The invariants that sys/io/io.c states for its handles, and fd_dtor().
use sneks.Base.{
  update, ℕ, ◌-◌, ◌≡◌, refl, ◌&&◌, Option, none, some, arith, ◌==◌, ltb, if◌then◌else◌, length,
  get_or,
}
use sneks.Descriptors.{Io, unlink_client, unlink_file}
use sneks.Descriptors.Links.{remove_fast, remove_fast-length}
use sneks.Descriptors.Linked.{Linked, detach-Linked}

abbrev pub file_key : Io → ℕ → Option ℕ
file_key io d = elim (io.fds d).owner [ none ↦ none | some pid ↦ some (io.fds d).file ]

-- Every live handle stands at its position in the arrays of its client and of its file, and these
-- arrays hold nothing else.
pub record Wf (io : Io) : Type 0 where
  pub clients_linked :
      Linked (λ p. (io.clients p).handles) (λ d. (io.fds d).owner) (λ d. (io.fds d).client_ix)
  pub files_linked : Linked (λ f. (io.files f).handles) (file_key io) (λ d. (io.fds d).file_ix)

-- What is left of the table without handle `d`.
abbrev pub without : ℕ → ℕ → Io → Io
without d pid io =
    let gone = unlink_file d (io.fds d).file (unlink_client d pid io) in
    record gone { fds = update gone.fds d (record (gone.fds d) { owner = none }) }

pub unlink_client-kept :
    (d pid : ℕ) (io : Io) (e : ℕ)
    → (((unlink_client d pid io).fds e).owner ≡ (io.fds e).owner)
      × (((unlink_client d pid io).fds e).file ≡ (io.fds e).file)
      × (((unlink_client d pid io).fds e).file_ix ≡ (io.fds e).file_ix)
      × (((unlink_client d pid io).fds e).flags ≡ (io.fds e).flags)
      × (((unlink_client d pid io).fds e).client_ix ≡ (
          if ltb (io.fds d).client_ix (length (io.clients pid).handles - 1)
            && (get_or
                  (remove_fast (io.clients pid).handles (io.fds d).client_ix)
                  (io.fds d).client_ix
                  0
                == e)
          then (io.fds d).client_ix
          else (io.fds e).client_ix))
unfolding unlink_client
unlink_client-kept d pid io e =
    ground (arith, remove_fast-length (io.clients pid).handles (io.fds d).client_ix)

pub unlink_file-kept :
    (d file : ℕ) (io : Io) (e : ℕ)
    → (((unlink_file d file io).fds e).owner ≡ (io.fds e).owner)
      × (((unlink_file d file io).fds e).file ≡ (io.fds e).file)
      × (((unlink_file d file io).fds e).client_ix ≡ (io.fds e).client_ix)
      × (((unlink_file d file io).fds e).flags ≡ (io.fds e).flags)
      × (((unlink_file d file io).fds e).file_ix ≡ (
          if ltb (io.fds d).file_ix (length (io.files file).handles - 1)
            && (get_or (remove_fast (io.files file).handles (io.fds d).file_ix) (io.fds d).file_ix 0
                == e)
          then (io.fds d).file_ix
          else (io.fds e).file_ix))
unfolding unlink_file
unlink_file-kept d file io e =
    ground (arith, remove_fast-length (io.files file).handles (io.fds d).file_ix)

pub unlink_client-handles :
    (d pid : ℕ) (io : Io) (j : ℕ)
    → ((unlink_client d pid io).files ≡ io.files)
      × (((unlink_client d pid io).clients j).handles ≡ (
          if pid == j
          then remove_fast (io.clients pid).handles (io.fds d).client_ix
          else (io.clients j).handles))
unfolding unlink_client
unlink_client-handles d pid io j = (refl, ground arith)

pub unlink_file-handles :
    (d file : ℕ) (io : Io) (j : ℕ)
    → ((unlink_file d file io).clients ≡ io.clients)
      × (((unlink_file d file io).files j).handles ≡ (
          if file == j
          then remove_fast (io.files file).handles (io.fds d).file_ix
          else (io.files j).handles))
unfolding unlink_file
unlink_file-handles d file io j = (refl, ground arith)

pub without-Wf : (d pid : ℕ) (io : Io) → Wf io → (io.fds d).owner ≡ some pid → Wf (without d pid io)
without-Wf d pid io wf own =
    let mid = unlink_client d pid io in
    let file = (io.fds d).file in
    record {
      clients_linked =
          detach-Linked d pid wf.clients_linked own
            (λ j.
              ground (arith, unlink_client-handles d pid io j, unlink_file-handles d file mid j))
            (λ e. ground (arith, unlink_client-kept d pid io e, unlink_file-kept d file mid e))
            (λ e. ground (arith, unlink_client-kept d pid io e, unlink_file-kept d file mid e));
      files_linked =
          detach-Linked d file wf.files_linked (ground arith)
            (λ j. ground (
              arith,
              unlink_client-handles d pid io j,
              unlink_file-handles d file mid j,
              unlink_client-kept d pid io d,
            ))
            (λ e. ground (arith, unlink_client-kept d pid io e, unlink_file-kept d file mid e))
            (λ e. ground (
              arith,
              unlink_client-kept d pid io e,
              unlink_file-kept d file mid e,
              unlink_client-kept d pid io d,
              unlink_client-handles d pid io file,
            ));
    }
