-- ===== src/Descriptors.antt =====
-- The descriptor table of sys/io/io.c: `struct fd`, `struct client` and `struct io_file` of
-- sys/io/private.h with what creates, moves and destroys descriptors. Descriptors are numbered as
-- by ra_ptr2id(); a pointer to a client is its process ID, one to a file its number.
pub mod Links
pub mod Linked
pub mod Operations
pub mod Invariant
pub mod Destroy
pub mod Create
pub mod Transfers
pub mod Inherit
pub mod Reuse
pub mod LateClose
mod ReuseTests
mod Tests
use sneks.Base.{
  update, ℕ, zero, suc, ◌+◌, ◌-◌, ◌*◌, ◌^◌, Bool, true, false, not, ◌&&◌, ◌||◌, Option, none, some,
  List, [], ◌∷◌, ◌++◌, ℤ, pos, negsuc, ◌==◌, ltb, leb, if◌then◌else◌, has_bit, compl, bit_and,
  bit_or, length, get_or, get_elem?, set,
}
use Links.{remove_fast}

pub record Fd : Type 0 where
  pub file : ℕ
  pub owner : Option ℕ
  pub flags : ℕ
  pub orig_fd : ℕ
  pub file_ix : ℕ
  pub client_ix : ℕ

-- `is_known`: whether `client_hash` has the client.
pub record Client : Type 0 where
  pub is_known : Bool
  pub handles : List ℕ
  pub fd_table : List ℕ

pub record File : Type 0 where
  pub handles : List ℕ
  pub flags : ℕ

pub record Transfer : Type 0 where
  pub fd : ℕ
  pub target : ℕ

-- `closed` lists the files that were given to the close callback.
pub record Io : Type 0 where
  pub fds : ℕ → Fd
  pub clients : ℕ → Client
  pub files : ℕ → File
  pub transfers : List Transfer
  pub closed : List ℕ

-- IOD_SHADOW and IOD_TRANSFER, as bit numbers.
abbrev pub shadow_bit : ℕ
shadow_bit = 26

abbrev pub transfer_bit : ℕ
transfer_bit = 27

abbrev pub is_at : List ℕ → ℕ → ℕ → Bool
is_at xs i d = elim (get_elem? xs i) [ none ↦ false | some e ↦ e == d ]

-- `d` leaves the array of its client, and the handle in its place gets its index.
unfoldable pub unlink_client : (d pid : ℕ) → Io → Io
unlink_client d pid io =
    let at = (io.fds d).client_ix in
    let rest = remove_fast (io.clients pid).handles at in
    let moved = get_or rest at 0 in
    record io {
      clients = update io.clients pid (record (io.clients pid) { handles = rest });
      fds =
          if ltb at (length rest)
          then update io.fds moved (record (io.fds moved) { client_ix = at })
          else io.fds;
    }

-- The same for the array of its file.
unfoldable pub unlink_file : (d file : ℕ) → Io → Io
unlink_file d file io =
    let at = (io.fds d).file_ix in
    let rest = remove_fast (io.files file).handles at in
    let moved = get_or rest at 0 in
    record io {
      files = update io.files file (record (io.files file) { handles = rest });
      fds =
          if ltb at (length rest)
          then update io.fds moved (record (io.fds moved) { file_ix = at })
          else io.fds;
    }

abbrev pub drop_transfers : ℕ → List Transfer → List Transfer
drop_transfers d [] = []
drop_transfers d (t ∷ ts) = if t.fd == d then drop_transfers d ts else t ∷ drop_transfers d ts

-- fd_dtor(): its asserts and its use of a null owner give `none`; `close` is what the callback
-- returns.
unfoldable pub fd_dtor : (close : ℕ → ℤ) → ℕ → Bool → Io → Option (ℤ × Io)
fd_dtor close d destroy_file io = elim (io.fds d).owner [
  | none ↦ none
  | some pid ↦
      let file = (io.fds d).file in
      let no_client = unlink_client d pid io in
      let no_file = unlink_file d file no_client in
      let last = length (no_file.files file).handles == 0 && destroy_file in
      if not (is_at (io.clients pid).handles (io.fds d).client_ix d)
      then none
      else if not (is_at (no_client.files file).handles (no_client.fds d).file_ix d)
      then none
      else some (
        if last then close file else pos 0,
        record no_file {
          closed = if last then file ∷ no_file.closed else no_file.closed;
          transfers =
              if has_bit (io.fds d).flags transfer_bit
              then drop_transfers d no_file.transfers
              else no_file.transfers;
          fds = update no_file.fds d (record (no_file.fds d) { owner = none });
        },
      )
]
