-- ===== src/Descriptors/Operations.antt =====
-- The operations on the descriptor table of sys/io/io.c: creation, inheritance, transfer, lookup
-- and the end of descriptors and clients.
use sneks.Base.{
  update, ℕ, zero, suc, ◌^◌, Bool, true, false, not, ◌&&◌, ◌||◌, Option, none, some, List, [], ◌∷◌,
  ◌++◌, ℤ, pos, negsuc, ◌==◌, ltb, leb, if◌then◌else◌, has_bit, compl, bit_and, bit_or, length,
  get_or, set,
}
use sneks.Descriptors.{Fd, Client, Transfer, Io, shadow_bit, transfer_bit, unlink_client, fd_dtor}

-- EBADF, ENOMEM, EINVAL, ENFILE and EMFILE, as negative results.
abbrev pub ebadf : ℤ
ebadf = negsuc 8

abbrev pub enomem : ℤ
enomem = negsuc 11

abbrev pub einval : ℤ
einval = negsuc 21

abbrev pub enfile : ℤ
enfile = negsuc 22

abbrev pub emfile : ℤ
emfile = negsuc 23

abbrev pub max_fd : ℕ
max_fd = 65535

-- Whether the translation table of a client has an entry for `d`.
abbrev pub is_mapped : Client → ℕ → Bool
is_mapped c d = ltb d (length c.fd_table) && ltb 0 (get_or c.fd_table d 0)

-- get_client() on a table in step with the process events; without memory it fails.
abbrev pub known : Client → Client
known c = if c.is_known then c else record { is_known = true; handles = []; fd_table = [] }

abbrev pub with_client : ℕ → Io → Io
with_client pid io = record io { clients = update io.clients pid (known (io.clients pid)) }

abbrev pub get_client : Bool → ℕ → Io → Option Io
get_client memory pid io =
    if (io.clients pid).is_known || memory then some (with_client pid io) else none

-- alloc_fd(), given the numbers that ra_alloc() returns one after the other.
unfoldable pub alloc_fd : List ℕ → Client → Option ℕ
alloc_fd [] c = none
alloc_fd (d ∷ ds) c = let rest = alloc_fd ds c in if is_mapped c d then rest else some d

-- `*fd = f`, and `fd` goes to the end of the arrays of its client and of its file.
unfoldable pub link : (d pid : ℕ) → Fd → Io → Io
link d pid f io =
    let handles = (io.clients pid).handles in
    let file_handles = (io.files f.file).handles in
    record io {
      fds = update io.fds d (record f {
        owner = some pid;
        client_ix = length handles;
        file_ix = length file_handles;
      });
      clients = update io.clients pid (record (io.clients pid) { handles = handles ++ (d ∷ []) });
      files =
          update io.files f.file (record (io.files f.file) { handles = file_handles ++ (d ∷ []) });
    }

abbrev pub new_fd : (file flags : ℕ) → Fd
new_fd file flags = record {
  file = file;
  owner = none;
  flags = flags;
  orig_fd = 0;
  file_ix = 0;
  client_ix = 0;
}

abbrev pub place : (pid file flags : ℕ) → Io → Option ℕ → ℤ × Io
place pid file flags io none = (enfile, io)
place pid file flags io (some d) = (pos d, link d pid (new_fd file flags) io)

abbrev pub add_for : (free : List ℕ) → (pid file flags : ℕ) → Io → Option Io → ℤ × Io
add_for free pid file flags io none = (enomem, io)
add_for free pid file flags io (some io1) =
    if length (io1.clients pid).handles == max_fd
    then (emfile, io1)
    else if length (io1.files file).handles == max_fd
    then (enfile, io1)
    else place pid file flags io1 (alloc_fd free (io1.clients pid))

unfoldable pub io_add_fd : (memory : Bool) → (free : List ℕ) → (pid file flags : ℕ) → Io → ℤ × Io
io_add_fd memory free pid file flags io =
    if not (bit_and flags (compl 32 (2 ^ 16)) == 0)
    then (einval, io)
    else add_for free pid file flags io (get_client memory pid io)

unfoldable pub fork_handle : (free : List ℕ) → (d child : ℕ) → Io → ℤ × Io
fork_handle free d child io = elim (alloc_fd free (io.clients child)) [
  | none ↦ (enomem, io)
  | some copy ↦ (
    pos copy,
    link copy child
        (record (io.fds d) {
          orig_fd = d;
          flags = bit_or (bit_and (io.fds d).flags (compl 32 (2 ^ transfer_bit))) (2 ^ shadow_bit);
        })
        io,
  )
]

-- get_fd_nosync(), whose failed asserts give `none`.
unfoldable pub get_fd_nosync : (pid d : ℕ) → Io → Option (Option ℕ)
get_fd_nosync pid d io =
    let c = io.clients pid in
    let copy = get_or c.fd_table d 0 in
    if d == 0
    then none
    else if elim (io.fds d).owner [ none ↦ false | some p ↦ p == pid ]
    then some (if has_bit (io.fds d).flags shadow_bit then none else some d)
    else if not c.is_known
    then none
    else if not (is_mapped c d)
    then some none
    else if elim (io.fds copy).owner [
      | none ↦ false
      | some p ↦ has_bit (io.fds copy).flags shadow_bit
    ]
    then some (some copy)
    else none

abbrev pub transfer_match : Transfer → ℕ → Bool
transfer_match t pid = t.target == pid || (t.target == 0x10000 && leb 50000 pid)

-- The first transfer of `d` that `pid` may take, and the others.
unfoldable pub take_transfer : (d pid : ℕ) → List Transfer → Option (Transfer × List Transfer)
take_transfer d pid [] = none
take_transfer d pid (t ∷ ts) =
    let rest = take_transfer d pid ts in
    if t.fd == d && transfer_match t pid
    then some (t, ts)
    else elim rest [ none ↦ none | some found ↦ some (found.0, t ∷ found.1) ]

-- The descriptor `d` of `from` goes to the end of the array of `pid`.
unfoldable pub transfer : (d from pid : ℕ) → Io → Io
transfer d from pid io =
    let gone = unlink_client d from io in
    let handles = (gone.clients pid).handles in
    record gone {
      fds = update gone.fds d (record (gone.fds d) {
        owner = some pid;
        client_ix = length handles;
        flags = bit_and (gone.fds d).flags (compl 32 (2 ^ transfer_bit));
      });
      clients =
          update gone.clients pid (record (gone.clients pid) { handles = handles ++ (d ∷ []) });
    }

abbrev pub touch_from : (d pid : ℕ) → Io → Option ℕ → ℤ × Io
touch_from d pid io none = (ebadf, io)
touch_from d pid io (some from) =
    if has_bit (io.fds d).flags transfer_bit then (pos 0, transfer d from pid io) else (ebadf, io)

abbrev pub touch_found : (d pid : ℕ) → Io → Option (Transfer × List Transfer) → ℤ × Io
touch_found d pid io none = (ebadf, io)
touch_found d pid io (some found) =
    touch_from d pid (record io { transfers = found.1 }) (io.fds d).owner

abbrev pub touch_for : (d pid : ℕ) → Io → Option Io → ℤ × Io
touch_for d pid io none = (enomem, io)
touch_for d pid io (some io1) = touch_found d pid io1 (take_transfer d pid io1.transfers)

-- io_impl_touch(), without its assert that the number is allocated.
unfoldable pub touch : (memory : Bool) → (d pid : ℕ) → Io → ℤ × Io
touch memory d pid io = touch_for d pid io (get_client memory pid io)

-- late_close_fd(), whose failed asserts give `none`; what the close callback returns is only
-- logged.
unfoldable pub late_close_fd : (close : ℕ → ℤ) → ℕ → Io → Option Io
late_close_fd close d io = elim (io.fds d).owner [
  | none ↦ none
  | some pid ↦
      let c = io.clients pid in
      let orig = (io.fds d).orig_fd in
      let is_shadow = has_bit (io.fds d).flags shadow_bit in
      if is_shadow && not (is_mapped c orig)
      then none
      else let io1 : Io = record io {
        clients =
            update io.clients pid
              (if is_shadow then record c { fd_table = set c.fd_table orig 0 } else c);
      } in
        elim (fd_dtor close d true io1) [ none ↦ none | some after ↦ some (after.1) ]
]

-- The loop of client_dtor(), in `n` rounds at most.
unfoldable pub client_dtor_loop : ℕ → (close : ℕ → ℤ) → ℕ → Io → Option Io
client_dtor_loop zero close pid io = if length (io.clients pid).handles == 0 then some io else none
client_dtor_loop (suc n) close pid io = elim (io.clients pid).handles [
  | [] ↦ some io
  | d ∷ ds ↦ elim (fd_dtor close d true io) [
    | none ↦ none
    | some after ↦ client_dtor_loop n close pid (after.1)
  ]
]

unfoldable pub client_dtor : (close : ℕ → ℤ) → ℕ → Io → Option Io
client_dtor close pid io =
    let io1 : Io = record io {
      clients = update io.clients pid (record (io.clients pid) { is_known = false });
    } in
    client_dtor_loop (length (io.clients pid).handles) close pid io1

-- What fork_client() does with the number that fork_handle() returns: it aborts on an error, and
-- failed asserts give `none` as well.
abbrev pub fork_store : (d child : ℕ) → ℤ → Io → Option Io
fork_store d child (negsuc k) io = none
fork_store d child (pos newfd) io =
    let c = io.clients child in
    if ltb d (length c.fd_table) && (get_or c.fd_table d 0 == 0)
    then some (record io {
      clients = update io.clients child (record c { fd_table = set c.fd_table d newfd });
    })
    else none

-- fork_handle() and its number stored, as in both loops of fork_client().
unfoldable pub fork_number : (free : List ℕ) → (d child : ℕ) → Io → Option Io
fork_number free d child io = let r = fork_handle free d child io in fork_store d child (r.0) (r.1)

-- One round of the loop over handles in fork_client(), where `max_fd + 1` is the length of the
-- child's table.
unfoldable pub fork_round : (free : List ℕ) → (d child : ℕ) → Io → Option Io
fork_round free d child io =
    if has_bit (io.fds d).flags shadow_bit
    then some io
    else if not (ltb d (length (io.clients child).fd_table))
    then none
    else fork_number free d child io

-- One round of fork_client()'s loop over the translation table of the parent.
unfoldable pub shadow_round : (free : List ℕ) → (i parent child : ℕ) → Io → Option Io
shadow_round free i parent child io =
    if not (is_mapped (io.clients parent) i)
    then some io
    else if elim (io.fds i).owner [ none ↦ true | some p ↦ false ]
    then some io
    else if has_bit (io.fds i).flags shadow_bit
    then none
    else fork_number free i child io
