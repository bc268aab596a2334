-- ===== src/Descriptors/Create.antt =====
-- New descriptors (sys/io/io.c): the invariant stays, and a new number is one that get_fd() finds.
use sneks.Base.{
  ◌<◌, test_bit, test_bit-and, test_bit-zero, has_bit-eq, ℕ, suc, ◌^◌, ◌≡◌, refl, ap, Bool, true,
  false, ◌||◌, Option, none, some, List, [], ◌∷◌, inl, inr, ◌⊎◌, arith, ◌==◌, Bool-cases, length,
  get_elem?, ℤ, pos, negsuc, has_bit, compl, bit_and,
}
use sneks.Descriptors.{Io, Fd, Client, shadow_bit}
use sneks.Descriptors.Linked.{Linked-items, attach-Linked}
use sneks.Descriptors.Operations.{
  alloc_fd, is_mapped, with_client, get_client, place, add_for, max_fd, new_fd, link, io_add_fd,
  get_fd_nosync,
}
use sneks.Descriptors.Invariant.{Wf}

pub link-Wf :
    (d pid : ℕ) (f : Fd) (io : Io) → Wf io → (io.fds d).owner ≡ none → Wf (link d pid f io)
unfolding link
link-Wf d pid f io wf free = record {
  clients_linked =
      attach-Linked d pid wf.clients_linked free (λ j. ground arith) (λ e. ground arith)
        (λ e. ground arith);
  files_linked =
      attach-Linked d f.file wf.files_linked (ground arith) (λ j. ground arith) (λ e. ground arith)
        (λ e. ground arith);
}

-- A client that is not known has no handles.
abbrev pub Fresh : Io → Type 0
Fresh io = (p : ℕ) → (io.clients p).is_known ≡ false → (io.clients p).handles ≡ []

pub with_client-Wf : (pid : ℕ) (io : Io) → Wf io → Fresh io → Wf (with_client pid io)
with_client-Wf pid io wf fresh = record {
  clients_linked = Linked-items wf.clients_linked (λ j. ground (arith, fresh pid));
  files_linked = wf.files_linked;
}

pub get_client-cases :
    (memory : Bool) (pid : ℕ) (io : Io)
    → (get_client memory pid io ≡ none) ⊎ (get_client memory pid io ≡ some (with_client pid io))
get_client-cases memory pid io = elim (Bool-cases ((io.clients pid).is_known || memory)) [
  | inl can ↦ inr (rw can refl)
  | inr fails ↦ inl (rw fails refl)
]

-- What ra_alloc() has on offer is not in use, and never 0, since main() calls ra_disable_id_0().
abbrev pub Unused : List ℕ → Io → Type 0
Unused ds io = (i d : ℕ) → get_elem? ds i ≡ some d → ((io.fds d).owner ≡ none) × (0 < d)

pub alloc_fd-Unused :
    (ds : List ℕ) (c : Client) (io : Io) (d : ℕ)
    → Unused ds io
    → alloc_fd ds c ≡ some d
    → ((io.fds d).owner ≡ none) × (0 < d) × (is_mapped c d ≡ false)
unfolding alloc_fd
alloc_fd-Unused [] c io d all e = absurd (ground arith)
alloc_fd-Unused (x ∷ ds) c io d all e =
    ground (arith, all 0 x refl, alloc_fd-Unused ds c io d (λ i y at. all (suc i) y at))

-- What io_add_fd() may give: an error that leaves the descriptors alone, or the number of a
-- descriptor that was free, that get_fd() finds for the process, and that is of the file.
abbrev pub Added : (pid file : ℕ) → Io → ℤ × Io → Type 0
Added pid file io r =
    ((k : ℕ) × (r.0 ≡ negsuc k) × (r.1.fds ≡ io.fds))
    ⊎ ((d : ℕ) × (r.0 ≡ pos d)
        × ((io.fds d).owner ≡ none)
        × (get_fd_nosync pid d (r.1) ≡ some (some d))
        × ((r.1.fds d).file ≡ file))

==_true : (a b : ℕ) → (a == b) ≡ true → a ≡ b
==_true a b h = ground arith

shadow_outside : test_bit (compl 32 (2 ^ 16)) shadow_bit ≡ true
unfolding test_bit
shadow_outside = refl

unshadowed :
    (flags : ℕ) → (bit_and flags (compl 32 (2 ^ 16)) == 0) ≡ true → has_bit flags shadow_bit ≡ false
unshadowed flags valid = ground (
  arith,
  has_bit-eq flags shadow_bit,
  test_bit-and flags (compl 32 (2 ^ 16)) shadow_bit,
  shadow_outside,
  test_bit-zero shadow_bit,
  ap (λ (t : ℕ). test_bit t shadow_bit) (==_true (bit_and flags (compl 32 (2 ^ 16))) 0 valid),
)

place-Added :
    (pid file flags : ℕ) (io : Io) (o : Option ℕ)
    → has_bit flags shadow_bit ≡ false
    → Wf io
    → ((d : ℕ) → o ≡ some d → ((io.fds d).owner ≡ none) × (0 < d))
    → Wf (place pid file flags io o).1 × Added pid file io (place pid file flags io o)
unfolding get_fd_nosync link
place-Added pid file flags io none plain wf unused = (wf, inl (22, refl, refl))
place-Added pid file flags io (some d) plain wf unused = (
  link-Wf d pid (new_fd file flags) io wf (unused d refl).0,
  inr (d, refl, (unused d refl).0, ground (arith, unused d refl), ground arith),
)

add_known-Added :
    (free : List ℕ) (pid file flags : ℕ) (io : Io)
    → has_bit flags shadow_bit ≡ false
    → Wf io
    → Fresh io
    → Unused free io
    → Wf (add_for free pid file flags io (some (with_client pid io))).1
      × Added pid file io (add_for free pid file flags io (some (with_client pid io)))
add_known-Added free pid file flags io plain wf fresh unused =
    let io1 = with_client pid io in
    let wf1 = with_client-Wf pid io wf fresh in
    elim (Bool-cases (length (io1.clients pid).handles == max_fd)) [
      | inl full ↦ rw full (wf1, inl (23, refl, refl))
      | inr less ↦ elim (Bool-cases (length (io1.files file).handles == max_fd)) [
        | inl full ↦ rw less (rw full (wf1, inl (22, refl, refl)))
        | inr room ↦ rw less (
            rw room (
              place-Added pid file flags io1 (alloc_fd free (io1.clients pid)) plain wf1 (λ d e.
                let found = alloc_fd-Unused free (io1.clients pid) io d unused e in
                (found.0, found.1))))
      ]
    ]

add_for-Added :
    (free : List ℕ) (pid file flags : ℕ) (io : Io) (c : Option Io)
    → has_bit flags shadow_bit ≡ false
    → Wf io
    → Fresh io
    → Unused free io
    → (c ≡ none) ⊎ (c ≡ some (with_client pid io))
    → Wf (add_for free pid file flags io c).1 × Added pid file io (add_for free pid file flags io c)
add_for-Added free pid file flags io c plain wf fresh unused (inl lack) =
    rw lack (wf, inl (11, refl, refl))
add_for-Added free pid file flags io c plain wf fresh unused (inr can) =
    rw can (add_known-Added free pid file flags io plain wf fresh unused)

-- On a table that satisfies the invariant, with unused numbers above 0 on offer, io_add_fd() keeps the
-- invariant and returns either an error, with every descriptor as it was, or the number of a
-- descriptor that had no owner, that get_fd() then finds for the process, and that is of the file.
pub io_add_fd_adds :
    (memory : Bool) (free : List ℕ) (pid file flags : ℕ) (io : Io)
    → Wf io
    → Fresh io
    → Unused free io
    → Wf (io_add_fd memory free pid file flags io).1
      × Added pid file io (io_add_fd memory free pid file flags io)
unfolding io_add_fd
io_add_fd_adds memory free pid file flags io wf fresh unused =
    elim (Bool-cases (bit_and flags (compl 32 (2 ^ 16)) == 0)) [
      | inl valid ↦ rw valid (
          add_for-Added free pid file flags io (get_client memory pid io) (unshadowed flags valid)
            wf fresh unused (get_client-cases memory pid io))
      | inr invalid ↦ rw invalid (wf, inl (21, refl, refl))
    ]
