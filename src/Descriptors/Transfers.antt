-- ===== src/Descriptors/Transfers.antt =====
-- io_impl_touch() of sys/io/io.c: a descriptor that was sent with dup_to() changes hands.
use sneks.Base.{
  ℕ, ◌^◌, ◌≡◌, refl, sym, ◌∙◌, ap, Bool, true, false, Option, none, some, List, [], ◌∷◌, inl, inr,
  ◌⊎◌, arith, ◌==◌, if◌then◌else◌, Bool-cases, Option-cases, ℤ, pos, negsuc, has_bit, compl,
  bit_and, test_bit, test_bit-and, has_bit-eq,
}
use sneks.Descriptors.{Io, Transfer, transfer_bit, unlink_client}
use sneks.Descriptors.Linked.{Linked, Linked-key, attach-Linked, detach-Linked}
use sneks.Descriptors.Operations.{
  with_client, get_client, transfer, touch_from, touch_found, touch_for, take_transfer,
  transfer_match, touch,
}
use sneks.Descriptors.Invariant.{Wf, file_key, unlink_client-kept, unlink_client-handles}
use sneks.Descriptors.Create.{Fresh, with_client-Wf, get_client-cases}

transfer-kept :
    (d from pid : ℕ) (io : Io) (e : ℕ)
    → (((transfer d from pid io).fds e).owner ≡ (if d == e then some pid else (io.fds e).owner))
      × (((transfer d from pid io).fds e).file ≡ (io.fds e).file)
      × (((transfer d from pid io).fds e).file_ix ≡ (io.fds e).file_ix)
unfolding transfer
transfer-kept d from pid io e = ground (arith, unlink_client-kept d from io e)

transfer-files :
    (d from pid : ℕ) (io : Io)
    → Wf io
    → (io.fds d).owner ≡ some from
    → Linked
        (λ f. ((transfer d from pid io).files f).handles)
        (file_key (transfer d from pid io))
        (λ e. ((transfer d from pid io).fds e).file_ix)
unfolding transfer unlink_client
transfer-files d from pid io wf own =
    Linked-key wf.files_linked (λ e. ground (arith, transfer-kept d from pid io e))
      (λ e. (transfer-kept d from pid io e).2)

transfer-Wf :
    (d from pid : ℕ) (io : Io) → Wf io → (io.fds d).owner ≡ some from → Wf (transfer d from pid io)
unfolding transfer
transfer-Wf d from pid io wf own =
    let gone = unlink_client d from io in
    let key : ℕ → Option ℕ = λ e. if d == e then none else (io.fds e).owner in
    let without : Linked (λ p. (gone.clients p).handles) key (λ e. (gone.fds e).client_ix) =
      detach-Linked d from wf.clients_linked own
        (λ j. ground (arith, unlink_client-handles d from io j)) (λ e. refl)
        (λ e. ground (arith, unlink_client-kept d from io e)) in
    record {
      clients_linked =
          attach-Linked d pid without (ground arith) (λ j. ground arith)
            (λ e. ground (arith, transfer-kept d from pid io e, unlink_client-kept d from io e))
            (λ e. ground arith);
      files_linked = transfer-files d from pid io wf own;
    }

take_transfer_lem :
    (d pid : ℕ) (xs : List Transfer) (t : Transfer) (ts : List Transfer)
    → take_transfer d pid xs ≡ some (t, ts)
    → (t.fd ≡ d) × (transfer_match t pid ≡ true)
unfolding take_transfer
take_transfer_lem d pid [] t ts e = absurd (ground arith)
take_transfer_lem d pid (x ∷ xs) t ts e = elim (Option-cases (take_transfer d pid xs)) [
  | inl nothing_else ↦ ground arith
  | inr (p, e') ↦ ground (arith, take_transfer_lem d pid xs (p.0) (p.1) e')
]

-- What io_impl_touch() may give: an error that leaves the descriptors alone, or success, after
-- which the descriptor belongs to the process, is in no transfer, and is of the file it was of.
abbrev pub Touched : (d pid : ℕ) → Io → ℤ × Io → Type 0
Touched d pid io r =
    ((k : ℕ) × (r.0 ≡ negsuc k) × (r.1.fds ≡ io.fds))
    ⊎ ((r.0 ≡ pos 0)
        × ((t : Transfer) × (take_transfer d pid io.transfers ≡ some (t, r.1.transfers))
            × (t.fd ≡ d)
            × (transfer_match t pid ≡ true))
        × (has_bit (r.1.fds d).flags transfer_bit ≡ false)
        × ((e : ℕ)
            → ((r.1.fds e).owner ≡ (if d == e then some pid else (io.fds e).owner))
              × ((r.1.fds e).file ≡ (io.fds e).file)))

transfer_inside : test_bit (compl 32 (2 ^ transfer_bit)) transfer_bit ≡ false
unfolding test_bit
transfer_inside = refl

transfer_cleared :
    (flags : ℕ) → has_bit (bit_and flags (compl 32 (2 ^ transfer_bit))) transfer_bit ≡ false
transfer_cleared flags = ground (
  arith,
  has_bit-eq (bit_and flags (compl 32 (2 ^ transfer_bit))) transfer_bit,
  test_bit-and flags (compl 32 (2 ^ transfer_bit)) transfer_bit,
  transfer_inside,
)

transfer-flags :
    (d from pid : ℕ) (io : Io) → has_bit ((transfer d from pid io).fds d).flags transfer_bit ≡ false
unfolding transfer
transfer-flags d from pid io =
    ground (arith, transfer_cleared ((unlink_client d from io).fds d).flags)

transfer-transfers : (d from pid : ℕ) (io : Io) → (transfer d from pid io).transfers ≡ io.transfers
unfolding transfer unlink_client
transfer-transfers d from pid io = refl

touch_from-Touched :
    (d pid : ℕ) (io : Io) (t : Transfer) (ts : List Transfer) (o : Option ℕ)
    → take_transfer d pid io.transfers ≡ some (t, ts)
    → Wf io
    → (io.fds d).owner ≡ o
    → Wf (touch_from d pid (record io { transfers = ts }) o).1
      × Touched d pid io (touch_from d pid (record io { transfers = ts }) o)
touch_from-Touched d pid io t ts none found wf own = (
  record { clients_linked = wf.clients_linked; files_linked = wf.files_linked },
  inl (8, refl, refl),
)
touch_from-Touched d pid io t ts (some from) found wf own =
    let io2 : Io = record io { transfers = ts } in
    let wf2 : Wf io2 = record {
      clients_linked = wf.clients_linked;
      files_linked = wf.files_linked;
    } in
    elim (Bool-cases (has_bit (io.fds d).flags transfer_bit)) [
      | inl flagged ↦ rw flagged (
        transfer-Wf d from pid io2 wf2 own,
        inr (
          refl,
          (
            t,
            found
                ∙ ap (λ (l : List Transfer). some (t, l)) (sym (transfer-transfers d from pid io2)),
            (take_transfer_lem d pid io.transfers t ts found).0,
            (take_transfer_lem d pid io.transfers t ts found).1,
          ),
          transfer-flags d from pid io2,
          λ e. ((transfer-kept d from pid io2 e).0, (transfer-kept d from pid io2 e).1),
        ),
      )
      | inr plain ↦ rw plain (wf2, inl (8, refl, refl))
    ]

touch_found-Touched :
    (d pid : ℕ) (io : Io) (o : Option (Transfer × List Transfer))
    → take_transfer d pid io.transfers ≡ o
    → Wf io
    → Wf (touch_found d pid io o).1 × Touched d pid io (touch_found d pid io o)
touch_found-Touched d pid io none e wf = (wf, inl (8, refl, refl))
touch_found-Touched d pid io (some found) e wf =
    touch_from-Touched d pid io (found.0) (found.1) (io.fds d).owner e wf refl

touch_for-Touched :
    (d pid : ℕ) (io : Io) (c : Option Io)
    → Wf io
    → Fresh io
    → (c ≡ none) ⊎ (c ≡ some (with_client pid io))
    → Wf (touch_for d pid io c).1 × Touched d pid io (touch_for d pid io c)
touch_for-Touched d pid io c wf fresh (inl lack) = rw lack (wf, inl (11, refl, refl))
touch_for-Touched d pid io c wf fresh (inr can) = rw can (
    touch_found-Touched d pid (with_client pid io) (take_transfer d pid io.transfers) refl
      (with_client-Wf pid io wf fresh))

-- On a table that satisfies the invariant, io_impl_touch() keeps it and either fails, with every
-- descriptor as it was, or takes a transfer of the descriptor that is meant for the process off
-- the list and gives the descriptor, no longer marked as in transfer and still of its file, to the
-- process, while every other descriptor keeps its client and file.
pub touch_moves :
    (memory : Bool) (d pid : ℕ) (io : Io)
    → Wf io
    → Fresh io
    → Wf (touch memory d pid io).1 × Touched d pid io (touch memory d pid io)
unfolding touch
touch_moves memory d pid io wf fresh =
    touch_for-Touched d pid io (get_client memory pid io) wf fresh (get_client-cases memory pid io)
