-- ===== src/Sysmsg/Subscribed.antt =====
-- sys/msg/sysmsg.c: the subscription table has one entry for each bit of each client's mask.
use sneks.Base.{
  ℕ, zero, suc, ◌+◌, ◌^◌, ◌<◌, ◌≡◌, ◌≢◌, refl, sym, ap, ◌∙◌, Bool, true, false, not, ◌&&◌, ◌||◌,
  List, [], ◌∷◌, ◌++◌, none, some, Option, ◌==◌, if◌then◌else◌, arith, bit_and, bit_or, compl, leb,
  ltb, Bool-cases, ==_iff, inl, inr, has_bit, has_bit-eq, update, test_bit-and, test_bit-or,
  test_bit-compl, bit_and-lt, bit_or-lt,
}
use sneks.Sysmsg.{for_each_bit, MsgClient, Server}
use sneks.Sysmsg.Clients.{
  rmsub, addsub, setmask, setmask_of, change_mask, client_or_new, new_client,
}

-- How many entries of the table are of a client and a bit.
unfoldable pub entries : List (ℕ × ℕ) → (pid bit : ℕ) → ℕ
entries [] pid bit = 0
entries ((b, c) ∷ subs) pid bit = entries subs pid bit + (if b == bit && (c == pid) then 1 else 0)

entries-append :
    (xs ys : List (ℕ × ℕ)) (pid bit : ℕ)
    → entries (xs ++ ys) pid bit ≡ entries xs pid bit + entries ys pid bit
unfolding entries
entries-append [] ys pid bit = omega arith
entries-append ((b, c) ∷ xs) ys pid bit = omega (arith, entries-append xs ys pid bit)

rmsub-entries :
    (p k : ℕ) (subs : List (ℕ × ℕ)) (pid bit : ℕ)
    → entries (rmsub p k subs) pid bit
      ≡ (if k == bit && (p == pid) then 0 else entries subs pid bit)
unfolding entries rmsub
rmsub-entries p k [] pid bit = ground arith
rmsub-entries p k ((b, c) ∷ subs) pid bit = ground (arith, rmsub-entries p k subs pid bit)

addsub-entries :
    (p k : ℕ) (subs : List (ℕ × ℕ)) (pid bit : ℕ)
    → entries (addsub p k subs) pid bit
      ≡ entries subs pid bit + (if k == bit && (p == pid) then 1 else 0)
unfolding addsub entries
addsub-entries p k subs pid bit = omega (arith, entries-append subs ((k, p) ∷ []) pid bit)

-- Whether a loop over `n` bits from `b` on comes to the bit.
abbrev visits : (mask n b bit : ℕ) → Bool
visits mask n b bit = has_bit mask bit && (leb b bit && ltb bit (b + n))

same_bit : (mask b bit : ℕ) → b ≡ bit → has_bit mask b ≡ has_bit mask bit
same_bit mask b bit e = ap (λ (k : ℕ). has_bit mask k) e

removals :
    (p mask n b : ℕ) (subs : List (ℕ × ℕ)) (pid bit : ℕ)
    → entries (for_each_bit (rmsub p) mask n b subs) pid bit
      ≡ (if p == pid && visits mask n b bit then 0 else entries subs pid bit)
unfolding for_each_bit
removals p mask zero b subs pid bit = ground arith
removals p mask (suc n) b subs pid bit = elim (Bool-cases (has_bit mask b)) [
  | inl on ↦ rw on (
      ground (
        arith,
        removals p mask n (b + 1) (rmsub p b subs) pid bit,
        rmsub-entries p b subs pid bit,
        same_bit mask b bit,
      ))
  | inr off ↦ rw off (ground (arith, removals p mask n (b + 1) subs pid bit, same_bit mask b bit))
]

additions :
    (p mask n b : ℕ) (subs : List (ℕ × ℕ)) (pid bit : ℕ)
    → entries (for_each_bit (addsub p) mask n b subs) pid bit
      ≡ entries subs pid bit + (if p == pid && visits mask n b bit then 1 else 0)
unfolding for_each_bit
additions p mask zero b subs pid bit = ground arith
additions p mask (suc n) b subs pid bit = elim (Bool-cases (has_bit mask b)) [
  | inl on ↦ rw on (
      ground (
        arith,
        additions p mask n (b + 1) (addsub p b subs) pid bit,
        addsub-entries p b subs pid bit,
        same_bit mask b bit,
      ))
  | inr off ↦ rw off (ground (arith, additions p mask n (b + 1) subs pid bit, same_bit mask b bit))
]

-- The mask of a client, which is 0 for one that is not known.
abbrev pub mask_of : Server → ℕ → ℕ
mask_of s pid = (client_or_new (s.clients pid)).subs_mask

-- The table has one entry for each bit of each mask, and no others; masks are 32-bit words.
abbrev pub TableRight : Server → Type 0
TableRight s =
    ((pid : ℕ) → mask_of s pid < 2 ^ 32)
    × ((pid bit : ℕ)
        → bit < 32
        → entries s.subs pid bit ≡ (if has_bit (mask_of s pid) bit then 1 else 0))

-- The bits of the masks that setmask() computes.
new_bit :
    (old or_bits and_bits bit : ℕ)
    → has_bit (bit_or (bit_and old and_bits) or_bits) bit
      ≡ has_bit old bit && has_bit and_bits bit || has_bit or_bits bit
new_bit old or_bits and_bits bit =
    rw
      (
        has_bit-eq (bit_or (bit_and old and_bits) or_bits) bit,
        has_bit-eq old bit,
        has_bit-eq and_bits bit,
        has_bit-eq or_bits bit,
        test_bit-or (bit_and old and_bits) or_bits bit,
        test_bit-and old and_bits bit,
      )
      refl

without_bit :
    (a b bit : ℕ)
    → b < 2 ^ 32
    → bit < 32
    → has_bit (bit_and a (compl 32 b)) bit ≡ has_bit a bit && not (has_bit b bit)
without_bit a b bit hb h =
    rw
      (
        has_bit-eq (bit_and a (compl 32 b)) bit,
        has_bit-eq a bit,
        has_bit-eq b bit,
        test_bit-and a (compl 32 b) bit,
        test_bit-compl 32 b bit hb h,
      )
      refl

added_bit :
    (a b bit : ℕ)
    → a < 2 ^ 32
    → bit < 32
    → has_bit (bit_and (compl 32 a) b) bit ≡ not (has_bit a bit) && has_bit b bit
added_bit a b bit ha h =
    rw
      (
        has_bit-eq (bit_and (compl 32 a) b) bit,
        has_bit-eq a bit,
        has_bit-eq b bit,
        test_bit-and (compl 32 a) b bit,
        test_bit-compl 32 a bit ha h,
      )
      refl

-- What setmask() does.
abbrev pub SetsMask : (pid or_bits and_bits : ℕ) → Server → ℕ × Server → Type 0
SetsMask pid or_bits and_bits s (old, t) =
    TableRight t
    × (old ≡ mask_of s pid)
    × (mask_of t pid ≡ bit_or (bit_and (mask_of s pid) and_bits) or_bits)
    × ((q : ℕ) → q ≢ pid → t.clients q ≡ s.clients q)

stored_mask :
    (clients : ℕ → Option MsgClient) (pid q : ℕ) (c : MsgClient)
    → (client_or_new (update clients pid (some c) q)).subs_mask
      ≡ (if pid == q then c.subs_mask else (client_or_new (clients q)).subs_mask)
stored_mask clients pid q c = elim (Bool-cases (pid == q)) [
  | inl at ↦ rw at refl
  | inr off ↦ rw off refl
]

-- One entry after the removals and additions.
one_entry :
    (here had has : Bool) (n : ℕ)
    → n ≡ (if had then 1 else 0)
    → (if here && (had && not has && true) then 0 else n)
        + (if here && (not had && has && true) then 1 else 0)
      ≡ (if (if here then has else had) then 1 else 0)
one_entry here had has n e = ground arith

visited : (mask bit : ℕ) → bit < 32 → visits mask 32 0 bit ≡ has_bit mask bit && true
visited mask bit h = ground arith

bit_of_if :
    (c : Bool) (a b bit : ℕ)
    → has_bit (if c then a else b) bit ≡ (if c then has_bit a bit else has_bit b bit)
bit_of_if true a b bit = refl
bit_of_if false a b bit = refl

module _ (pid old mask : ℕ) (s : Server) (old_word : old < 2 ^ 32) (word : mask < 2 ^ 32)
    (e : old ≡ mask_of s pid)
    (table : (q bit : ℕ)
      → bit < 32
      → entries s.subs q bit ≡ (if has_bit (mask_of s q) bit then 1 else 0)) where
  changed_entries :
      (q bit : ℕ)
      → bit < 32
      → entries
          (for_each_bit
            (addsub pid)
            (bit_and (compl 32 old) mask)
            32
            0
            (for_each_bit (rmsub pid) (bit_and old (compl 32 mask)) 32 0 s.subs))
          q
          bit
        ≡ (if has_bit (if pid == q then mask else mask_of s q) bit then 1 else 0)
  changed_entries q bit h =
      rw
        (
          additions pid (bit_and (compl 32 old) mask) 32 0
              (for_each_bit (rmsub pid) (bit_and old (compl 32 mask)) 32 0 s.subs) q bit,
          removals pid (bit_and old (compl 32 mask)) 32 0 s.subs q bit,
          visited (bit_and (compl 32 old) mask) bit h,
          visited (bit_and old (compl 32 mask)) bit h,
          without_bit old mask bit word h,
          added_bit old mask bit old_word h,
          bit_of_if (pid == q) mask (mask_of s q) bit,
        )
        (elim (Bool-cases (pid == q)) [
          | inl at ↦ rw at (
              one_entry true (has_bit old bit) (has_bit mask bit) _ (
                table q bit h
                ∙ ap (λ (m : ℕ). if has_bit m bit then 1 else 0)
                    (sym (e ∙ ap (λ (p : ℕ). mask_of s p) ((==_iff pid q).0 at)))))
          | inr off ↦ rw off (ground (arith, table q bit h))
        ])

change_mask-SetsMask :
    (pid or_bits and_bits : ℕ) (c : MsgClient) (s : Server)
    → or_bits < 2 ^ 32
    → c.subs_mask ≡ mask_of s pid
    → TableRight s
    → SetsMask pid or_bits and_bits s (change_mask pid or_bits and_bits c s)
unfolding change_mask
change_mask-SetsMask pid or_bits and_bits c s small e (words, table) = (
  (
    λ q. rw (stored_mask s.clients pid q _) (ground (arith, words q, word)),
    λ q bit h.
        rw (stored_mask s.clients pid q _)
          (changed_entries pid c.subs_mask _ s old_word word e table q bit h),
  ),
  e,
  rw (stored_mask s.clients pid pid _) (ground (arith, e)),
  λ q off. ground arith,
)
  where
    old_word : c.subs_mask < 2 ^ 32
    old_word = ground (arith, words pid, e)

    word : bit_or (bit_and c.subs_mask and_bits) or_bits < 2 ^ 32
    word =
        bit_or-lt 32 (bit_and c.subs_mask and_bits) or_bits
          (bit_and-lt 32 c.subs_mask and_bits old_word) small

setmask_of-SetsMask :
    (pid or_bits and_bits : ℕ) (o : Option MsgClient) (s : Server)
    → or_bits < 2 ^ 32
    → s.clients pid ≡ o
    → TableRight s
    → SetsMask pid or_bits and_bits s (setmask_of pid or_bits and_bits o s)
unfolding setmask_of
setmask_of-SetsMask pid or_bits and_bits (some c) s small e right =
    change_mask-SetsMask pid or_bits and_bits c s small
      (sym (ap (λ (o : Option MsgClient). (client_or_new o).subs_mask) e)) right
setmask_of-SetsMask pid or_bits and_bits none s small e right =
    elim (Bool-cases (and_bits == 0 && (or_bits == 0))) [
      | inl nothing ↦
          rw nothing (
            right,
            sym zero_mask,
            rw (zero_mask, no_and nothing, no_or nothing) refl,
            λ q off. refl,
          )
      | inr some_bits ↦
          rw some_bits
            (change_mask-SetsMask pid or_bits and_bits new_client s small (sym zero_mask) right)
    ]
  where
    no_and : (and_bits == 0 && (or_bits == 0)) ≡ true → and_bits ≡ 0
    no_and h = ground arith

    no_or : (and_bits == 0 && (or_bits == 0)) ≡ true → or_bits ≡ 0
    no_or h = ground arith

    zero_mask : mask_of s pid ≡ 0
    zero_mask = ap (λ (o : Option MsgClient). (client_or_new o).subs_mask) e

-- setmask() with a 32-bit or_bits keeps the table of subscriptions right: one entry for each bit of
-- each client's mask, and masks of 32 bits. It returns the client's old mask, makes its new one
-- (old & and_bits) | or_bits, and changes no other client.
pub setmask-SetsMask :
    (pid or_bits and_bits : ℕ) (s : Server)
    → or_bits < 2 ^ 32
    → TableRight s
    → SetsMask pid or_bits and_bits s (setmask pid or_bits and_bits s)
unfolding setmask
setmask-SetsMask pid or_bits and_bits s small right =
    setmask_of-SetsMask pid or_bits and_bits (s.clients pid) s small refl right
