-- ===== src/Sysmsg/Recipients.antt =====
-- sys/msg/sysmsg.c: to whom a broadcast goes.
use sneks.Base.{
  ℕ, zero, suc, ◌+◌, ◌-◌, ◌*◌, ◌^◌, bit_and-zero, bit_and-low, ◌≤◌, ◌<◌, ◌≡◌, refl, sym, ap, ◌∙◌,
  Bool, true, false, not, ◌&&◌, ◌||◌, List, [], ◌∷◌, ◌++◌, Option, ◌==◌, arith, Bool-cases, inl,
  inr, ==_iff, bit_and, has_bit, has_bit-eq, test_bit, test_bit-and, test_bit-zero, eq_of_bits,
  bit_and-lt, ℤ,
}
use sneks.Sysmsg.{for_each_bit, MsgClient, Server}
use sneks.Sysmsg.Clients.{
  gather_bit, gather, recipients, client_or_new, qsort, send_all, wants, delays, impl_broadcast,
}
use sneks.Sysmsg.Subscribed.{entries, mask_of, TableRight}
use sneks.Sysmsg.Order.{
  mem, all_from, is_increasing, mem-qsort, is_sorted-qsort, mem-uniq, is_increasing-uniq,
}

mem-append : (p : ℕ) (xs ys : List ℕ) → mem p (xs ++ ys) ≡ mem p xs || mem p ys
unfolding mem
mem-append p [] ys = refl
mem-append p (x ∷ xs) ys = ground (arith, mem-append p xs ys)

abbrev mask_in : (ℕ → Option MsgClient) → ℕ → ℕ
mask_in clients pid = (client_or_new (clients pid)).subs_mask

mem-gather_bit :
    (clients : ℕ → Option MsgClient) (maskn bit p : ℕ) (subs : List (ℕ × ℕ))
    → mem p (gather_bit clients maskn bit subs)
      ≡ not (entries subs p bit == 0) && (bit_and (mask_in clients p) maskn == 0)
unfolding gather_bit entries mem
mem-gather_bit clients maskn bit p [] = refl
mem-gather_bit clients maskn bit p ((b, c) ∷ subs) = elim (Bool-cases (c == p)) [
  | inl at ↦ ground (
    arith,
    mem-gather_bit clients maskn bit p subs,
    ap (λ (k : ℕ). bit_and (mask_in clients k) maskn) ((==_iff c p).0 at),
  )
  | inr off ↦ ground (arith, mem-gather_bit clients maskn bit p subs)
]

-- Whether a bit from `b` on, of `n`, passes a test.
unfoldable any_bit : (ℕ → Bool) → (n b : ℕ) → Bool
any_bit test zero b = false
any_bit test (suc n) b = test b || any_bit test n (b + 1)

mem-loop :
    (lists : ℕ → List ℕ) (mask n b p : ℕ) (recs : List ℕ)
    → mem p (for_each_bit (λ (bit : ℕ) (rs : List ℕ). rs ++ lists bit) mask n b recs)
      ≡ mem p recs || any_bit (λ (bit : ℕ). has_bit mask bit && mem p (lists bit)) n b
unfolding for_each_bit any_bit
mem-loop lists mask zero b p recs = ground arith
mem-loop lists mask (suc n) b p recs = elim (Bool-cases (has_bit mask b)) [
  | inl on ↦ rw on (
      ground
        (arith, mem-loop lists mask n (b + 1) p (recs ++ lists b), mem-append p recs (lists b)))
  | inr off ↦ rw off (ground (arith, mem-loop lists mask n (b + 1) p recs))
]

any_bit-ext :
    (f g : ℕ → Bool) (n b : ℕ) → ((k : ℕ) → k < b + n → f k ≡ g k) → any_bit f n b ≡ any_bit g n b
unfolding any_bit
any_bit-ext f g zero b same = refl
any_bit-ext f g (suc n) b same =
    ground (arith, any_bit-ext f g n (b + 1) (λ k h. same k (omega arith)), same b (omega arith))

any_bit-none : (f : ℕ → Bool) (n b k : ℕ) → any_bit f n b ≡ false → b ≤ k → k < b + n → f k ≡ false
unfolding any_bit
any_bit-none f zero b k e low high = absurd (omega arith)
any_bit-none f (suc n) b k e low high = elim (Bool-cases (b == k)) [
  | inl at ↦ ground (arith, ap f ((==_iff b k).0 at))
  | inr off ↦ any_bit-none f n (b + 1) k (ground arith) (ground arith) (omega arith)
]

any_bit-zero : (f : ℕ → Bool) (n b : ℕ) → ((k : ℕ) → f k ≡ false) → any_bit f n b ≡ false
unfolding any_bit
any_bit-zero f zero b none_set = refl
any_bit-zero f (suc n) b none_set = ground (arith, any_bit-zero f n (b + 1) none_set, none_set b)

clash : {b : Bool} → b ≡ false → b ≡ true → ⊥
clash e f = ground arith

word_bit : (x k : ℕ) → x < 2 ^ 32 → x ≡ 0 → test_bit x k ≡ false
word_bit x k h e = rw e (test_bit-zero k)

word_any :
    (x : ℕ) (c : Bool)
    → x < 2 ^ 32
    → any_bit (λ (k : ℕ). test_bit x k && c) 32 0 ≡ not (x == 0) && c
word_any x false h =
    ground (arith, any_bit-zero (λ (k : ℕ). test_bit x k && false) 32 0 (λ k. ground arith))
word_any x true h = elim (Bool-cases (any_bit (λ (k : ℕ). test_bit x k && true) 32 0)) [
  | inl found ↦ rw found (elim (Bool-cases (x == 0)) [
    | inl zero_word ↦ absurd (
        clash
          (any_bit-zero (λ (k : ℕ). test_bit x k && true) 32 0
            (λ k. ground (arith, word_bit x k h ((==_iff x 0).0 zero_word))))
          found)
    | inr other_word ↦ rw other_word refl
  ])
  | inr nothing ↦
      rw
        (
          nothing,
          eq_of_bits 32 x 0 h (omega arith) (λ k below. ground (
            arith,
            test_bit-zero k,
            any_bit-none (λ (j : ℕ). test_bit x j && true) 32 0 k nothing (omega arith)
                (omega arith),
          )),
        )
        refl
]

any_bit-and :
    (a m : ℕ) (c : Bool)
    → m < 2 ^ 32
    → any_bit (λ (k : ℕ). has_bit a k && (has_bit m k && c)) 32 0 ≡ not (bit_and m a == 0) && c
any_bit-and a m c h =
    any_bit-ext (λ (k : ℕ). has_bit a k && (has_bit m k && c))
      (λ (k : ℕ). test_bit (bit_and m a) k && c) 32 0
      (λ k below. ground (arith, has_bit-eq a k, has_bit-eq m k, test_bit-and m a k))
    ∙ word_any (bit_and m a) c (bit_and-lt 32 m a h)

-- The clients that a broadcast comes to.
recipients_wanted :
    (maskp maskn p : ℕ) (s : Server)
    → TableRight s
    → (is_increasing (recipients maskp maskn s) ≡ true)
      × (mem p (recipients maskp maskn s)
          ≡ not (bit_and (mask_of s p) maskp == 0) && (bit_and (mask_of s p) maskn == 0))
unfolding recipients gather mem
recipients_wanted maskp maskn p s (words, table) = (
  is_increasing-uniq (qsort (gather maskp maskn s)) (is_sorted-qsort (gather maskp maskn s)),
  mem-uniq p (qsort (gather maskp maskn s))
      ∙ (mem-qsort p (gather maskp maskn s)
          ∙ (mem-loop (λ (bit : ℕ). gather_bit s.clients maskn bit s.subs) maskp 32 0 p []
              ∙ (any_bit-ext
                    (λ (bit : ℕ).
                      has_bit maskp bit && mem p (gather_bit s.clients maskn bit s.subs))
                    (λ (bit : ℕ).
                      has_bit maskp bit
                      && (has_bit (mask_of s p) bit && (bit_and (mask_of s p) maskn == 0)))
                    32 0
                    (λ bit below. ground (
                      arith,
                      mem-gather_bit s.clients maskn bit p s.subs,
                      table p bit (omega arith),
                    ))
                  ∙ any_bit-and maskp (mask_of s p) (bit_and (mask_of s p) maskn == 0) (words p)))),
)

module _ (int_hash : ℕ → ℕ) (filter_salt : ℕ → ℕ) (answers : ℕ → ℤ) where
  abbrev pub client_of : Server → ℕ → MsgClient
  client_of s p = client_or_new (s.clients p)

  -- None of the clients asks for a delay.
  unfoldable pub none_delays : List ℕ → Bool
  none_delays [] = true
  none_delays (p ∷ ps) = not (delays int_hash filter_salt (answers p)) && none_delays ps

  mem-send_all :
      (maskp hash p : ℕ) (s : Server) (pids : List ℕ)
      → mem p (send_all int_hash filter_salt answers maskp hash s pids).0
        ≡ mem p pids && wants int_hash filter_salt maskp hash (client_of s p)
  unfolding send_all mem
  mem-send_all maskp hash p s [] = refl
  mem-send_all maskp hash p s (q ∷ pids) = elim (Bool-cases (q == p)) [
    | inl at ↦ ground (
      arith,
      mem-send_all maskp hash p s pids,
      ap (λ (k : ℕ). wants int_hash filter_salt maskp hash (client_of s k)) ((==_iff q p).0 at),
    )
    | inr off ↦ ground (arith, mem-send_all maskp hash p s pids)
  ]

  all_from-send_all :
      (maskp hash a : ℕ) (s : Server) (pids : List ℕ)
      → all_from a pids ≡ true
      → all_from a (send_all int_hash filter_salt answers maskp hash s pids).0 ≡ true
  unfolding send_all all_from
  all_from-send_all maskp hash a s [] low = refl
  all_from-send_all maskp hash a s (q ∷ pids) low =
      ground (arith, all_from-send_all maskp hash a s pids)

  send_all-increasing :
      (maskp hash : ℕ) (s : Server) (pids : List ℕ)
      → is_increasing pids ≡ true
      → is_increasing (send_all int_hash filter_salt answers maskp hash s pids).0 ≡ true
  unfolding send_all is_increasing
  send_all-increasing maskp hash s [] up = refl
  send_all-increasing maskp hash s (q ∷ pids) up =
      ground
        (arith, send_all-increasing maskp hash s pids, all_from-send_all maskp hash (suc q) s pids)

  send_all-result :
      (maskp hash : ℕ) (s : Server) (pids : List ℕ)
      → (send_all int_hash filter_salt answers maskp hash s pids).1
        ≡ none_delays (send_all int_hash filter_salt answers maskp hash s pids).0
  unfolding send_all none_delays
  send_all-result maskp hash s [] = refl
  send_all-result maskp hash s (q ∷ pids) = ground (arith, send_all-result maskp hash s pids)

  is_inc_nil : is_increasing [] ≡ true
  unfolding is_increasing
  is_inc_nil = refl

  mem_nil : (q : ℕ) → mem q [] ≡ false
  unfolding mem
  mem_nil q = refl

  none_nil : true ≡ none_delays []
  unfolding none_delays
  none_nil = refl

  is_ones :
      (maskp maskn : ℕ)
      → (maskp == 0 || (maskn == 2 ^ 32 - 1)) ≡ true
      → (maskp == 0) ≡ false
      → maskn ≡ 2 ^ 32 - 1
  is_ones maskp maskn e off = ground arith

  zero_and : (b : ℕ) → bit_and 0 b ≡ 0
  zero_and b = omega (arith, bit_and-lt 0 0 b (omega arith))

  zero_times : (m : ℕ) → 0 * 2 ^ 32 + m ≡ m
  zero_times m = omega arith

  all_ones : (mask : ℕ) → mask < 2 ^ 32 → bit_and mask (2 ^ 32 - 1) ≡ mask
  all_ones mask h =
      ap (λ (t : ℕ). bit_and t (2 ^ 32 - 1)) (sym (zero_times mask)) ∙ bit_and-low 32 0 mask h

  no_masks :
      (mask maskp maskn : ℕ)
      → mask < 2 ^ 32
      → (maskp == 0 || (maskn == 2 ^ 32 - 1)) ≡ true
      → (not (bit_and mask maskp == 0) && (bit_and mask maskn == 0)) ≡ false
  no_masks mask maskp maskn h e = elim (Bool-cases (maskp == 0)) [
    | inl no_bits ↦ rw ((==_iff maskp 0).0 no_bits, bit_and-zero mask) refl
    | inr bits ↦
        rw (is_ones maskp maskn e bits, all_ones mask h)
          (elim (Bool-cases (mask == 0)) [
            | inl empty ↦ rw ((==_iff mask 0).0 empty, zero_and maskp) refl
            | inr full ↦ ground arith
          ])
  ]

  -- If the table is right and no client calls meanwhile: a broadcast is sent to clients in the order
  -- of their process IDs, once each: to those whose mask has a bit of `maskp` and none of `maskn`,
  -- and whose filter, where they have one for every bit of `maskp`, lets the label through. Its
  -- result says whether none of them asks for a delay.
  pub impl_broadcast_reaches :
      (maskp maskn label p : ℕ) (s : Server)
      → TableRight s
      → (is_increasing (impl_broadcast int_hash filter_salt answers maskp maskn label s).0 ≡ true)
        × (mem p (impl_broadcast int_hash filter_salt answers maskp maskn label s).0
            ≡ (not (bit_and (mask_of s p) maskp == 0) && (bit_and (mask_of s p) maskn == 0))
              && wants int_hash filter_salt maskp (int_hash label) (client_of s p))
        × ((impl_broadcast int_hash filter_salt answers maskp maskn label s).1
            ≡ none_delays (impl_broadcast int_hash filter_salt answers maskp maskn label s).0)
  unfolding impl_broadcast
  impl_broadcast_reaches maskp maskn label p s right =
      elim (Bool-cases (maskp == 0 || (maskn == 2 ^ 32 - 1))) [
        | inl nobody ↦
            rw (nobody, no_masks (mask_of s p) maskp maskn (right.0 p) nobody)
              (nothing_up, nothing_in p, nothing_delays)
        | inr some_masks ↦ rw some_masks (
          send_all-increasing maskp (int_hash label) s (recipients maskp maskn s)
              (recipients_wanted maskp maskn p s right).0,
          mem-send_all maskp (int_hash label) p s (recipients maskp maskn s)
              ∙ ap
                  (λ (b : Bool).
                    b && wants int_hash filter_salt maskp (int_hash label) (client_of s p))
                  (recipients_wanted maskp maskn p s right).1,
          send_all-result maskp (int_hash label) s (recipients maskp maskn s),
        )
      ]
    where
      nothing_up : is_increasing [] ≡ true
      nothing_up = is_inc_nil

      nothing_in : (q : ℕ) → mem q [] ≡ false
      nothing_in q = mem_nil q

      nothing_delays : true ≡ none_delays []
      nothing_delays = none_nil
