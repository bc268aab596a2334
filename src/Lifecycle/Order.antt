-- ===== src/Lifecycle/Order.antt =====
-- The invariant of the event queue of sys/io/io.c under every order of the two threads' pieces.
use sneks.Base.{
  ℕ, suc, ◌+◌, ◌%◌, ◌/◌, ◌^◌, ◌≤◌, ◌<◌, true, false, List, [], ◌∷◌, ◌++◌, ◌≡◌, refl, sym, ap, ◌∙◌,
  ◌⊎◌, inl, inr, arith, ltb, ◌==◌, Bool-cases, get_or, set, take, length, get_or-set_ne,
  length-append, take-append, get_or-append_lt, get_or-append_eq,
}
use sneks.Lifecycle.{LcEvent, Queue, blank}
use sneks.Lifecycle.Control.{word}
use sneks.Lifecycle.Steps.{
  Producer, waiting, storing, Consumer, outside, aborted, reading, System, start,
}

abbrev pub ProducerOk : Producer → Queue → (freed total : ℕ) → Type 0
ProducerOk waiting q freed total = freed ≤ total
ProducerOk (storing ctrl wrpos ev) q freed total =
    (wrpos ≡ total % 128) × (total < freed + 127) × (get_or q.lce_queue wrpos blank ≡ ev)

abbrev pub ConsumerOk : Consumer → (received stored : List LcEvent) → ℕ → Type 0
ConsumerOk outside received stored freed = received ≡ take freed stored
ConsumerOk aborted received stored freed = ⊥
ConsumerOk (reading ctrl first count i) received stored freed =
    (i ≤ count)
    × (freed + count ≤ length stored)
    × (first ≡ freed % 128)
    × (ctrl / 2 ^ 10 ≡ first)
    × (received ≡ take (freed + i) stored)

-- The slots between the two positions hold the events that wait.
abbrev pub Window : List LcEvent → List LcEvent → ℕ → Type 0
Window slots stored freed =
    (i : ℕ) → freed ≤ i → i < length stored → get_or slots (i % 128) blank ≡ get_or stored i blank

pub record Good (s : System) : Type 0 where
  pub size : length s.queue.lce_queue ≡ 128
  pub control : s.queue.lce_ctrl ≡ word (s.freed % 128) (length s.stored % 128)
  pub order : s.freed ≤ length s.stored
  pub room : length s.stored ≤ s.freed + 127
  pub window : Window s.queue.lce_queue s.stored s.freed
  pub producing : ProducerOk s.producer s.queue s.freed (length s.stored)
  pub consuming : ConsumerOk s.consumer s.received s.stored s.freed

pub start-Good : Good start
start-Good = record {
  size = refl;
  control = refl;
  order = omega arith;
  room = omega arith;
  window = λ i p q. absurd (omega arith);
  producing = omega arith;
  consuming = refl;
}

pub full_iff :
    (freed total : ℕ)
    → freed ≤ total
    → total ≤ freed + 127
    → (freed % 128 == (total % 128 + 1) % 128) ≡ false
    → total < freed + 127
full_iff freed total a b h = ground arith

pub Window-set :
    (slots stored : List LcEvent) (freed : ℕ) (ev : LcEvent)
    → Window slots stored freed
    → length stored < freed + 127
    → Window (set slots (length stored % 128) ev) stored freed
Window-set slots stored freed ev w room i le lt =
    get_or-set_ne slots (length stored % 128) (i % 128) ev blank (omega arith) ∙ w i le lt

pub Window-append_new :
    (slots stored : List LcEvent) (freed : ℕ) (ev : LcEvent) (i : ℕ)
    → get_or slots (length stored % 128) blank ≡ ev
    → i ≡ length stored
    → get_or slots (i % 128) blank ≡ get_or (stored ++ (ev ∷ [])) i blank
Window-append_new slots stored freed ev i e at_end =
    ap (λ (t : ℕ). get_or slots (t % 128) blank) at_end
    ∙ e
    ∙ sym (
        ap (λ (t : ℕ). get_or (stored ++ (ev ∷ [])) t blank) at_end
        ∙ get_or-append_eq stored ev blank)

pub Window-append :
    (slots stored : List LcEvent) (freed : ℕ) (ev : LcEvent)
    → Window slots stored freed
    → get_or slots (length stored % 128) blank ≡ ev
    → Window slots (stored ++ (ev ∷ [])) freed
Window-append slots stored freed ev w e i le lt = elim (Bool-cases (ltb i (length stored))) [
  | inl old ↦ w i le (ground arith) ∙ sym (get_or-append_lt stored (ev ∷ []) i blank (ground arith))
  | inr new ↦
      Window-append_new slots stored freed ev i e (ground (arith, length-append stored (ev ∷ [])))
]

unfoldable pub Safe : System → Type 0
Safe s = (s.dropped ≡ true) ⊎ Good s

abbrev pub read_pos : System → ℕ
read_pos s = s.freed % 128

abbrev pub write_pos : System → ℕ
write_pos s = length s.stored % 128

pub ConsumerOk-append :
    (c : Consumer) (received stored ys : List LcEvent) (freed : ℕ)
    → freed ≤ length stored
    → ConsumerOk c received stored freed
    → ConsumerOk c received (stored ++ ys) freed
ConsumerOk-append outside received stored ys freed le ok = ok ∙ sym (take-append freed stored ys le)
ConsumerOk-append aborted received stored ys freed le ok = ok
ConsumerOk-append (reading ctrl first count i) received stored ys freed le ok = (
  ok.0,
  omega (arith, length-append stored ys, ok.1),
  ok.2,
  ok.3,
  ok.4 ∙ sym (take-append (freed + i) stored ys (omega (arith, ok.0, ok.1))),
)

pub position : (first i freed : ℕ) → first ≡ freed % 128 → (first + i) % 128 ≡ (freed + i) % 128
position first i freed e = omega arith

pub next_at : (a i : ℕ) → suc (a + i) ≡ a + (i + 1)
next_at a i = omega arith

pub ProducerOk-free :
    (p : Producer) (q q' : Queue) (freed count total : ℕ)
    → q.lce_queue ≡ q'.lce_queue
    → freed + count ≤ total
    → ProducerOk p q freed total
    → ProducerOk p q' (freed + count) total
ProducerOk-free waiting q q' freed count total same le ok = le
ProducerOk-free (storing ctrl wrpos ev) q q' freed count total same le ok =
    (ok.0, omega (arith, ok.1), ap (λ l. get_or l wrpos blank) (sym same) ∙ ok.2)
