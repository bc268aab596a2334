-- ===== src/Lifecycle/Preserved.antt =====
-- Every piece of the handler and of lifecycle_sync() keeps the queue's invariant (sys/io/io.c).
use sneks.Base.{
  ℕ, ◌+◌, ◌%◌, ◌/◌, ◌^◌, ◌<◌, false, List, [], ◌∷◌, ◌++◌, ◌≡◌, refl, sym, ap, ◌∙◌, inl, inr, arith,
  ◌==◌, Bool-cases, get_or, take, length, length-set, get_or-set_self, length-append, take-suc,
}
use sneks.Lifecycle.{LcEvent, Body, blank, event_at, leave, leave_sync, sync_commit}
use sneks.Lifecycle.Control.{word, word-read}
use sneks.Lifecycle.Rounds.{
  writes_room, writes_full, commit_match, commit_again, reads_nothing, reads_run, sync_match,
  sync_again,
}
use sneks.Lifecycle.Steps.{
  Producer, waiting, storing, outside, reading, System, arrive_at, after_round, after_sync_round,
  store_at, begin_at,
}
use sneks.Lifecycle.Order.{
  ConsumerOk, Good, full_iff, Window-set, Window-append, Safe, read_pos, write_pos,
  ConsumerOk-append, position, next_at, ProducerOk-free,
}

arrive-Good :
    (body : Body) (s : System)
    → Good s
    → (read_pos s == (write_pos s + 1) % 128) ≡ false
    → Good (arrive_at body waiting s)
arrive-Good body s g free =
    let facts =
      writes_room body s.queue (read_pos s) (write_pos s) (omega arith) (omega arith) g.control
        free in
    let less = full_iff s.freed (length s.stored) g.order g.room free in
    let slots = facts.4 in
    record {
      size = ap length slots ∙ length-set s.queue.lce_queue (write_pos s) _ ∙ g.size;
      control = facts.3 ∙ g.control;
      order = g.order;
      room = g.room;
      window = rw slots (Window-set s.queue.lce_queue s.stored s.freed _ g.window less);
      producing = (
        facts.1,
        less,
        rw slots (
            rw (facts.1)
              (get_or-set_self s.queue.lce_queue (write_pos s) _ blank (omega (arith, g.size)))),
      );
      consuming = g.consuming;
    }

pub arrive-Safe :
    (body : Body) (p : Producer) (s : System) → s.producer ≡ p → Good s → Safe (arrive_at body p s)
unfolding Safe
arrive-Safe body (storing ctrl wrpos ev) s e g = inr g
arrive-Safe body waiting s e g = elim (Bool-cases (read_pos s == (write_pos s + 1) % 128)) [
  | inl full ↦ inl (
      ground (
        arith,
        writes_full body s.queue (read_pos s) (write_pos s) (omega arith) (omega arith) g.control
            full,
      ))
  | inr free ↦ inr (arrive-Good body s g free)
]

stored-Good :
    (wrpos : ℕ) (ev : LcEvent) (s : System)
    → Good s
    → (wrpos ≡ write_pos s)
      × (length s.stored < s.freed + 127)
      × (get_or s.queue.lce_queue wrpos blank ≡ ev)
    → Good (
        after_round wrpos ev
          (leave (record (s.queue) { lce_ctrl = word (read_pos s) ((write_pos s + 1) % 128) }))
          s)
stored-Good wrpos ev s g sent =
    let grown = length-append s.stored (ev ∷ []) in
    record {
      size = g.size;
      control = ap (λ (t : ℕ). word (read_pos s) t) (omega (arith, grown));
      order = omega (arith, grown, g.order);
      room = omega (arith, grown, sent.1);
      window =
          Window-append s.queue.lce_queue s.stored s.freed ev g.window
            (ap (λ (t : ℕ). get_or s.queue.lce_queue t blank) (sym (sent.0)) ∙ sent.2);
      producing = omega (arith, grown, g.order);
      consuming =
          ConsumerOk-append s.consumer s.received s.stored (ev ∷ []) s.freed g.order g.consuming;
    }

pub store-Good :
    (ctrl wrpos : ℕ) (ev : LcEvent) (s : System)
    → s.producer ≡ storing ctrl wrpos ev
    → Good s
    → Good (store_at (storing ctrl wrpos ev) s)
store-Good ctrl wrpos ev s e g =
    let sent = rw e at g.producing in
    elim (Bool-cases (s.queue.lce_ctrl == ctrl)) [
      | inl same ↦
          rw
            (commit_match ctrl wrpos s.queue (read_pos s) (write_pos s) (omega arith) (omega arith)
              g.control (sent.0) same)
            (stored-Good wrpos ev s g sent)
      | inr other ↦
          rw
            (commit_again ctrl wrpos s.queue (read_pos s) (write_pos s) (omega arith) (omega arith)
              g.control other)
            (record {
              size = g.size;
              control = g.control;
              order = g.order;
              room = g.room;
              window = g.window;
              producing = sent;
              consuming = g.consuming;
            })
    ]

pub begin-Good : (s : System) → s.consumer ≡ outside → Good s → Good (begin_at outside s)
begin-Good s e g = elim (Bool-cases (read_pos s == write_pos s)) [
  | inl same ↦
      rw
        (reads_nothing s.queue (read_pos s) (write_pos s) (omega arith) (omega arith) g.control
          same)
        g
  | inr differ ↦
      rw (reads_run s.queue s.freed (length s.stored) g.order g.room g.control differ) (record {
        size = g.size;
        control = g.control;
        order = g.order;
        room = g.room;
        window = g.window;
        producing = g.producing;
        consuming = (
          omega arith,
          omega (arith, g.order),
          refl,
          ap (λ (t : ℕ). t / 2 ^ 10) g.control ∙ word-read (read_pos s) (write_pos s) (omega arith),
          rw e at g.consuming ∙ ap (λ (t : ℕ). take t s.stored) (omega arith),
        );
      })
]

pub take-Good :
    (ctrl first count i : ℕ) (s : System)
    → s.consumer ≡ reading ctrl first count i
    → i < count
    → Good s
    → Good (record s {
      consumer = reading ctrl first count (i + 1);
      received = s.received ++ (event_at s.queue (first + i) ∷ []);
    })
take-Good ctrl first count i s e less g =
    let ok = rw e at g.consuming in
    let slot =
      ap (λ (t : ℕ). get_or s.queue.lce_queue t blank) (position first i s.freed (ok.2))
      ∙ g.window (s.freed + i) (omega arith) (omega (arith, ok.1)) in
    record {
      size = g.size;
      control = g.control;
      order = g.order;
      room = g.room;
      window = g.window;
      producing = g.producing;
      consuming = (
        omega arith,
        ok.1,
        ok.2,
        ok.3,
        ap (λ (l : List LcEvent). l ++ (event_at s.queue (first + i) ∷ [])) (ok.4)
            ∙ ap (λ (x : LcEvent). take (s.freed + i) s.stored ++ (x ∷ [])) slot
            ∙ sym (take-suc (s.freed + i) s.stored blank (omega (arith, ok.1)))
            ∙ ap (λ (t : ℕ). take t s.stored) (next_at s.freed i),
      );
    }

finished-Good :
    (ctrl first count : ℕ) (s : System)
    → ConsumerOk (reading ctrl first count count) s.received s.stored s.freed
    → Good s
    → Good (
        after_sync_round first count
          (leave_sync (record (s.queue) { lce_ctrl = word ((first + count) % 128) (write_pos s) }))
          s)
finished-Good ctrl first count s ok g = record {
  size = g.size;
  control = ap (λ (t : ℕ). word t (write_pos s)) (position first count s.freed (ok.2));
  order = ok.1;
  room = omega (arith, g.room);
  window = λ i p q. g.window i (omega arith) q;
  producing =
      ProducerOk-free s.producer s.queue _ s.freed count (length s.stored) refl (ok.1) g.producing;
  consuming = ok.4;
}

pub finish-Good :
    (ctrl first count : ℕ) (s : System)
    → s.consumer ≡ reading ctrl first count count
    → Good s
    → Good (after_sync_round first count (sync_commit ctrl first count s.queue) s)
finish-Good ctrl first count s e g =
    let ok = rw e at g.consuming in
    elim (Bool-cases (s.queue.lce_ctrl == ctrl)) [
      | inl same ↦
          rw
            (sync_match ctrl first count s.queue (read_pos s) (write_pos s) (omega arith)
              (omega arith) g.control (ok.3) same)
            (finished-Good ctrl first count s ok g)
      | inr differ ↦ rw (sync_again ctrl first count s.queue (ok.3) differ) (record {
        size = g.size;
        control = g.control;
        order = g.order;
        room = g.room;
        window = g.window;
        producing = g.producing;
        consuming = (
          ok.0,
          ok.1,
          ok.2,
          ap (λ (t : ℕ). t / 2 ^ 10) g.control
              ∙ word-read (read_pos s) (write_pos s) (omega arith)
              ∙ sym (ok.2),
          ok.4,
        );
      })
    ]
