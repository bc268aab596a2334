-- ===== src/Lifecycle/Fifo.antt =====
-- What the event queue of sys/io/io.c promises: events are processed once each, in the order of
-- their handlers, in every order of the two threads' pieces.
use sneks.Base.{
  ℕ, ◌+◌, ◌≤◌, ◌<◌, true, false, List, [], ◌∷◌, ◌++◌, ◌≡◌, ◌≢◌, refl, sym, ap, ◌∙◌, inl, inr, arith,
  ltb, Bool-cases, take, length, length-take,
}
use sneks.Lifecycle.{
  Body, event_at, handler_commit, sync_read, sync_commit, Round, Sync, SyncRound, leave, again,
  leave_sync, again_sync, assert_failed, run, nothing, lost_events, LcEvent,
}
use sneks.Lifecycle.Steps.{
  Producer, waiting, storing, Consumer, outside, aborted, reading, System, start, Move, arrive,
  store, begin_sync, take_event, finish, arrive_at, store_at, begin_at, take_at, finish_at,
  after_round, after_read, after_sync_round, step, steps,
}
use sneks.Lifecycle.Order.{Good, Safe, start-Good}
use sneks.Lifecycle.Preserved.{arrive-Safe, store-Good, begin-Good, take-Good, finish-Good}

after_round-dropped :
    (wrpos : ℕ) (ev : LcEvent) (r : Round) (s : System)
    → (after_round wrpos ev r s).dropped ≡ s.dropped
after_round-dropped wrpos ev (leave q) s = refl
after_round-dropped wrpos ev (again ctrl) s = refl

pub after_sync_round-kept :
    (first count : ℕ) (r : SyncRound) (s : System)
    → ((after_sync_round first count r s).dropped ≡ s.dropped)
      × ((after_sync_round first count r s).received ≡ s.received)
after_sync_round-kept first count (leave_sync q) s = (refl, refl)
after_sync_round-kept first count (again_sync ctrl) s = (refl, refl)
after_sync_round-kept first count assert_failed s = (refl, refl)

after_read-dropped : (r : Sync) (s : System) → (after_read r s).dropped ≡ s.dropped
after_read-dropped lost_events s = refl
after_read-dropped nothing s = refl
after_read-dropped (run ctrl first count) s = refl

store-Safe : (p : Producer) (s : System) → s.producer ≡ p → Safe s → Safe (store_at p s)
unfolding Safe
store-Safe waiting s e ok = ok
store-Safe (storing ctrl wrpos ev) s e (inl lost) =
    inl (after_round-dropped wrpos ev (handler_commit ctrl wrpos s.queue) s ∙ lost)
store-Safe (storing ctrl wrpos ev) s e (inr g) = inr (store-Good ctrl wrpos ev s e g)

begin-Safe : (c : Consumer) (s : System) → s.consumer ≡ c → Safe s → Safe (begin_at c s)
unfolding Safe
begin-Safe outside s e (inl lost) = inl (after_read-dropped (sync_read s.queue) s ∙ lost)
begin-Safe outside s e (inr g) = inr (begin-Good s e g)
begin-Safe aborted s e ok = ok
begin-Safe (reading ctrl first count i) s e ok = ok

take_next-Safe :
    (ctrl first count i : ℕ) (s : System)
    → s.consumer ≡ reading ctrl first count i
    → i < count
    → Safe s
    → Safe (record s {
      consumer = reading ctrl first count (i + 1);
      received = s.received ++ (event_at s.queue (first + i) ∷ []);
    })
unfolding Safe
take_next-Safe ctrl first count i s e less (inl lost) = inl lost
take_next-Safe ctrl first count i s e less (inr g) = inr (take-Good ctrl first count i s e less g)

take-Safe : (c : Consumer) (s : System) → s.consumer ≡ c → Safe s → Safe (take_at c s)
unfolding Safe
take-Safe outside s e ok = ok
take-Safe aborted s e ok = ok
take-Safe (reading ctrl first count i) s e ok = elim (Bool-cases (ltb i count)) [
  | inl less ↦ rw less (take_next-Safe ctrl first count i s e (ground arith) ok)
  | inr over ↦ rw over ok
]

finish_last-Safe :
    (ctrl first count i : ℕ) (s : System)
    → s.consumer ≡ reading ctrl first count i
    → ltb i count ≡ false
    → Safe s
    → Safe (after_sync_round first count (sync_commit ctrl first count s.queue) s)
unfolding Safe
finish_last-Safe ctrl first count i s e over (inl lost) =
    inl ((after_sync_round-kept first count (sync_commit ctrl first count s.queue) s).0 ∙ lost)
finish_last-Safe ctrl first count i s e over (inr g) =
    let ok = rw e at g.consuming in
    inr (
      finish-Good ctrl first count s
        (e ∙ ap (λ (t : ℕ). reading ctrl first count t) {x = i} {y = count} (ground (arith, ok.0)))
        g)

finish-Safe : (c : Consumer) (s : System) → s.consumer ≡ c → Safe s → Safe (finish_at c s)
unfolding Safe
finish-Safe outside s e ok = ok
finish-Safe aborted s e ok = ok
finish-Safe (reading ctrl first count i) s e ok = elim (Bool-cases (ltb i count)) [
  | inl less ↦ rw less ok
  | inr over ↦ rw over (finish_last-Safe ctrl first count i s e over ok)
]

arrive-dropped :
    (body : Body) (p : Producer) (s : System)
    → s.dropped ≡ true
    → (arrive_at body p s).dropped ≡ true
arrive-dropped body waiting s lost = ground arith
arrive-dropped body (storing ctrl wrpos ev) s lost = lost

step-Safe : (m : Move) (s : System) → Safe s → Safe (step m s)
unfolding step Safe
step-Safe (arrive body) s (inl lost) = inl (arrive-dropped body s.producer s lost)
step-Safe (arrive body) s (inr g) = arrive-Safe body s.producer s refl g
step-Safe store s ok = store-Safe s.producer s refl ok
step-Safe begin_sync s ok = begin-Safe s.consumer s refl ok
step-Safe take_event s ok = take-Safe s.consumer s refl ok
step-Safe finish s ok = finish-Safe s.consumer s refl ok

steps-Safe : (moves : List Move) (s : System) → Safe s → Safe (steps moves s)
unfolding steps
steps-Safe [] s ok = ok
steps-Safe (m ∷ moves) s ok = steps-Safe moves (step m s) (step-Safe m s ok)

Safe-Good : (s : System) → s.dropped ≡ false → Safe s → Good s
unfolding Safe
Safe-Good s none_dropped (inl lost) = absurd (ground arith)
Safe-Good s none_dropped (inr g) = g

pub prefix_length :
    (received stored : List LcEvent) (n : ℕ)
    → received ≡ take n stored
    → n ≤ length stored
    → length received ≡ n
prefix_length received stored n e le = omega (arith, ap length e, length-take n stored)

start_state-Safe : Safe start
unfolding Safe
start_state-Safe = inr start-Good

pub reached-Good :
    (moves : List Move) → (steps moves start).dropped ≡ false → Good (steps moves start)
reached-Good moves none_dropped =
    Safe-Good (steps moves start) none_dropped (steps-Safe moves start start_state-Safe)

-- What the dispatch thread has processed is a prefix of what the handler has stored, at most 127
-- events wait, and the dispatch thread has not aborted.
abbrev pub Promise : System → Type 0
Promise s =
    (s.received ≡ take (length s.received) s.stored)
    × (length s.received ≤ length s.stored)
    × (length s.stored ≤ length s.received + 127)
    × (s.consumer ≢ aborted)

not_aborted : (s : System) → Good s → s.consumer ≢ aborted
not_aborted s g e = rw e at g.consuming

prefix :
    (s : System) (n : ℕ)
    → Good s
    → s.received ≡ take n s.stored
    → s.freed ≤ n
    → n ≤ length s.stored
    → Promise s
prefix s n g e more le =
    let same = prefix_length s.received s.stored n e le in
    (
      e ∙ ap (λ (t : ℕ). take t s.stored) (sym same),
      omega (arith, same),
      omega (arith, same, g.room),
      not_aborted s g,
    )

Good-Promise : (c : Consumer) (s : System) → s.consumer ≡ c → Good s → Promise s
Good-Promise outside s e g = prefix s s.freed g (rw e at g.consuming) (omega arith) g.order
Good-Promise aborted s e g = absurd (not_aborted s g e)
Good-Promise (reading ctrl first count i) s e g =
    let ok = rw e at g.consuming in
    prefix s (s.freed + i) g (ok.4) (omega arith) (omega (arith, ok.0, ok.1))

-- In every order of the pieces of lifecycle_handler_fn() and lifecycle_sync() in which no event
-- met a full queue, the processed events are a prefix of the stored ones, at most 127 events wait,
-- and lifecycle_sync() has not aborted.
pub events_in_order :
    (moves : List Move) → (steps moves start).dropped ≡ false → Promise (steps moves start)
events_in_order moves none_dropped =
    let s = steps moves start in Good-Promise s.consumer s refl (reached-Good moves none_dropped)
