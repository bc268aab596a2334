-- ===== src/Lifecycle/Drain.antt =====
-- An uninterrupted lifecycle_sync() of sys/io/io.c processes every event that waits.
use sneks.Base.{
  ℕ, zero, suc, ◌+◌, ◌-◌, ◌%◌, ◌≤◌, true, false, List, [], ◌∷◌, ◌++◌, ◌≡◌, refl, ap, ◌∙◌, inl, inr,
  arith, ltb, ◌==◌, Bool-cases, take, length, replicate, take-length,
}
use sneks.Lifecycle.{sync_commit}
use sneks.Lifecycle.Steps.{
  Consumer, outside, aborted, reading, System, start, Move, begin_sync, take_event, finish,
  begin_at, take_at, finish_at, step, steps,
}
use sneks.Lifecycle.Order.{Good}
use sneks.Lifecycle.Preserved.{begin-Good, take-Good}
use sneks.Lifecycle.Rounds.{reads_nothing, reads_run}
use sneks.Lifecycle.Fifo.{after_sync_round-kept, reached-Good, prefix_length}

-- A lifecycle_sync() over `n` events that the message thread does not interrupt.
abbrev pub sync_moves : ℕ → List Move
sync_moves n = begin_sync ∷ (replicate n take_event ++ (finish ∷ []))

finish-received : (c : Consumer) (s : System) → (finish_at c s).received ≡ s.received
finish-received outside s = refl
finish-received aborted s = refl
finish-received (reading ctrl first count i) s = elim (Bool-cases (ltb i count)) [
  | inl less ↦ rw less refl
  | inr over ↦
      rw over ((after_sync_round-kept first count (sync_commit ctrl first count s.queue) s).1)
]

-- The events that are left, one by one.
abbrev rest : ℕ → List Move
rest n = replicate n take_event ++ (finish ∷ [])

takes_rest :
    (ctrl first count : ℕ) (n i : ℕ) (s : System)
    → s.consumer ≡ reading ctrl first count i
    → i + n ≡ count
    → Good s
    → (steps (rest n) s).received ≡ take (s.freed + count) s.stored
unfolding steps step
takes_rest ctrl first count zero i s e all g =
    let ok = rw e at g.consuming in
    finish-received s.consumer s
    ∙ ok.4
    ∙ ap (λ (t : ℕ). take (s.freed + t) s.stored) {x = i} {y = count} (omega arith)
takes_rest ctrl first count (suc n) i s e all g =
    let less : ltb i count ≡ true = ground arith in
    ap (λ c. (steps (rest n) (take_at c s)).received) e
    ∙ rw less (
        takes_rest ctrl first count n (i + 1) _ refl (omega arith)
          (take-Good ctrl first count i s e (omega arith) g))

same_position :
    (freed total : ℕ)
    → freed ≤ total
    → total ≤ freed + 127
    → (freed % 128 == total % 128) ≡ true
    → freed ≡ total
same_position freed total le room same = ground arith

runs_through :
    (s : System)
    → s.consumer ≡ outside
    → Good s
    → (steps (sync_moves (length s.stored - s.freed)) s).received ≡ s.stored
unfolding steps step
runs_through s e g = elim (Bool-cases (s.freed % 128 == length s.stored % 128)) [
  | inl same ↦
      let none = same_position s.freed (length s.stored) g.order g.room same in
      ap (λ c. (steps (rest (length s.stored - s.freed)) (begin_at c s)).received) e
      ∙ rw
          (reads_nothing s.queue (s.freed % 128) (length s.stored % 128) (omega arith) (omega arith)
            g.control same)
          (ap (λ (t : ℕ). (steps (rest t) s).received) {x = length s.stored - s.freed} {y = 0}
              (omega (arith, none))
            ∙ finish-received s.consumer s
            ∙ rw e at g.consuming
            ∙ ap (λ (t : ℕ). take t s.stored) none
            ∙ take-length s.stored)
  | inr differ ↦
      ap (λ c. (steps (rest (length s.stored - s.freed)) (begin_at c s)).received) e
      ∙ rw (reads_run s.queue s.freed (length s.stored) g.order g.room g.control differ) (
          takes_rest s.queue.lce_ctrl (s.freed % 128) (length s.stored - s.freed)
            (length s.stored - s.freed) 0 _ refl (omega arith)
            (rw (reads_run s.queue s.freed (length s.stored) g.order g.room g.control differ) at
              (begin-Good s e g))
          ∙ ap (λ (t : ℕ). take t s.stored) {x = s.freed + (length s.stored - s.freed)}
              {y = length s.stored} (omega (arith, g.order))
          ∙ take-length s.stored)
]

-- At any point at which lifecycle_sync() is not running and no event has met a full queue, a call
-- of it that is not interrupted leaves no stored event unprocessed.
pub sync_processes_all :
    (moves : List Move)
    → (steps moves start).dropped ≡ false
    → (steps moves start).consumer ≡ outside
    → (steps
        (sync_moves (length (steps moves start).stored - length (steps moves start).received))
        (steps moves start)).received
      ≡ (steps moves start).stored
sync_processes_all moves none_dropped idle =
    let s = steps moves start in
    let g = reached-Good moves none_dropped in
    ap (λ (t : ℕ). (steps (sync_moves (length s.stored - t)) s).received)
      (prefix_length s.received s.stored s.freed (rw idle at g.consuming) g.order)
    ∙ runs_through s idle g
