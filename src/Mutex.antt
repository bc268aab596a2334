-- ===== src/Mutex.antt =====
-- lib/mtx.c: mutexes, as steps of threads and of the serializer thread between atomic operations.
pub mod Exclusion
mod Threads
mod Places
mod Handover
pub mod Exclusive
mod Asserts
pub mod Undisturbed
mod Tests
use sneks.Base.{
  ℕ, ◌+◌, ◌*◌, ◌/◌, ◌%◌, Bool, true, false, not, ◌||◌, List, [], ◌∷◌, ◌++◌, ◌==◌, if◌then◌else◌,
  update,
}

-- Where a thread is: outside, in mtx_lock() before the first or the second exchange of its loop,
-- in the call of the serializer or on its list, replied to, inside, in the call that unlocks, or
-- at an assert that does not hold.
pub data At : Type 0 where
  idle : At
  attempts : (prev : ℕ) → At
  marks : (prev : ℕ) → At
  calls_lock : At
  queued : At
  woken : At
  holding : At
  calls_unlock : At
  failed : At

-- Where the serializer is: waiting for a call, in ser_lock_op() before the first or the second
-- exchange of its loop, or in ser_unlock_op() before the exchange, with whom it replies to next.
pub data Serializer : Type 0 where
  ready : Serializer
  attempting : (sender prev : ℕ) → Serializer
  marking : (sender prev : ℕ) → Serializer
  exchanging : (target prev next : ℕ) → Serializer

-- The word and list of the mutex, the threads, and whether "unlocked from under our feet" was printed.
pub record MtxState : Type 0 where
  pub word : ℕ
  pub waits : List ℕ
  pub ser : Serializer
  pub at : ℕ → At
  pub from_under : Bool

-- `tid | LOCKED`, where the low 6 bits of a thread's ID are 0, and `tid | LOCKED | CONFLICT`.
abbrev pub locked_by : ℕ → ℕ
locked_by t = t * 64 + 1

abbrev pub conflict_by : ℕ → ℕ
conflict_by t = t * 64 + 3

-- `w & CONFLICT`.
abbrev pub is_conflict : ℕ → Bool
is_conflict w = w / 2 % 2 == 1

abbrev pub goes : ℕ → At → MtxState → MtxState
goes t p s = record s { at = update s.at t p }

abbrev pub goes_with : ℕ → At → ℕ → MtxState → MtxState
goes_with t p w s = record s { word = w; at = update s.at t p }

unfoldable pub mtx_init : MtxState
mtx_init = record { word = 0; waits = []; ser = ready; at = λ (t : ℕ). idle; from_under = false }

unfoldable pub mtx_lock : ℕ → At → MtxState → MtxState
mtx_lock t idle s = goes t (attempts s.word) s
mtx_lock t p s = s

unfoldable pub mtx_trylock : ℕ → At → MtxState → MtxState
mtx_trylock t idle s = if s.word == 0 then goes_with t holding (locked_by t) s else s
mtx_trylock t p s = s

unfoldable pub mtx_unlock : ℕ → At → MtxState → MtxState
mtx_unlock t holding s =
    if s.word == locked_by t
    then goes_with t idle 0 s
    else if s.word == conflict_by t
    then goes t calls_unlock s
    else goes t failed s
mtx_unlock t p s = s

-- The next step of a thread in mtx_lock().
unfoldable pub resume : ℕ → At → MtxState → MtxState
resume t (attempts prev) s =
    if prev == 0
    then (if s.word == 0 then goes_with t holding (locked_by t) s else goes t (marks s.word) s)
    else goes t (marks prev) s
resume t (marks prev) s =
    if is_conflict prev
    then goes t calls_lock s
    else if s.word == prev
    then goes_with t calls_lock (prev + 2) s
    else goes t (attempts s.word) s
resume t woken s = if s.word / 64 == t then goes t holding s else goes t failed s
resume t p s = s

-- The serializer takes a call that locks.
unfoldable pub take_lock : ℕ → Serializer → At → MtxState → MtxState
take_lock t ready calls_lock s = record s { ser = attempting t s.word }
take_lock t r p s = s

-- ser_unlock_op() up to the exchange, by its list: the reply to the thread that has the lock next
-- comes before the exchange, unless more threads wait or the call is from another processor.
unfoldable pub hand_over : ℕ → (is_xcpu : Bool) → List ℕ → MtxState → MtxState
hand_over t is_xcpu [] s = record s { ser = exchanging t s.word 0; waits = [] }
hand_over t is_xcpu (w ∷ []) s =
    if is_xcpu
    then record s { ser = exchanging w s.word (conflict_by w); waits = []; at = update s.at t idle }
    else record s {
      ser = exchanging t s.word (conflict_by w);
      waits = [];
      at = update s.at w woken;
    }
hand_over t is_xcpu (w ∷ (v ∷ ws)) s = record s {
  ser = exchanging w s.word (conflict_by w);
  waits = v ∷ ws;
  at = update s.at t idle;
}

unfoldable pub ser_unlock_op : ℕ → Bool → Serializer → At → MtxState → MtxState
ser_unlock_op t is_xcpu ready calls_unlock s =
    if s.word / 64 == t then hand_over t is_xcpu s.waits s else s
ser_unlock_op t is_xcpu r p s = s

-- What a thread does when the serializer replies to it.
abbrev pub replied : At → At
replied queued = woken
replied calls_unlock = idle
replied p = p

-- The next step of the serializer.
unfoldable pub ser_fn : Serializer → MtxState → MtxState
ser_fn ready s = s
ser_fn (attempting t prev) s =
    if prev == 0
    then (if s.word == 0
        then record s { word = locked_by t; ser = ready; at = update s.at t woken }
        else record s { ser = marking t s.word })
    else record s { ser = marking t prev }
ser_fn (marking t prev) s =
    if is_conflict prev
    then record s { ser = ready; waits = s.waits ++ (t ∷ []); at = update s.at t queued }
    else if s.word == prev
    then record s {
      word = prev + 2;
      ser = ready;
      waits = s.waits ++ (t ∷ []);
      at = update s.at t queued;
    }
    else record s { ser = attempting t s.word }
ser_fn (exchanging target prev next) s = record s {
  word = next;
  ser = ready;
  at = update s.at target (replied (s.at target));
  from_under = s.from_under || not (s.word == prev);
}

-- The steps, in any order; a step that is not possible where its thread is changes nothing.
pub data Step : Type 0 where
  lock : (t : ℕ) → Step
  trylock : (t : ℕ) → Step
  unlock : (t : ℕ) → Step
  resumes : (t : ℕ) → Step
  takes_lock : (t : ℕ) → Step
  takes_unlock : (t : ℕ) → (is_xcpu : Bool) → Step
  serializes : Step

unfoldable pub take_step : Step → MtxState → MtxState
take_step (lock t) s = mtx_lock t (s.at t) s
take_step (trylock t) s = mtx_trylock t (s.at t) s
take_step (unlock t) s = mtx_unlock t (s.at t) s
take_step (resumes t) s = resume t (s.at t) s
take_step (takes_lock t) s = take_lock t s.ser (s.at t) s
take_step (takes_unlock t is_xcpu) s = ser_unlock_op t is_xcpu s.ser (s.at t) s
take_step serializes s = ser_fn s.ser s

unfoldable pub interleave : List Step → MtxState → MtxState
interleave [] s = s
interleave (a ∷ more) s = interleave more (take_step a s)
