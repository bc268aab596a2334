-- ===== src/Lifecycle/Steps.antt =====
-- The two threads on the event queue of sys/io/io.c, and every order of their pieces.
use sneks.Base.{
  ℕ, ◌+◌, Bool, false, ◌||◌, List, [], ◌∷◌, ◌++◌, if◌then◌else◌, ltb, get_or, replicate,
}
use sneks.Lifecycle.{
  LcEvent, Queue, Body, Round, Sync, SyncRound, leave, again, leave_sync, again_sync, assert_failed,
  run, nothing, lost_events, blank, event_at, handler_write, handler_commit, sync_read, sync_commit,
  goes_to_dummy, decode,
}

-- The message thread: idle, or between its write of an event and its update of the control word.
pub data Producer : Type 0 where
  waiting : Producer
  storing : (ctrl wrpos : ℕ) → LcEvent → Producer

-- The dispatch thread: outside lifecycle_sync(), at the `i`th of its events, or aborted.
pub data Consumer : Type 0 where
  outside aborted : Consumer
  reading : (ctrl first count i : ℕ) → Consumer

-- The queue and the threads; the events whose handler has finished, those that lifecycle_sync()
-- has processed, how many slots it has given back, and whether an event went to `ev_dummy`.
pub record System : Type 0 where
  pub queue : Queue
  pub producer : Producer
  pub consumer : Consumer
  pub stored : List LcEvent
  pub received : List LcEvent
  pub freed : ℕ
  pub dropped : Bool

abbrev pub start : System
start = record {
  queue = record { lce_queue = replicate 128 blank; lce_ctrl = 0 };
  producer = waiting;
  consumer = outside;
  stored = [];
  received = [];
  freed = 0;
  dropped = false;
}

-- A message arrives; the handler tries its compare-and-exchange; lifecycle_sync() begins, takes
-- its next event, or tries its own.
pub data Move : Type 0 where
  arrive : Body → Move
  store begin_sync take_event finish : Move

abbrev pub arrive_at : Body → Producer → System → System
arrive_at body (storing ctrl wrpos ev) s = s
arrive_at body waiting s =
    let after = handler_write body s.queue in
    record s {
      queue = after.1;
      producer =
          storing after.0.ctrl after.0.wrpos
            (decode body (get_or s.queue.lce_queue after.0.wrpos blank));
      dropped = s.dropped || goes_to_dummy after.0.ctrl after.0.wrpos;
    }

abbrev pub after_round : ℕ → LcEvent → Round → System → System
after_round wrpos ev (leave q) s = record s {
  queue = q;
  producer = waiting;
  stored = s.stored ++ (ev ∷ []);
}
after_round wrpos ev (again ctrl) s = record s { producer = storing ctrl wrpos ev }

abbrev pub store_at : Producer → System → System
store_at waiting s = s
store_at (storing ctrl wrpos ev) s = after_round wrpos ev (handler_commit ctrl wrpos s.queue) s

abbrev pub after_read : Sync → System → System
after_read lost_events s = record s { consumer = aborted }
after_read nothing s = s
after_read (run ctrl first count) s = record s { consumer = reading ctrl first count 0 }

abbrev pub begin_at : Consumer → System → System
begin_at outside s = after_read (sync_read s.queue) s
begin_at aborted s = s
begin_at (reading ctrl first count i) s = s

abbrev pub take_at : Consumer → System → System
take_at outside s = s
take_at aborted s = s
take_at (reading ctrl first count i) s =
    if ltb i count
    then record s {
      consumer = reading ctrl first count (i + 1);
      received = s.received ++ (event_at s.queue (first + i) ∷ []);
    }
    else s

abbrev pub after_sync_round : (first count : ℕ) → SyncRound → System → System
after_sync_round first count (leave_sync q) s = record s {
  queue = q;
  consumer = outside;
  freed = s.freed + count;
}
after_sync_round first count (again_sync ctrl) s = record s {
  consumer = reading ctrl first count count;
}
after_sync_round first count assert_failed s = record s { consumer = aborted }

abbrev pub finish_at : Consumer → System → System
finish_at outside s = s
finish_at aborted s = s
finish_at (reading ctrl first count i) s =
    if ltb i count then s else after_sync_round first count (sync_commit ctrl first count s.queue) s

unfoldable pub step : Move → System → System
step (arrive body) s = arrive_at body s.producer s
step store s = store_at s.producer s
step begin_sync s = begin_at s.consumer s
step take_event s = take_at s.consumer s
step finish s = finish_at s.consumer s

unfoldable pub steps : List Move → System → System
steps [] s = s
steps (m ∷ moves) s = steps moves (step m s)
