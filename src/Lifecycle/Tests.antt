-- ===== src/Lifecycle/Tests.antt =====
-- Runs of the event queue of sys/io/io.c, and the theorems at concrete queues.
use sneks.Base.{◌-◌, List, [], ◌∷◌, ◌≡◌, refl, replicate, false, length}
use sneks.Lifecycle.{
  Body, Queue, LcEvent, child, exit, blank, decode, handler_write, handler_commit, sync_read,
  sync_commit,
}
use sneks.Lifecycle.Control.{word}
use sneks.Lifecycle.Steps.{
  Move, arrive, store, begin_sync, take_event, finish, start, step, steps, outside,
}
use sneks.Lifecycle.Fifo.{Promise, events_in_order}
use sneks.Lifecycle.Drain.{sync_moves, sync_processes_all}

-- Process 5 forks process 9; process 9 exits with status 3.
abbrev fork_body : Body
fork_body = record { process = 5; action = 2304; status = 0; code = 0 }

abbrev exit_body : Body
exit_body = record { process = 9; action = 2; status = 7; code = 3 }

abbrev fork_event : LcEvent
fork_event = record { tag = 0; primary = 5; detail = child 9 }

abbrev exit_event : LcEvent
exit_event = record { tag = 2; primary = 9; detail = exit 0 3 7 }

-- The second event comes while lifecycle_sync() runs, which then tries twice.
abbrev interrupted : List Move
interrupted =
    arrive fork_body
    ∷ store
    ∷ begin_sync
    ∷ arrive exit_body
    ∷ take_event
    ∷ store
    ∷ finish
    ∷ finish
    ∷ []

interrupted_run :
    ((steps interrupted start).received ≡ fork_event ∷ [])
    × ((steps interrupted start).stored ≡ fork_event ∷ exit_event ∷ [])
unfolding steps step handler_write handler_commit decode sync_read sync_commit
interrupted_run = (refl, refl)

interrupted_keeps : (steps interrupted start).dropped ≡ false
unfolding steps step handler_write handler_commit decode sync_read sync_commit
interrupted_keeps = refl

interrupted_idle : (steps interrupted start).consumer ≡ outside
unfolding steps step handler_write handler_commit decode sync_read sync_commit
interrupted_idle = refl

events_in_order_example : Promise (steps interrupted start)
events_in_order_example = events_in_order interrupted interrupted_keeps

sync_processes_all_example :
    (steps
      (sync_moves
        (length (steps interrupted start).stored - length (steps interrupted start).received))
      (steps interrupted start)).received
    ≡ (steps interrupted start).stored
sync_processes_all_example = sync_processes_all interrupted interrupted_keeps interrupted_idle

-- Read position 100, write position 99: all 127 slots are taken.
abbrev full_queue : Queue
full_queue = record { lce_queue = replicate 128 fork_event; lce_ctrl = word 100 99 }

abbrev flagged_queue : Queue
flagged_queue = record { lce_queue = replicate 128 fork_event; lce_ctrl = word 1124 99 }

abbrev empty_queue : Queue
empty_queue = record { lce_queue = replicate 128 blank; lce_ctrl = word 127 127 }
