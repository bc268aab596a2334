-- ===== src/Lifecycle/Rounds.antt =====
-- What each piece of lifecycle_handler_fn() and lifecycle_sync() does with a control word without
-- the overflow bit (sys/io/io.c).
use sneks.Base.{ℕ, ◌+◌, ◌-◌, ◌%◌, ◌/◌, ◌^◌, ◌≤◌, ◌<◌, true, false, ◌≡◌, arith, ◌==◌, get_or, set}
use sneks.Lifecycle.{
  Queue, Body, blank, decode, handler_write, handler_commit, sync_read, sync_commit, goes_to_dummy,
  leave, again, run, nothing, leave_sync, again_sync,
}
use sneks.Lifecycle.Control.{
  word, word-read, word-write, word-unflagged, word-advance, word-consume,
}

pub writes_room :
    (body : Body) (q : Queue) (r w : ℕ)
    → r < 128
    → w < 128
    → q.lce_ctrl ≡ word r w
    → (r == (w + 1) % 128) ≡ false
    → ((handler_write body q).0.ctrl ≡ q.lce_ctrl)
      × ((handler_write body q).0.wrpos ≡ w)
      × (goes_to_dummy q.lce_ctrl w ≡ false)
      × ((handler_write body q).1.lce_ctrl ≡ q.lce_ctrl)
      × ((handler_write body q).1.lce_queue
          ≡ set q.lce_queue w (decode body (get_or q.lce_queue w blank)))
unfolding handler_write
writes_room body q r w hr hw e room =
    ground (arith, word-read r w hw, word-write r w hw, word-unflagged r w hr hw)

pub writes_full :
    (body : Body) (q : Queue) (r w : ℕ)
    → r < 128
    → w < 128
    → q.lce_ctrl ≡ word r w
    → (r == (w + 1) % 128) ≡ true
    → goes_to_dummy (handler_write body q).0.ctrl (handler_write body q).0.wrpos ≡ true
unfolding handler_write
writes_full body q r w hr hw e full = ground (arith, word-read r w hw, word-write r w hw)

pub commit_match :
    (ctrl wrpos : ℕ) (q : Queue) (r w : ℕ)
    → r < 128
    → w < 128
    → q.lce_ctrl ≡ word r w
    → wrpos ≡ w
    → (q.lce_ctrl == ctrl) ≡ true
    → handler_commit ctrl wrpos q ≡ leave (record q { lce_ctrl = word r ((w + 1) % 128) })
unfolding handler_commit
commit_match ctrl wrpos q r w hr hw e at same =
    ground (arith, word-advance r w ((w + 1) % 128) hr hw (omega arith))

pub commit_again :
    (ctrl wrpos : ℕ) (q : Queue) (r w : ℕ)
    → r < 128
    → w < 128
    → q.lce_ctrl ≡ word r w
    → (q.lce_ctrl == ctrl) ≡ false
    → handler_commit ctrl wrpos q ≡ again q.lce_ctrl
unfolding handler_commit
commit_again ctrl wrpos q r w hr hw e differ = ground (arith, word-unflagged r w hr hw)

pub reads_nothing :
    (q : Queue) (r w : ℕ)
    → r < 128
    → w < 128
    → q.lce_ctrl ≡ word r w
    → (r == w) ≡ true
    → sync_read q ≡ nothing
unfolding sync_read
reads_nothing q r w hr hw e same =
    ground (arith, word-unflagged r w hr hw, word-read r w hw, word-write r w hw)

pub reads_run :
    (q : Queue) (freed total : ℕ)
    → freed ≤ total
    → total ≤ freed + 127
    → q.lce_ctrl ≡ word (freed % 128) (total % 128)
    → (freed % 128 == total % 128) ≡ false
    → sync_read q ≡ run q.lce_ctrl (freed % 128) (total - freed)
unfolding sync_read
reads_run q freed total le room e differ = ground (
  arith,
  word-unflagged (freed % 128) (total % 128) (omega arith) (omega arith),
  word-read (freed % 128) (total % 128) (omega arith),
  word-write (freed % 128) (total % 128) (omega arith),
)

pub sync_match :
    (ctrl first count : ℕ) (q : Queue) (r w : ℕ)
    → r < 128
    → w < 128
    → q.lce_ctrl ≡ word r w
    → ctrl / 2 ^ 10 ≡ first
    → (q.lce_ctrl == ctrl) ≡ true
    → sync_commit ctrl first count q
      ≡ leave_sync (record q { lce_ctrl = word ((first + count) % 128) w })
unfolding sync_commit
sync_match ctrl first count q r w hr hw e at same =
    ground (arith, word-consume r w ((first + count) % 128) hw)

pub sync_again :
    (ctrl first count : ℕ) (q : Queue)
    → ctrl / 2 ^ 10 ≡ first
    → (q.lce_ctrl == ctrl) ≡ false
    → sync_commit ctrl first count q ≡ again_sync q.lce_ctrl
unfolding sync_commit
sync_again ctrl first count q at differ = ground arith
