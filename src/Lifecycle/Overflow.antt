-- ===== src/Lifecycle/Overflow.antt =====
-- A full event queue (sys/io/io.c): the overflow bit is set by one event and lost by the next.
use sneks.Base.{ℕ, ◌+◌, ◌%◌, ◌^◌, ◌<◌, true, false, ◌≡◌, refl, arith, some, ◌==◌, get_or, set}
use sneks.Lifecycle.{
  Body, Queue, blank, decode, handler_write, handler_commit, handler_loop, lifecycle_handler_fn,
  sync_read, sync_commit, nothing, lost_events, again_sync, assert_failed,
}
use sneks.Lifecycle.Control.{
  word, word-read, word-write, word-unflagged, word-flag, word-flagged, word-forget, word-advance,
}
use sneks.Lifecycle.Rounds.{reads_nothing}

-- With a free slot, an uninterrupted handler stores the event in the slot at the write position
-- and moves that position on by one.
pub lifecycle_handler_fn_stores :
    (body : Body) (q : Queue) (r w : ℕ)
    → r < 128
    → w < 128
    → q.lce_ctrl ≡ word r w
    → (r == (w + 1) % 128) ≡ false
    → lifecycle_handler_fn body q
      ≡ some (record {
        lce_queue = set q.lce_queue w (decode body (get_or q.lce_queue w blank));
        lce_ctrl = word r ((w + 1) % 128);
      })
unfolding lifecycle_handler_fn handler_write handler_loop handler_commit
lifecycle_handler_fn_stores body q r w hr hw e room = ground (
  arith,
  word-read r w hw,
  word-write r w hw,
  word-unflagged r w hr hw,
  word-advance r w ((w + 1) % 128) hr hw (omega arith),
)

-- On a full queue, an uninterrupted handler leaves the slots alone and sets the overflow bit.
flags :
    (body : Body) (q : Queue) (r w : ℕ)
    → r < 128
    → w < 128
    → q.lce_ctrl ≡ word r w
    → (r == (w + 1) % 128) ≡ true
    → lifecycle_handler_fn body q ≡ some (record q { lce_ctrl = word (2 ^ 10 + r) w })
unfolding lifecycle_handler_fn handler_write handler_loop handler_commit
flags body q r w hr hw e full = ground (
  arith,
  word-read r w hw,
  word-write r w hw,
  word-unflagged r w hr hw,
  word-flag r w hr hw,
  word-flagged r w hr hw,
)

-- With the overflow bit set, the handler takes it away and moves the write position on.
forgets :
    (body : Body) (q : Queue) (r w : ℕ)
    → r < 128
    → w < 128
    → q.lce_ctrl ≡ word (2 ^ 10 + r) w
    → lifecycle_handler_fn body q ≡ some (record q { lce_ctrl = word r ((w + 1) % 128) })
unfolding lifecycle_handler_fn handler_write handler_loop handler_commit
forgets body q r w hr hw e = ground (
  arith,
  word-write (2 ^ 10 + r) w hw,
  word-flagged r w hr hw,
  word-forget r w ((w + 1) % 128) hr hw (omega arith),
)

reads_lost :
    (q : Queue) (r w : ℕ)
    → r < 128
    → w < 128
    → q.lce_ctrl ≡ word (2 ^ 10 + r) w
    → sync_read q ≡ lost_events
unfolding sync_read
reads_lost q r w hr hw e = ground (arith, word-flagged r w hr hw)

-- On a full queue the first event is lost and sets the overflow bit, at which lifecycle_sync()
-- would abort; a second event that comes before it takes the bit away and makes the queue look
-- empty, so that lifecycle_sync() has nothing to do and the 127 waiting events are lost as well.
pub overflow_is_forgotten :
    (fst snd : Body) (q : Queue) (r w : ℕ)
    → r < 128
    → w < 128
    → q.lce_ctrl ≡ word r w
    → (r == (w + 1) % 128) ≡ true
    → (q' : Queue) × (q'' : Queue) × (lifecycle_handler_fn fst q ≡ some q')
      × (sync_read q' ≡ lost_events)
      × (lifecycle_handler_fn snd q' ≡ some q'')
      × (sync_read q'' ≡ nothing)
overflow_is_forgotten fst snd q r w hr hw e full =
    let flagged : Queue = record q { lce_ctrl = word (2 ^ 10 + r) w } in
    let emptied : Queue = record q { lce_ctrl = word r ((w + 1) % 128) } in
    (
      flagged,
      emptied,
      flags fst q r w hr hw e full,
      reads_lost flagged r w hr hw refl,
      forgets snd flagged r w hr hw refl,
      reads_nothing emptied r ((w + 1) % 128) hr (omega arith) refl full,
    )

-- When the overflow bit is set while lifecycle_sync() runs, its compare-and-exchange fails, and
-- the assert about a single consumer fails on the control word that it has read again.
pub overflow_fails_assert :
    (q : Queue) (r w count : ℕ)
    → r < 128
    → w < 128
    → q.lce_ctrl ≡ word (2 ^ 10 + r) w
    → (sync_commit (word r w) r count q ≡ again_sync q.lce_ctrl)
      × (sync_commit q.lce_ctrl r count q ≡ assert_failed)
unfolding sync_commit
overflow_fails_assert q r w count hr hw e =
    ground (arith, word-read r w hw, word-read (2 ^ 10 + r) w hw)
