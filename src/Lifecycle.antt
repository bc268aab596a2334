-- ===== src/Lifecycle.antt =====
-- The queue of process lifecycle events of sys/io/io.c: lifecycle_handler_fn() writes it in the
-- message thread, lifecycle_sync() reads it in the dispatch thread. Each of the two is cut at its
-- accesses of the control word, so that the other may run between the pieces.
pub mod Control
pub mod Steps
pub mod Rounds
pub mod Order
pub mod Preserved
pub mod Fifo
pub mod Drain
pub mod Overflow
mod Tests
use sneks.Base.{
  Option, none, some, ◌||◌, ltb, ℕ, zero, suc, ◌+◌, ◌-◌, ◌*◌, ◌/◌, ◌%◌, ◌^◌, bit_and, bit_or, Bool,
  true, false, not, ◌&&◌, ◌||◌, List, [], ◌∷◌, ◌==◌, if◌then◌else◌, has_bit, leb, get_or, set,
}

-- The union of `struct lc_event`.
pub data Detail : Type 0 where
  child : ℕ → Detail
  exit : (signo exitcode waitstatus : ℕ) → Detail

pub record LcEvent : Type 0 where
  pub tag : ℕ
  pub primary : ℕ
  pub detail : Detail

abbrev pub num_lc_events : ℕ
num_lc_events = 128

pub record Queue : Type 0 where
  pub lce_queue : List LcEvent
  pub lce_ctrl : ℕ

-- What a static array holds at first, and what a read out of bounds gives here.
abbrev pub blank : LcEvent
blank = record { tag = 0; primary = 0; detail = child 0 }

-- `body[0]` to `body[3]` of a message.
pub record Body : Type 0 where
  pub process : ℕ
  pub action : ℕ
  pub status : ℕ
  pub code : ℕ

-- The event that is written over `ev`: fork (0), exec (1), exit (2), or another tag.
unfoldable pub decode : Body → LcEvent → LcEvent
decode body ev =
    let tag = body.action % 256 in
    record {
      tag = tag;
      primary = body.process % 2 ^ 16;
      detail =
          if tag == 0
          then child (body.action / 256 % 2 ^ 16)
          else if tag == 2
          then exit (body.action / 256 % 2 ^ 16) body.code body.status
          else ev.detail;
    }

-- The filters that sysmsg_add_filter() gets.
unfoldable pub filters : Body → List ℕ
filters body = if body.action % 256 == 0 then body.action / 256 % 2 ^ 16 ∷ [] else []

-- The handler up to its loop: the control word it has read, its write position, and whether the
-- dispatch thread is to be poked.
pub record Written : Type 0 where
  pub ctrl : ℕ
  pub wrpos : ℕ
  pub poke : Bool
  pub added : List ℕ

abbrev pub is_flagged : ℕ → Bool
is_flagged ctrl = has_bit ctrl 20

abbrev pub is_full : ℕ → ℕ → Bool
is_full ctrl wrpos = ctrl / 2 ^ 10 == (wrpos + 1) % num_lc_events

-- Whether the event goes to `ev_dummy`.
abbrev pub goes_to_dummy : ℕ → ℕ → Bool
goes_to_dummy ctrl wrpos = is_flagged ctrl || is_full ctrl wrpos

unfoldable pub handler_write : Body → Queue → Written × Queue
handler_write body q =
    let ctrl = q.lce_ctrl in
    let wrpos = bit_and ctrl 0x3ff in
    (
      record {
        ctrl = ctrl;
        wrpos = wrpos;
        poke = body.action % 256 == 2 || (not (is_flagged ctrl) && is_full ctrl wrpos);
        added = filters body;
      },
      record {
        lce_queue =
            if goes_to_dummy ctrl wrpos
            then q.lce_queue
            else set q.lce_queue wrpos (decode body (get_or q.lce_queue wrpos blank));
        lce_ctrl =
            if is_flagged ctrl
            then ctrl
            else if is_full ctrl wrpos
            then bit_or ctrl (2 ^ 20)
            else ctrl;
      },
    )

-- One round of the handler's loop, with the control word it has seen last.
pub data Round : Type 0 where
  leave : Queue → Round
  again : ℕ → Round

unfoldable pub handler_commit : (ctrl wrpos : ℕ) → Queue → Round
handler_commit ctrl wrpos q =
    if q.lce_ctrl == ctrl
    then leave (record q {
      lce_ctrl = bit_or (bit_and ctrl (0x3ff * 2 ^ 10)) ((wrpos + 1) % num_lc_events);
    })
    else if is_flagged q.lce_ctrl
    then leave q
    else again q.lce_ctrl

-- The start of lifecycle_sync(): it aborts, has nothing to do, or runs over `count` events.
pub data Sync : Type 0 where
  lost_events nothing : Sync
  run : (ctrl first count : ℕ) → Sync

unfoldable pub sync_read : Queue → Sync
sync_read q =
    let ctrl = q.lce_ctrl in
    let first = ctrl / 2 ^ 10 in
    let last = bit_and ctrl 0x3ff in
    if is_flagged ctrl
    then lost_events
    else if first == last
    then nothing
    else run ctrl first (if leb first last then last - first else last + num_lc_events - first)

-- `lce_queue[(first + i) % NUM_LC_EVENTS]`.
abbrev pub event_at : Queue → ℕ → LcEvent
event_at q i = get_or q.lce_queue (i % num_lc_events) blank

-- One round of the loop at the end of lifecycle_sync(), with its assert.
pub data SyncRound : Type 0 where
  leave_sync : Queue → SyncRound
  again_sync : ℕ → SyncRound
  assert_failed : SyncRound

unfoldable pub sync_commit : (ctrl first count : ℕ) → Queue → SyncRound
sync_commit ctrl first count q =
    if not (ctrl / 2 ^ 10 == first)
    then assert_failed
    else if q.lce_ctrl == ctrl
    then leave_sync (record q {
      lce_ctrl = bit_or ((first + count) % num_lc_events * 2 ^ 10) (bit_and ctrl 0x3ff);
    })
    else again_sync q.lce_ctrl

-- The loop at the end of the handler, in `n` rounds at most.
unfoldable pub handler_loop : ℕ → (ctrl wrpos : ℕ) → Queue → Option Queue
handler_loop zero ctrl wrpos q = none
handler_loop (suc n) ctrl wrpos q = elim (handler_commit ctrl wrpos q) [
  | leave q' ↦ some q'
  | again ctrl' ↦ handler_loop n ctrl' wrpos q
]

-- The handler without interruption.
unfoldable pub lifecycle_handler_fn : Body → Queue → Option Queue
lifecycle_handler_fn body q =
    let after = handler_write body q in handler_loop 2 after.0.ctrl after.0.wrpos after.1
