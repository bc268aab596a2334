-- ===== src/Rollback/Outcomes.antt =====
-- Sequences of operations of a server that uses lib/rollback.c as its header asks.
use sneks.Base.{
  ℕ, true, false, Option, none, some, List, [], ◌∷◌, ◌++◌, ◌≡◌, refl, sym, ap, ◌∙◌, arith,
}
use mathlib.Core.List.{append-nil, append_assoc}
use sneks.Rollback.{
  Callback, Act, confirmed, rolled_back, Thread, set_rollback, set_confirm, sync_confirm,
  check_rollback,
}

-- The reply reaches the client, or does not, or the next receive fails after a good reply.
pub data Reply : Type 0 where
  delivered send_failed receive_failed : Reply

-- An operation with a rollback handler, a confirm handler if `confirm` has one, and its reply.
pub record Operation : Type 0 where
  pub sender : ℕ
  pub tag : ℕ
  pub rollback : Callback
  pub confirm : Option Callback
  pub reply : Reply

abbrev pub after_reply : Reply → (sender tag : ℕ) → Thread → Thread
after_reply delivered sender tag t = (check_rollback false false sender tag t).1
after_reply send_failed sender tag t = (check_rollback true false sender tag t).1
after_reply receive_failed sender tag t = (check_rollback true true sender tag t).1

unfoldable pub serve : Operation → Thread → Thread
serve op t = after_reply op.reply op.sender op.tag (
    set_rollback (some op.rollback) op.sender op.tag
      (set_confirm op.confirm op.sender op.tag (sync_confirm t)))

unfoldable pub serve_all : List Operation → Thread → Thread
serve_all [] t = t
serve_all (op ∷ ops) t = serve_all ops (serve op t)

abbrev pub confirmation : Option Callback → List Act
confirmation none = []
confirmation (some cb) = confirmed cb ∷ []

-- What is to happen for an operation.
abbrev pub due : Reply → Operation → List Act
due delivered op = confirmation op.confirm
due send_failed op = rolled_back op.rollback ∷ []
due receive_failed op = confirmation op.confirm

abbrev pub all_due : List Operation → List Act
all_due [] = []
all_due (op ∷ ops) = due op.reply op ++ all_due ops

-- The calls made, and the confirmation that the next sync_confirm() makes.
abbrev pub settled : Thread → List Act
settled t = (sync_confirm t).acts

-- A thread that has set both handlers for an operation.
abbrev prepared : (sender tag : ℕ) → Callback → Option Callback → List Act → Thread
prepared sender tag r c acts = record {
  context = some (record { sender = sender; tag = tag; r = some r; c = c });
  acts = acts;
}

settled-reply :
    (reply : Reply) (sender tag : ℕ) (r : Callback) (c : Option Callback) (acts : List Act)
    → settled (after_reply reply sender tag (prepared sender tag r c acts))
      ≡ acts
        ++ due reply
            (record { sender = sender; tag = tag; rollback = r; confirm = c; reply = reply })
unfolding check_rollback sync_confirm
settled-reply delivered sender tag r none acts = sym (append-nil acts)
settled-reply delivered sender tag r (some cb) acts = refl
settled-reply send_failed sender tag r none acts = ground arith
settled-reply send_failed sender tag r (some cb) acts = ground arith
settled-reply receive_failed sender tag r none acts = sym (append-nil acts)
settled-reply receive_failed sender tag r (some cb) acts = refl

serve-prepared :
    (op : Operation) (t : Thread)
    → serve op t
      ≡ after_reply op.reply op.sender op.tag
          (prepared op.sender op.tag op.rollback op.confirm (sync_confirm t).acts)
unfolding serve set_rollback set_confirm
serve-prepared op t = refl

settled-serve : (op : Operation) (t : Thread) → settled (serve op t) ≡ settled t ++ due op.reply op
settled-serve op t =
    ap settled (serve-prepared op t)
    ∙ settled-reply op.reply op.sender op.tag op.rollback op.confirm (sync_confirm t).acts

-- Operations that each call sync_confirm(), set a rollback and set or clear the confirmation: once
-- the next sync_confirm() has run, exactly these calls have been made in addition, in the order of
-- the operations: the rollback of each whose reply failed, and the confirmation, if any, of each
-- other one.
pub serve_all-settled :
    (ops : List Operation) (t : Thread) → settled (serve_all ops t) ≡ settled t ++ all_due ops
unfolding serve_all
serve_all-settled [] t = sym (append-nil (settled t))
serve_all-settled (op ∷ ops) t =
    serve_all-settled ops (serve op t)
    ∙ ap (λ l. l ++ all_due ops) (settled-serve op t)
    ∙ append_assoc (settled t) (due op.reply op) (all_due ops)

no_error : (sender tag : ℕ) (t : Thread) → after_reply delivered sender tag t ≡ t
unfolding check_rollback
no_error sender tag t = refl

stale-reply :
    (sender tag : ℕ) (r : Callback) (c : Option Callback) (acts : List Act)
    → (check_rollback true false sender tag (sync_confirm (prepared sender tag r c acts))).1.acts
      ≡ acts ++ (confirmation c ++ (rolled_back r ∷ []))
unfolding check_rollback sync_confirm
stale-reply sender tag r none acts = ground arith
stale-reply sender tag r (some cb) acts =
    let added = acts ++ (confirmed cb ∷ []) in
    let pops : (check_rollback true false sender tag
          (sync_confirm (prepared sender tag r (some cb) acts))).1.acts
        ≡ added ++ (rolled_back r ∷ []) =
      ground arith in
    pops ∙ append_assoc acts (confirmed cb ∷ []) (rolled_back r ∷ [])

-- A rollback whose operation got its reply stays set. When the same client repeats the request
-- with an operation that sets no handlers, and the reply to that fails, the old rollback runs.
pub stale_rollback_runs :
    (op : Operation) (t : Thread)
    → op.reply ≡ delivered
    → (check_rollback true false op.sender op.tag (sync_confirm (serve op t))).1.acts
      ≡ settled t ++ (confirmation op.confirm ++ (rolled_back op.rollback ∷ []))
stale_rollback_runs op t got =
    ap (λ u. (check_rollback true false op.sender op.tag (sync_confirm u)).1.acts)
      (serve-prepared op t
        ∙ ap
            (λ w.
              after_reply w op.sender op.tag
                (prepared op.sender op.tag op.rollback op.confirm (sync_confirm t).acts))
            got
        ∙ no_error op.sender op.tag
            (prepared op.sender op.tag op.rollback op.confirm (sync_confirm t).acts))
    ∙ stale-reply op.sender op.tag op.rollback op.confirm (sync_confirm t).acts
