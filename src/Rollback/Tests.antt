-- ===== src/Rollback/Tests.antt =====
-- Operations of a server with the handlers of lib/rollback.c.
use sneks.Base.{none, some, [], ◌∷◌, ◌++◌, ◌≡◌, refl}
use sneks.Rollback.{
  Callback, Thread, confirmed, rolled_back, set_rollback, set_confirm, sync_confirm, check_rollback,
}
use sneks.Rollback.Outcomes.{
  Operation, delivered, send_failed, serve, serve_all, settled, all_due, serve_all-settled,
}

abbrev undo : Callback
undo = record { fn = 1; param = 3; priv = 0 }

abbrev finish : Callback
finish = record { fn = 2; param = 3; priv = 0 }

abbrev good : Operation
good = record { sender = 40; tag = 7; rollback = undo; confirm = some finish; reply = delivered }

abbrev bad : Operation
bad = record { sender = 41; tag = 7; rollback = undo; confirm = some finish; reply = send_failed }

abbrev fresh : Thread
fresh = record { context = none; acts = [] }

serves_three :
    (serve_all (good ∷ bad ∷ good ∷ []) fresh).acts ≡ confirmed finish ∷ rolled_back undo ∷ []
unfolding serve_all serve set_rollback set_confirm sync_confirm check_rollback
serves_three = refl

serve_all-settled_example :
    settled (serve_all (good ∷ bad ∷ good ∷ []) fresh)
    ≡ settled fresh ++ all_due (good ∷ bad ∷ good ∷ [])
serve_all-settled_example = serve_all-settled (good ∷ bad ∷ good ∷ []) fresh
