-- ===== src/Processes/Calls.antt =====
-- root/uapi.c: PF_WAIT_ANY and `waitany_hash`, through exits, waits and lost replies.
use sneks.Base.{
  ℕ, ◌≡◌, Bool, Option, none, some, List, [], ◌∷◌, Ends, abort, returns, arith, Bool-cases, inl,
  inr, leb,
}
use sneks.Processes.{Root}
use sneks.Processes.Waiting.{
  uapi_exit, IdType, p_all, p_pid, other, give_dead, wait_pid, wait_all, wait_type, uapi_wait,
}
use mathlib.Core.Path.{subst}
use sneks.Processes.Waiters.{
  has_waiter-append, FlagsRight, get_process-keeps, Right, exit_of-FlagsRight,
}

-- An operation on the process table: an exit, a wait, and the failure of the reply to a wait,
-- which drops the confirmation.
pub data Call (T : Type 0) : Type 0 where
  exits : (status pid : ℕ) → Call T
  waits : IdType → (id : ℕ) (nohang : Bool) (sender : T) → Call T
  reply_lost : Call T

module _ {T : Type 0} (pidof : T → ℕ) where
  module _ (listens : T → Bool) where
    wait_pid-FlagsRight :
        (nohang : Bool) (sender : T) (o : Option ℕ) (s : Root T)
        → FlagsRight pidof s
        → FlagsRight pidof (wait_pid pidof listens nohang sender (o, s)).1
    unfolding wait_pid give_dead
    wait_pid-FlagsRight nohang sender none s right q = right q
    wait_pid-FlagsRight nohang sender (some child) s right q = ground (arith, right q)

    wait_all-FlagsRight :
        (nohang : Bool) (sender : T) (dead : List ℕ) (s : Root T)
        → FlagsRight pidof s
        → FlagsRight pidof (wait_all pidof listens nohang sender dead s).1
    unfolding wait_all give_dead
    wait_all-FlagsRight nohang sender (d ∷ ds) s right q = right q
    wait_all-FlagsRight nohang sender [] s right q =
        ground (arith, right q, has_waiter-append pidof s.waitany sender q)

    wait_type-FlagsRight :
        (idtype : IdType) (id : ℕ) (nohang : Bool) (sender : T) (s : Root T)
        → FlagsRight pidof s
        → FlagsRight pidof (wait_type pidof listens idtype id nohang sender s).1
    unfolding wait_type
    wait_type-FlagsRight p_pid id nohang sender s right =
        wait_pid-FlagsRight nohang sender _ _ (get_process-keeps pidof id s right).0
    wait_type-FlagsRight p_all id nohang sender s right =
        wait_all-FlagsRight nohang sender (s.procs (pidof sender)).dead_list s right
    wait_type-FlagsRight other id nohang sender s right = right

    uapi_wait-FlagsRight :
        (idtype : IdType) (id : ℕ) (nohang : Bool) (sender : T) (s : Root T)
        → FlagsRight pidof s
        → FlagsRight pidof (uapi_wait pidof listens idtype id nohang sender s).1
    unfolding uapi_wait
    uapi_wait-FlagsRight idtype id nohang sender s right =
        elim (Bool-cases (leb 50000 (pidof sender))) [
          | inl system ↦ rw system right
          | inr user ↦ rw user (
              wait_type-FlagsRight idtype id nohang sender _
                (get_process-keeps pidof (pidof sender) s right).0)
        ]

    unfoldable pub serve : Call T → Root T → Ends (Root T)
    serve (exits status pid) s = uapi_exit pidof listens status pid s
    serve (waits idtype id nohang sender) s =
        returns (uapi_wait pidof listens idtype id nohang sender s).1
    serve reply_lost s = returns (record s { confirm = none })

    unfoldable pub serve_all : List (Call T) → Ends (Root T) → Ends (Root T)
    serve_all [] r = r
    serve_all (c ∷ cs) abort = abort
    serve_all (c ∷ cs) (returns s) = serve_all cs (serve c s)

    serve-FlagsRight :
        (c : Call T) (s : Root T) → FlagsRight pidof s → Right pidof listens (serve c s)
    unfolding serve uapi_exit
    serve-FlagsRight (exits status pid) s right =
        exit_of-FlagsRight pidof listens status _ _ (get_process-keeps pidof pid s right).0
    serve-FlagsRight (waits idtype id nohang sender) s right =
        uapi_wait-FlagsRight idtype id nohang sender s right
    serve-FlagsRight reply_lost s right = right

    all-Right :
        (cs : List (Call T)) (r : Ends (Root T))
        → Right pidof listens r
        → Right pidof listens (serve_all cs r)
    unfolding serve_all
    all-Right [] r right = right
    all-Right (c ∷ cs) abort right = right
    all-Right (c ∷ cs) (returns s) right = all-Right cs (serve c s) (serve-FlagsRight c s right)

    -- In every sequence of exits, waits and lost replies that ends in no assert or panic, for
    -- any set of threads that listen, PF_WAIT_ANY of a process is set exactly if `waitany_hash` has a thread
    -- of it, provided that this is so at the start.
    pub serve_all-FlagsRight :
        (cs : List (Call T)) (s t : Root T)
        → FlagsRight pidof s
        → serve_all cs (returns s) ≡ returns t
        → FlagsRight pidof t
    serve_all-FlagsRight cs s t right e =
        subst (λ (r : Ends (Root T)). Right pidof listens r) e (all-Right cs (returns s) right)
