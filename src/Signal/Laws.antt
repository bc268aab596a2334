-- ===== src/Signal/Laws.antt =====
-- What sig_send() of root/sig.c does to the four sets, on every branch that returns.
use sneks.Base.{
  ℕ, suc, ◌<◌, ◌≡◌, ◌≢◌, Bool, true, false, not, ◌&&◌, ◌||◌, Option, none, some, ◌∷◌, arith, ◌==◌,
  if◌then◌else◌, test_bit, test_bit-add, has_bit-eq, pred_suc,
}
use sneks.Signal.{
  Process, State, done, abort, out_of_fuel, Answers, zombify, raise_no_reply, is_deadly,
  sig_deliver, sig_default, sig_send, cld_killed,
}

abbrev pub is_some {ℓ} : {A : Type ℓ} → Option A → Bool
is_some none = false
is_some (some a) = true

-- Sending leaves the signal pending: it is blocked, or it is caught and a thread can run the handler.
abbrev pub queues : Answers → Process → ℕ → Bool → Bool
queues env p k self =
    test_bit p.mask_set k
    || (not (test_bit p.dfl_set k)
        && (not (test_bit p.ign_set k)
            && (self || (is_some p.sighelper_tid || is_some env.allocate_thread))))

abbrev pub SameSets : Process → Process → Type 0
SameSets p q =
    (q.ign_set ≡ p.ign_set)
    × (q.dfl_set ≡ p.dfl_set)
    × (q.mask_set ≡ p.mask_set)
    × (q.saved_mask_set ≡ p.saved_mask_set)
    × (q.saved_mask ≡ p.saved_mask)

-- Bit `j` of the pending set of `q`, where `q` may have gained bit `k` over `p`.
abbrev pub NewPending : Process → Process → ℕ → Bool → ℕ → Type 0
NewPending p q k queued j =
    test_bit q.pending_set j ≡ test_bit p.pending_set j || (queued && k == j)

sig_deliver-sets :
    (env : Answers) (s : State) (k : ℕ) (self : Bool) (t : State)
    → sig_deliver env s (suc k) self ≡ done t
    → SameSets s.process t.process
unfolding sig_deliver
sig_deliver-sets env s k self t e = ground arith

pub sig_send-sets :
    (env : Answers) (s : State) (k : ℕ) (self : Bool) (t : State)
    → sig_send env s (suc k) self ≡ done t
    → SameSets s.process t.process
unfolding sig_send sig_default
sig_send-sets env s k self t e = ground (arith, sig_deliver-sets env s k self t)

sig_deliver-pending :
    (env : Answers) (s : State) (k : ℕ) (self : Bool) (t : State) (j : ℕ)
    → sig_deliver env s (suc k) self ≡ done t
    → NewPending s.process t.process k
        (self || (is_some s.process.sighelper_tid || is_some env.allocate_thread))
        j
unfolding sig_deliver
sig_deliver-pending env s k self t j e =
    ground (arith, pred_suc k, test_bit-add s.process.pending_set k j)

-- Whatever branch sig_send() returns from, the pending set gains the signal exactly if it is
-- blocked, or caught with a thread at hand; and gains nothing else.
pub sig_send_pending :
    (env : Answers) (s : State) (k : ℕ) (self : Bool) (t : State) (j : ℕ)
    → sig_send env s (suc k) self ≡ done t
    → NewPending s.process t.process k (queues env s.process k self) j
unfolding sig_send sig_default
sig_send_pending env s k self t j e = ground (
  arith,
  pred_suc k,
  has_bit-eq s.process.mask_set k,
  has_bit-eq s.process.pending_set k,
  has_bit-eq s.process.dfl_set k,
  has_bit-eq s.process.ign_set k,
  test_bit-add s.process.pending_set k j,
  sig_deliver-pending env s k self t j,
)

-- A caught, default or ignored signal in range never ends in abort(), if its two dispositions
-- exclude one another, the kernel and the VM server do their part, and the signal after it is not
-- pending where the default action is to ignore it.
pub sig_send-returns :
    (env : Answers) (s : State) (k : ℕ) (self : Bool)
    → suc k < 64
    → (test_bit s.process.dfl_set k ≡ true → test_bit s.process.ign_set k ≡ false)
    → env.thread_control && env.breath_of_life ≡ true
    → (test_bit s.process.pending_set (suc k) ≡ false)
    → (sig_send env s (suc k) self ≢ abort) × (sig_send env s (suc k) self ≢ out_of_fuel)
unfolding sig_send sig_default sig_deliver
sig_send-returns env s k self small apart works next = (
  ground (
    arith,
    pred_suc k,
    has_bit-eq s.process.mask_set k,
    has_bit-eq s.process.pending_set k,
    has_bit-eq s.process.pending_set (suc k),
    has_bit-eq s.process.dfl_set k,
    has_bit-eq s.process.ign_set k,
  ),
  ground (
    arith,
    pred_suc k,
    has_bit-eq s.process.mask_set k,
    has_bit-eq s.process.pending_set k,
    has_bit-eq s.process.pending_set (suc k),
    has_bit-eq s.process.dfl_set k,
    has_bit-eq s.process.ign_set k,
  ),
)

-- The default action of a deadly signal that is neither blocked nor pending: its number and
-- CLD_KILLED are recorded, zombify() is called, and a process that signals itself gets no reply.
pub sig_send_deadly :
    (env : Answers) (s : State) (k : ℕ) (self : Bool)
    → is_deadly (suc k) ≡ true
    → test_bit s.process.mask_set k ≡ false
    → test_bit s.process.pending_set k ≡ false
    → test_bit s.process.dfl_set k ≡ true
    → test_bit s.process.ign_set k ≡ false
    → sig_send env s (suc k) self
      ≡ done (record {
        process = record s.process { code = cld_killed; signo = suc k; status = 0 };
        calls = if self then raise_no_reply ∷ (zombify ∷ s.calls) else zombify ∷ s.calls;
      })
unfolding sig_send sig_default
sig_send_deadly env s k self deadly m p d i = ground (
  arith,
  pred_suc k,
  has_bit-eq s.process.mask_set k,
  has_bit-eq s.process.pending_set k,
  has_bit-eq s.process.dfl_set k,
  has_bit-eq s.process.ign_set k,
)

-- A signal below 64 whose default is to be ignored fails an assert when the signal after it is
-- pending.
pub sig_send_aborts :
    (env : Answers) (s : State) (k : ℕ) (self : Bool)
    → suc k < 64
    → is_deadly (suc k) ≡ false
    → test_bit s.process.mask_set k ≡ false
    → test_bit s.process.pending_set k ≡ false
    → test_bit s.process.dfl_set k ≡ true
    → test_bit s.process.pending_set (suc k) ≡ true
    → sig_send env s (suc k) self ≡ abort
unfolding sig_send sig_default
sig_send_aborts env s k self small benign m p d next = ground (
  arith,
  pred_suc k,
  has_bit-eq s.process.mask_set k,
  has_bit-eq s.process.pending_set k,
  has_bit-eq s.process.pending_set (suc k),
  has_bit-eq s.process.dfl_set k,
  has_bit-eq s.process.ign_set k,
)

pub sig_send-fuel :
    (env : Answers) (s : State) (sig : ℕ) (self : Bool) → sig_send env s sig self ≢ out_of_fuel
unfolding sig_send sig_default sig_deliver
sig_send-fuel env s sig self = ground arith
