-- ===== src/Signal/Tests.antt =====
-- Tests and instances of the theorems on root/sig.c.
use sneks.Base.{
  ℕ, ◌+◌, ◌-◌, ◌^◌, test_bit-zero, ◌<◌, ◌≡◌, refl, ◌≢◌, ◌↔◌, pos, true, false, not, ◌&&◌, ◌||◌, xor,
  none, some, [], ◌∷◌, arith, test_bit, find_first, ◌==◌,
}
use sneks.Signal.{
  Process, State, done, Answers, zombify, raise_no_reply, sig_send, sig_default, sig_deliver,
  cld_killed,
}
use sneks.Signal.Laws.{NewPending, queues, sig_send_pending}
use sneks.Signal.Sets.{sigset, sigset_on, modify, unmask, trigger}
use sneks.Signal.Sets.Changes.{IsValid, changed}
use sneks.Signal.Sets.Mask.{sigset_mask}
use sneks.Signal.Sets.Disposition.{sigset_ign}
use sneks.Signal.Sets.Take.{visible, sigset_take_resumes}
use sneks.Signal.Kill.{Uids, Sender, ok, eperm, may_signal, kill}
use sneks.Signal.Kill.Permission.{IsPermitted, kill_result}

abbrev answers : Answers
answers = record { allocate_thread = some 700; thread_control = true; breath_of_life = true }

-- What process_ctor() of root/uapi.c sets up.
abbrev fresh : Process
fresh = record {
  ign_set = 0;
  dfl_set = 2 ^ 64 - 1;
  mask_set = 0;
  pending_set = 0;
  saved_mask_set = 0;
  saved_mask = false;
  sighelper_tid = none;
  signo = 0;
  status = 0;
  code = 0;
}

abbrev at : Process → State
at p = record { process = p; calls = [] }

-- SIGUSR1 (10) and SIGUSR2 (12) caught, SIGTERM (15) at its default; 10, 12 and 15 blocked, and
-- pending.
abbrev blocked : Process
blocked = record fresh {
  dfl_set = 2 ^ 64 - 1 - 2 ^ 9 - 2 ^ 11;
  mask_set = 2 ^ 9 + 2 ^ 11 + 2 ^ 14;
  pending_set = 2 ^ 9 + 2 ^ 11 + 2 ^ 14;
}

-- Everything caught, signals 32 and 40 pending.
abbrev caught : Process
caught = record fresh { dfl_set = 0; pending_set = 2 ^ 31 + 2 ^ 39 }

-- Unblocking all three: SIGTERM kills, the others are queued for the caller.
unblock_all :
    sigset answers (at blocked) 0 2 0 0
    ≡ done (
      2 ^ 9 + 2 ^ 11 + 2 ^ 14,
      record {
        process = record blocked {
          mask_set = 0;
          pending_set = 2 ^ 9 + 2 ^ 11;
          code = 2;
          signo = 15;
        };
        calls = raise_no_reply ∷ (zombify ∷ []);
      },
    )
unfolding sigset sigset_on modify unmask trigger sig_send sig_deliver sig_default find_first
unblock_all = refl

blocked-IsValid : IsValid blocked
blocked-IsValid = record {
  ign_word = omega arith;
  dfl_word = omega arith;
  mask_word = omega arith;
  pending_word = omega arith;
  apart = λ j h b. ground (arith, test_bit-zero j);
}

caught-IsValid : IsValid caught
caught-IsValid = record {
  ign_word = omega arith;
  dfl_word = omega arith;
  mask_word = omega arith;
  pending_word = omega arith;
  apart = λ j h b. ground (arith, test_bit-zero j);
}

late-IsValid : IsValid (record caught { saved_mask = true; pending_set = 2 ^ 39 })
late-IsValid = record {
  ign_word = omega arith;
  dfl_word = omega arith;
  mask_word = omega arith;
  pending_word = omega arith;
  apart = λ j h b. ground (arith, test_bit-zero j);
}

-- SIGUSR1 caught, sent by another process: queued on a new helper thread.
sig_send_pending_example :
    NewPending blocked
      (record blocked { pending_set = 2 ^ 9 + 2 ^ 11 + 2 ^ 14 })
      9
      (queues answers blocked 9 false)
      9
sig_send_pending_example =
    sig_send_pending answers (at blocked) 9 false (at blocked) 9 (unfold sig_send in refl)

abbrev unblocked : State
unblocked = record {
  process = record blocked {
    mask_set = 0;
    pending_set = 2 ^ 9 + 2 ^ 11;
    code = cld_killed;
    signo = 15;
  };
  calls = raise_no_reply ∷ (zombify ∷ []);
}

sigset_mask_example :
    (2 ^ 9 + 2 ^ 11 + 2 ^ 14 ≡ blocked.mask_set)
    × (unblocked.process.ign_set ≡ blocked.ign_set)
    × (unblocked.process.dfl_set ≡ blocked.dfl_set)
    × ((j : ℕ)
        → j < 64
        → (test_bit unblocked.process.mask_set j ≡ changed blocked.mask_set 0 0 j)
          × (test_bit unblocked.process.pending_set j
              ≡ test_bit blocked.pending_set j
                && (not (test_bit blocked.mask_set j && not (test_bit 0 j))
                    || (not (test_bit blocked.ign_set j)
                        && (test_bit 0 j || not (test_bit blocked.dfl_set j))))))
sigset_mask_example =
    sigset_mask answers (at blocked) 0 0 0 (2 ^ 9 + 2 ^ 11 + 2 ^ 14) unblocked blocked-IsValid
      (omega arith) unblock_all

-- SIGUSR1 ignored.
sigset_ign_example :
    (t : State) × (sigset answers (at blocked) 0 0 (2 ^ 9) (2 ^ 64 - 1) ≡ done (0, t))
    × IsValid t.process
    × ((j : ℕ)
        → j < 64
        → (test_bit t.process.ign_set j ≡ changed 0 (2 ^ 9) (2 ^ 64 - 1) j)
          × (test_bit t.process.dfl_set j
              ≡ test_bit blocked.dfl_set j
                && not (xor (test_bit 0 j) (changed 0 (2 ^ 9) (2 ^ 64 - 1) j))))
sigset_ign_example =
    sigset_ign answers (at blocked) 0 (2 ^ 9) (2 ^ 64 - 1) blocked-IsValid (omega arith)

abbrev suspended : Process
suspended = record caught { saved_mask = true; saved_mask_set = 2 ^ 39 }

suspended-IsValid : IsValid suspended
suspended-IsValid = record {
  ign_word = omega arith;
  dfl_word = omega arith;
  mask_word = omega arith;
  pending_word = omega arith;
  apart = λ j h b. ground (arith, test_bit-zero j);
}

sigset_take_resumes_example :
    (t : State) × (sigset answers (at suspended) 0 4 0 0 ≡ done (2 ^ 31, t))
    × (t.process.saved_mask ≡ false)
    × (t.process.mask_set ≡ 2 ^ 39)
    × ((j : ℕ)
        → j < 64
        → (j < 31 → test_bit (visible suspended) j ≡ false)
          × (test_bit t.process.pending_set j
              ≡ test_bit suspended.pending_set j
                && ((test_bit 0 j || test_bit 0 j) || not (31 == j))))
unfolding find_first
sigset_take_resumes_example =
    sigset_take_resumes answers (at suspended) 0 0 0 31 suspended-IsValid refl refl (omega arith)

abbrev user : ℕ → Sender
user n = record {
  pid = 20;
  is_systask = false;
  is_vm = false;
  uids = record { real_uid = n; eff_uid = n; saved_uid = n };
}

abbrev root_uids : Uids
root_uids = record { real_uid = 0; eff_uid = 0; saved_uid = 0 }

kill_result_example :
    ((eperm ≡ eperm) ↔ ¬ IsPermitted (user 5) root_uids)
    × (eperm ≢ ok → some (at fresh) ≡ some (at fresh))
kill_result_example =
    kill_result answers true (user 5) 1 root_uids (at fresh) (pos 9) eperm (some (at fresh))
      (unfold kill may_signal in refl)
