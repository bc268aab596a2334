-- ===== src/Pipe/Tests.antt =====
-- Pipes of sys/pipe/pipeserv.c over a buffer of four bytes.
use sneks.Base.{ℕ, ◌-◌, ◌≡◌, ◌++◌, refl, true, false, List, [], ◌∷◌, length, drop, ap, take}
use sneks.Pipe.{Membuf, Pipe, pipe_write, pipe_read, pipe_confirm}
use sneks.Pipe.Fifo.{Call, writes, reads, Run, calls, Kept, calls-Kept}

-- The elements, and the bytes in the space behind them.
pub record Bytes : Type 0 where
  pub held : List ℕ
  pub space : List ℕ

take_all : (xs : List ℕ) → take (length xs) xs ≡ xs
take_all [] = refl
take_all (x ∷ xs) = ap (λ l. x ∷ l) (take_all xs)

abbrev four_bytes : Membuf Bytes
four_bytes = record {
  elems = λ b. b.held;
  num_space = λ b. 4 - length b.held;
  prepare_space = λ n b. b;
  write_space = λ xs b. record b { space = xs };
  added = λ n b. record { held = b.held ++ take n b.space; space = [] };
  consume = λ n b. record b { held = drop n b.held };
  elems-prepare_space = λ n b. refl;
  elems-write_space = λ xs b. refl;
  elems-added = λ xs b room. ap (λ l. b.held ++ l) (take_all xs);
  elems-consume = λ n b inside. refl;
}

abbrev fresh : Run four_bytes
fresh = record {
  pipe = record {
    buf = record { held = []; space = [] };
    has_reader = true;
    has_writer = true;
    notes = [];
  };
  sent = [];
  received = [];
}

-- The reply to the second write and to the first read are lost.
abbrev talk : List Call
talk =
    writes (1 ∷ 2 ∷ 3 ∷ []) true
    ∷ writes (9 ∷ []) false
    ∷ reads 2 false
    ∷ reads 2 true
    ∷ writes (4 ∷ 5 ∷ 6 ∷ 7 ∷ []) true
    ∷ reads 9 true
    ∷ []

talk_received : (calls four_bytes talk fresh).received ≡ 1 ∷ 2 ∷ 3 ∷ 4 ∷ 5 ∷ 6 ∷ []
unfolding calls pipe_write pipe_read pipe_confirm
talk_received = refl

calls-Kept_example : Kept four_bytes (calls four_bytes talk fresh)
calls-Kept_example = calls-Kept four_bytes talk fresh refl

abbrev ended : Pipe Bytes
ended = record {
  buf = record { held = []; space = [] };
  has_reader = true;
  has_writer = false;
  notes = [];
}
