-- ===== src/Pipe/Fifo.antt =====
-- A pipe of sys/pipe/pipeserv.c delivers the bytes that were written, in order and once each, also
-- when replies are lost.
use sneks.Base.{
  ◌<◌, ◌⊎◌, ◌-◌, ℕ, zero, suc, ◌≤◌, Bool, true, false, not, ◌&&◌, List, [], ◌∷◌, ◌++◌, ℤ, pos,
  negsuc, ◌==◌, if◌then◌else◌, length, take, min, ◌≡◌, refl, sym, ap, ◌∙◌, arith, Bool-cases, inl,
  inr, length-take, take-append-drop,
}
use mathlib.Core.List.{append-nil, append_assoc}
use sneks.Pipe.{
  Membuf, Pipe, pipe_write, pipe_read, pipe_confirm, pipe_close, reader_status, epollin, epollhup,
  quiet, ewouldblock,
}

-- A call of a client, whose reply arrives, so that the server confirms it, or is lost.
pub data Call : Type 0 where
  writes : List ℕ → (arrives : Bool) → Call
  reads : ℕ → (arrives : Bool) → Call
  closes : (writer : Bool) → Call

module _ {B : Type 0} (m : Membuf B) where
  -- wr_confirm() sets up a confirmation only for a positive count.
  abbrev confirm_if : Bool → Bool → ℤ → Pipe B → Pipe B
  confirm_if writing arrives (negsuc k) p = p
  confirm_if writing arrives (pos n) p =
      if arrives && not (n == 0) then pipe_confirm m writing n p else p

  -- The bytes that a client counts as written, or gets.
  abbrev accepted : Bool → ℤ → List ℕ → List ℕ
  accepted arrives (negsuc k) bytes = []
  accepted arrives (pos n) bytes = if arrives then take n bytes else []

  -- A pipe with the bytes that its clients have written and read.
  pub record Run : Type 0 where
    pub pipe : Pipe B
    pub sent : List ℕ
    pub received : List ℕ

  abbrev pub call : Call → Run → Run
  call (writes bytes arrives) r =
      let w = pipe_write m bytes r.pipe in
      record r {
        pipe = confirm_if true arrives (w.0) (w.1);
        sent = r.sent ++ accepted arrives (w.0) bytes;
      }
  call (reads count arrives) r =
      let g = pipe_read m count r.pipe in
      record r {
        pipe = confirm_if false arrives (g.0) (g.2);
        received = r.received ++ (if arrives then g.1 else []);
      }
  call (closes writer) r = record r { pipe = pipe_close m writer r.pipe }

  unfoldable pub calls : List Call → Run → Run
  calls [] r = r
  calls (c ∷ cs) r = calls cs (call c r)

  -- What was sent is what was received and what is in the buffer.
  abbrev pub Kept : Run → Type 0
  Kept r = r.sent ≡ r.received ++ m.elems r.pipe.buf

  nothing_kept : (arrives : Bool) (xs : List ℕ) → xs ++ (if arrives then [] else []) ≡ xs
  nothing_kept true xs = append-nil xs
  nothing_kept false xs = append-nil xs

  taken_length : (n : ℕ) (xs : List ℕ) → n ≤ length xs → length (take n xs) ≡ n
  taken_length n xs h = omega (arith, length-take n xs)

  stored_elems :
      (n : ℕ) (xs : List ℕ) (b : B)
      → n ≤ length xs
      → n ≤ m.num_space b
      → m.elems (m.added n (m.write_space (take n xs) b)) ≡ m.elems b ++ take n xs
  stored_elems n xs b h room =
      ap (λ (k : ℕ). m.elems (m.added k (m.write_space (take n xs) b))) (sym (taken_length n xs h))
      ∙ m.elems-added (take n xs) b (omega (arith, taken_length n xs h))

  -- The branch of pipe_write() that accepts bytes.
  accepts :
      (bytes : List ℕ) (arrives : Bool) (b : B)
      → (length bytes == 0) ≡ false
      → (m.num_space b == 0) ≡ false
      → m.elems (
          if arrives && not (min (length bytes) (m.num_space b) == 0)
          then m.added
              (min (length bytes) (m.num_space b))
              (m.write_space (take (min (length bytes) (m.num_space b)) bytes) b)
          else m.write_space (take (min (length bytes) (m.num_space b)) bytes) b)
        ≡ m.elems b ++ (if arrives then take (min (length bytes) (m.num_space b)) bytes else [])
  accepts bytes true b some_bytes space =
      let positive : (min (length bytes) (m.num_space b) == 0) ≡ false = ground arith in
      rw positive
        (stored_elems (min (length bytes) (m.num_space b)) bytes b (omega arith) (omega arith))
  accepts bytes false b some_bytes space = m.elems-write_space _ b ∙ sym (append-nil (m.elems b))

  buf_if : (c : Bool) (p q : Pipe B) → (if c then p else q).buf ≡ (if c then p.buf else q.buf)
  buf_if true p q = refl
  buf_if false p q = refl

  no_bytes :
      (arrives : Bool) (q q' : Pipe B)
      → m.elems (if arrives && false then q else q').buf
        ≡ m.elems q'.buf ++ (if arrives then [] else [])
  no_bytes true q q' = sym (append-nil (m.elems q'.buf))
  no_bytes false q q' = sym (append-nil (m.elems q'.buf))

  write_contents :
      (bytes : List ℕ) (arrives : Bool) (p : Pipe B)
      → m.elems (confirm_if true arrives (pipe_write m bytes p).0 (pipe_write m bytes p).1).buf
        ≡ m.elems p.buf ++ accepted arrives (pipe_write m bytes p).0 bytes
  unfolding pipe_write pipe_confirm
  write_contents bytes arrives p = elim (Bool-cases p.has_reader) [
    | inr no_reader ↦ rw no_reader (sym (append-nil (m.elems p.buf)))
    | inl reader ↦ rw reader (elim (Bool-cases (length bytes == 0)) [
      | inl empty ↦ rw empty (no_bytes arrives _ _)
      | inr some_bytes ↦
          rw some_bytes
            (elim (Bool-cases (m.num_space (m.prepare_space (length bytes) p.buf) == 0)) [
              | inl full ↦
                  rw full
                    (m.elems-prepare_space (length bytes) p.buf ∙ sym (append-nil (m.elems p.buf)))
              | inr space ↦ rw space (
                  let ready = m.prepare_space (length bytes) p.buf in
                  ap m.elems
                    (buf_if (arrives && not (min (length bytes) (m.num_space ready) == 0)) _ _)
                  ∙ accepts bytes arrives ready some_bytes space
                  ∙ ap
                      (λ (l : List ℕ).
                        l
                        ++ (if arrives
                            then take (min (length bytes) (m.num_space ready)) bytes
                            else []))
                      (m.elems-prepare_space (length bytes) p.buf))
            ])
    ])
  ]

  -- The branch of pipe_read() that gives bytes.
  gives :
      (got : ℕ) (arrives : Bool) (b : B)
      → got ≤ length (m.elems b)
      → m.elems b
        ≡ (if arrives then take got (m.elems b) else [])
          ++ m.elems (if arrives && not (got == 0) then m.consume got b else b)
  gives zero true b h = refl
  gives (suc got) true b h =
      let positive : (suc got == 0) ≡ false = ground arith in
      rw positive (
        sym (take-append-drop (suc got) (m.elems b))
        ∙ ap (λ (l : List ℕ). take (suc got) (m.elems b) ++ l)
            (sym (m.elems-consume (suc got) b h)))
  gives got false b h = refl

  no_bytes_read :
      (arrives : Bool) (q q' : Pipe B)
      → m.elems q'.buf
        ≡ (if arrives then [] else []) ++ m.elems (if arrives && false then q else q').buf
  no_bytes_read true q q' = refl
  no_bytes_read false q q' = refl

  nothing_read : (arrives : Bool) (b : B) → m.elems b ≡ (if arrives then [] else []) ++ m.elems b
  nothing_read true b = refl
  nothing_read false b = refl

  read_contents :
      (count : ℕ) (arrives : Bool) (p : Pipe B)
      → m.elems p.buf
        ≡ (if arrives then (pipe_read m count p).1 else [])
          ++ m.elems (confirm_if false arrives (pipe_read m count p).0 (pipe_read m count p).2).buf
  unfolding pipe_read pipe_confirm
  read_contents count arrives p = elim (Bool-cases (length (m.elems p.buf) == 0)) [
    | inl empty ↦ rw empty (elim (Bool-cases p.has_writer) [
      | inl writer ↦ rw writer (nothing_read arrives p.buf)
      | inr no_writer ↦ rw no_writer (no_bytes_read arrives _ _)
    ])
    | inr some_bytes ↦ rw some_bytes (
        let ready = m.prepare_space 1 p.buf in
        let got = min count (length (m.elems ready)) in
        sym (m.elems-prepare_space 1 p.buf)
        ∙ gives got arrives ready (omega arith)
        ∙ ap (λ (b : B). (if arrives then take got (m.elems ready) else []) ++ m.elems b)
            (sym (buf_if (arrives && not (got == 0)) _ _)))
  ]

  close_contents : (writer : Bool) (p : Pipe B) → (pipe_close m writer p).buf ≡ p.buf
  unfolding pipe_close
  close_contents true p = refl
  close_contents false p = refl

  call-Kept : (c : Call) (r : Run) → Kept r → Kept (call c r)
  call-Kept (writes bytes arrives) r kept =
      ap (λ (l : List ℕ). l ++ accepted arrives (pipe_write m bytes r.pipe).0 bytes) kept
      ∙ append_assoc r.received (m.elems r.pipe.buf)
          (accepted arrives (pipe_write m bytes r.pipe).0 bytes)
      ∙ ap (λ (l : List ℕ). r.received ++ l) (sym (write_contents bytes arrives r.pipe))
  call-Kept (reads count arrives) r kept =
      kept
      ∙ ap (λ (l : List ℕ). r.received ++ l) (read_contents count arrives r.pipe)
      ∙ sym (
          append_assoc r.received (if arrives then (pipe_read m count r.pipe).1 else []) (
            m.elems
              (confirm_if false arrives (pipe_read m count r.pipe).0
                (pipe_read m count r.pipe).2).buf))
  call-Kept (closes writer) r kept =
      kept ∙ ap (λ (b : B). r.received ++ m.elems b) (sym (close_contents writer r.pipe))

  -- In every sequence of writes, reads and closings, of whose replies any may be lost, the bytes
  -- that the writers count as written are those that the readers got, in order and once each,
  -- followed by what is in the buffer, provided that this is so at the start.
  pub calls-Kept : (cs : List Call) (r : Run) → Kept r → Kept (calls cs r)
  unfolding calls
  calls-Kept [] r kept = kept
  calls-Kept (c ∷ cs) r kept = calls-Kept cs (call c r) (call-Kept c r kept)

  read_positive : (count n : ℕ) → 0 < count → (n == 0) ≡ false → min count n ≡ suc (min count n - 1)
  read_positive count n a b = ground arith

  -- A poll of the reading file reports one of three things, and a pipe_read() of a positive count
  -- then does what it says: EPOLLIN comes with a positive result, EPOLLHUP with the end of the
  -- file, and no event with EWOULDBLOCK.
  pub reader_status-pipe_read :
      (count : ℕ) (p : Pipe B)
      → 0 < count
      → ((reader_status m p ≡ epollin) × ((n : ℕ) × ((pipe_read m count p).0 ≡ pos (suc n))))
        ⊎ (((reader_status m p ≡ epollhup) × ((pipe_read m count p).0 ≡ pos 0))
            ⊎ ((reader_status m p ≡ quiet) × ((pipe_read m count p).0 ≡ ewouldblock)))
  unfolding pipe_read reader_status
  reader_status-pipe_read count p positive = elim (Bool-cases (length (m.elems p.buf) == 0)) [
    | inr some_bytes ↦ inl (
        rw some_bytes (
          refl,
          (
            _,
            ap pos (
                read_positive count (length (m.elems (m.prepare_space 1 p.buf))) positive
                  (ground (arith, ap length (m.elems-prepare_space 1 p.buf)))),
          ),
        ))
    | inl empty ↦ inr (elim (Bool-cases p.has_writer) [
      | inl writer ↦ inr (rw empty (rw writer (refl, refl)))
      | inr no_writer ↦ inl (rw empty (rw no_writer (refl, refl)))
    ])
  ]
