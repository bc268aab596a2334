-- ===== src/Pipe.antt =====
-- sys/pipe/pipeserv.c: pipes between a reading and a writing file, over a byte buffer from
-- elsewhere (ccan/membuf), which is a parameter here.
pub mod Fifo
mod Tests
use sneks.Base.{
  ℕ, zero, suc, ◌+◌, ◌≤◌, Bool, true, false, not, ◌&&◌, Option, none, some, List, [], ◌∷◌, ◌++◌, ℤ,
  pos, negsuc, ◌==◌, ltb, if◌then◌else◌, length, take, drop, min, ◌≡◌,
}

-- A buffer as pipeserv.c uses it, and what its documentation says of the elements: preparing space
-- and writing into it change none, `added` makes the bytes that were written into the space the
-- last elements, and `consume` takes elements from the front.
pub record Membuf (B : Type 0) : Type 0 where
  pub elems : B → List ℕ
  pub num_space : B → ℕ
  pub prepare_space : ℕ → B → B
  pub write_space : List ℕ → B → B
  pub added : ℕ → B → B
  pub consume : ℕ → B → B
  pub elems-prepare_space : (n : ℕ) (b : B) → elems (prepare_space n b) ≡ elems b
  pub elems-write_space : (xs : List ℕ) (b : B) → elems (write_space xs b) ≡ elems b
  pub elems-added :
      (xs : List ℕ) (b : B)
      → length xs ≤ num_space b
      → elems (added (length xs) (write_space xs b)) ≡ elems b ++ xs
  pub elems-consume :
      (n : ℕ) (b : B) → n ≤ length (elems b) → elems (consume n b) ≡ drop n (elems b)

-- What chrdev_notify() is told: the file and the event.
pub data Note : Type 0 where
  reader_in reader_hup writer_out : Note

-- What pipe_get_status() returns.
pub data Status : Type 0 where
  epollin epollout epollerr epollhup quiet : Status

-- `struct pipehead`: the buffer and whether each end is open; and the notifications so far.
pub record Pipe (B : Type 0) : Type 0 where
  pub buf : B
  pub has_reader : Bool
  pub has_writer : Bool
  pub notes : List Note

abbrev pub ewouldblock : ℤ
ewouldblock = negsuc 10

abbrev pub epipe : ℤ
epipe = negsuc 31

module _ {B : Type 0} (m : Membuf B) where
  abbrev pub is_full : B → Bool
  is_full b = m.num_space b == 0

  abbrev pub is_empty : B → Bool
  is_empty b = length (m.elems b) == 0

  -- pipe_write() of a file without a position: its result and the pipe.
  unfoldable pub pipe_write : List ℕ → Pipe B → ℤ × Pipe B
  pipe_write bytes p =
      let ready = m.prepare_space (length bytes) p.buf in
      let written = min (length bytes) (m.num_space ready) in
      if not p.has_reader
      then (epipe, p)
      else if length bytes == 0
      then (pos 0, p)
      else if is_full ready
      then (ewouldblock, record p { buf = ready })
      else (
        pos written,
        record p {
          buf = m.write_space (take written bytes) ready;
          notes = if is_empty ready then p.notes ++ (reader_in ∷ []) else p.notes;
        },
      )

  -- pipe_read(): its result, the bytes and the pipe.
  unfoldable pub pipe_read : ℕ → Pipe B → ℤ × List ℕ × Pipe B
  pipe_read count p =
      let ready = m.prepare_space 1 p.buf in
      let got = min count (length (m.elems ready)) in
      if is_empty p.buf then (if p.has_writer then ewouldblock else pos 0, [], p) else (
        pos got,
        take got (m.elems ready),
        record p {
          buf = ready;
          notes =
              if p.has_writer && not (got == 0) && is_full ready
              then p.notes ++ (writer_out ∷ [])
              else p.notes;
        },
      )

  -- pipe_confirm() of the writing and of the reading file.
  unfoldable pub pipe_confirm : Bool → ℕ → Pipe B → Pipe B
  pipe_confirm true count p = record p { buf = m.added count p.buf }
  pipe_confirm false count p = record p { buf = m.consume count p.buf }

  -- pipe_close() of the writing or of the reading file.
  unfoldable pub pipe_close : Bool → Pipe B → Pipe B
  pipe_close true p = record p {
    has_writer = false;
    notes = if p.has_reader then p.notes ++ (reader_hup ∷ []) else p.notes;
  }
  pipe_close false p = record p { has_reader = false }

  -- pipe_get_status() of the reading file, and of the writing file, which prepares space.
  unfoldable pub reader_status : Pipe B → Status
  reader_status p =
      if not (is_empty p.buf) then epollin else if not p.has_writer then epollhup else quiet

  unfoldable pub writer_status : Pipe B → Status × Pipe B
  writer_status p =
      let ready = m.prepare_space 1 p.buf in
      if not p.has_reader
      then (epollerr, p)
      else (if is_full ready then quiet else epollout, record p { buf = ready })
