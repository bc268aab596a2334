-- ===== src/Mutex/Exclusion.antt =====
-- lib/mtx.c: what holds between any two steps of the mutex.
use sneks.Base.{
  ℕ, ◌+◌, ◌/◌, ◌%◌, ◌≡◌, Bool, true, false, not, ◌&&◌, ◌||◌, List, [], ◌∷◌, ◌==◌, if◌then◌else◌,
  update, arith, Bool-cases, inl, inr, ==_iff,
}
use mathlib.Core.Path.{subst}
use sneks.Mutex.{
  At, idle, attempts, marks, calls_lock, queued, woken, holding, calls_unlock, failed, Serializer,
  ready, attempting, marking, exchanging, MtxState, locked_by, conflict_by, is_conflict,
}

-- The word after the exchange that the serializer is about to make.
abbrev pub settled : ℕ → Serializer → ℕ
settled w (exchanging target prev next) = next
settled w ready = w
settled w (attempting t prev) = w
settled w (marking t prev) = w

abbrev pub is_target : Serializer → ℕ → Bool
is_target (exchanging target prev next) t = target == t
is_target ready t = false
is_target (attempting u prev) t = false
is_target (marking u prev) t = false

unfoldable pub waits_for : List ℕ → ℕ → Bool
waits_for [] t = false
waits_for (w ∷ ws) t = w == t || waits_for ws t

abbrev pub owns : ℕ → ℕ → Bool
owns e t = e / 64 == t && (e % 2 == 1)

-- What the place of a thread says of the word, the list and the serializer.
abbrev pub at_ok : (e : ℕ) → List ℕ → (ℕ → Bool) → ℕ → At → Bool
at_ok e ws target t idle = true
at_ok e ws target t (attempts prev) = true
at_ok e ws target t (marks prev) = not (prev == 0)
at_ok e ws target t calls_lock = true
at_ok e ws target t queued = if target t then e == conflict_by t else waits_for ws t
at_ok e ws target t woken = owns e t
at_ok e ws target t holding = owns e t
at_ok e ws target t calls_unlock = e == conflict_by t || target t
at_ok e ws target t failed = true

-- Nobody but the serializer changes a word with CONFLICT.
abbrev pub ser_ok : (w : ℕ) → Serializer → Bool
ser_ok w ready = true
ser_ok w (attempting t prev) = if is_conflict prev then w == prev else true
ser_ok w (marking t prev) = not (prev == 0) && (if is_conflict prev then w == prev else true)
ser_ok w (exchanging target prev next) =
    w == prev && (w % 64 == 3) && (next == 0 || (next % 64 == 3))

abbrev pub word_ok : (e : ℕ) → List ℕ → Bool
word_ok e [] = e == 0 || (e % 64 == 1) || (e % 64 == 3)
word_ok e (w ∷ ws) = e % 64 == 3

abbrev pub InvAt : Serializer → MtxState → Type 0
InvAt r s =
    ((t : ℕ) → at_ok (settled s.word r) s.waits (is_target r) t (s.at t) ≡ true)
    × (ser_ok s.word r ≡ true)
    × (word_ok (settled s.word r) s.waits ≡ true)
    × (s.from_under ≡ false)

abbrev pub Inv : MtxState → Type 0
Inv s = InvAt s.ser s

-- A change at one thread.
pub at_one :
    (P : ℕ → At → Bool) (at : ℕ → At) (t : ℕ) (p : At)
    → ((u : ℕ) → (t == u) ≡ false → P u (at u) ≡ true)
    → P t p ≡ true
    → (u : ℕ) → P u (update at t p u) ≡ true
at_one P at t p others this u = elim (Bool-cases (t == u)) [
  | inl same ↦ rw same (subst (λ (v : ℕ). P v p ≡ true) ((==_iff t u).0 same) this)
  | inr differs ↦ rw differs (others u differs)
]

pub locks-ok :
    (ws : List ℕ) (target : ℕ → Bool) (t u : ℕ) (p : At)
    → at_ok 0 ws target u p ≡ true
    → at_ok (locked_by t) ws target u p ≡ true
locks-ok ws target t u idle h = h
locks-ok ws target t u (attempts prev) h = h
locks-ok ws target t u (marks prev) h = h
locks-ok ws target t u calls_lock h = h
locks-ok ws target t u queued h = ground arith
locks-ok ws target t u woken h = ground arith
locks-ok ws target t u holding h = ground arith
locks-ok ws target t u calls_unlock h = ground arith
locks-ok ws target t u failed h = h

pub marks-ok :
    (e : ℕ) (ws : List ℕ) (target : ℕ → Bool) (u : ℕ) (p : At)
    → is_conflict e ≡ false
    → at_ok e ws target u p ≡ true
    → at_ok (e + 2) ws target u p ≡ true
marks-ok e ws target u idle c h = h
marks-ok e ws target u (attempts prev) c h = h
marks-ok e ws target u (marks prev) c h = h
marks-ok e ws target u calls_lock c h = h
marks-ok e ws target u queued c h = ground arith
marks-ok e ws target u woken c h = ground arith
marks-ok e ws target u holding c h = ground arith
marks-ok e ws target u calls_unlock c h = ground arith
marks-ok e ws target u failed c h = h

pub unlocks-ok :
    (ws : List ℕ) (target : ℕ → Bool) (t u : ℕ) (p : At)
    → (t == u) ≡ false
    → at_ok (locked_by t) ws target u p ≡ true
    → at_ok 0 ws target u p ≡ true
unlocks-ok ws target t u idle c h = h
unlocks-ok ws target t u (attempts prev) c h = h
unlocks-ok ws target t u (marks prev) c h = h
unlocks-ok ws target t u calls_lock c h = h
unlocks-ok ws target t u queued c h = ground arith
unlocks-ok ws target t u woken c h = ground arith
unlocks-ok ws target t u holding c h = ground arith
unlocks-ok ws target t u calls_unlock c h = ground arith
unlocks-ok ws target t u failed c h = h
