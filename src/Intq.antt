-- ===== src/Intq.antt =====
-- devices/intq.c of Berkeley-CS162-Operating-System/Lab/proj-pregame/src: the circular buffer of bytes
-- between kernel threads and interrupt handlers. Each round of the loops runs with interrupts off, in
-- one step; `none` is a failed assert.
mod Tests
pub mod Fifo
use algorithms_prepare.Prelude.{
  ℕ, ◌+◌, ◌%◌, Bool, true, false, not, Option, none, some, ◌>>=◌, ◌>>◌, assert, if◌then◌else◌, ◌==◌,
}

abbrev pub intq_bufsize : ℕ
intq_bufsize = 64

pub record Intq : Type 0 where
  pub not_full : Option ℕ
  pub not_empty : Option ℕ
  pub buf : ℕ → ℕ
  pub head : ℕ
  pub tail : ℕ

-- What a round of `intq_getc` or `intq_putc` ends with: the caller sleeps, or the call returns, with
-- the byte read and the thread that it has unblocked.
pub data Round : Type 0 where
  sleeps : Intq → Round
  returns : ℕ → Intq → Option ℕ → Round

unfoldable pub next : ℕ → ℕ
next pos = (pos + 1) % intq_bufsize

unfoldable pub intq_init : Intq → Intq
intq_init q = record q { not_full = none; not_empty = none; head = 0; tail = 0 }

unfoldable pub intq_empty : Intq → Bool
intq_empty q = q.head == q.tail

unfoldable pub intq_full : Intq → Bool
intq_full q = next q.head == q.tail

-- `wait` on `not_empty` and on `not_full`, by `thread`.
unfoldable pub wait_not_empty : ℕ → Intq → Option Round
wait_not_empty thread q =
    assert (intq_empty q) >> some (sleeps (record q { not_empty = some thread }))

unfoldable pub wait_not_full : ℕ → Intq → Option Round
wait_not_full thread q = assert (intq_full q) >> some (sleeps (record q { not_full = some thread }))

-- `signal` on `not_full` and on `not_empty`, and the return of the byte.
unfoldable pub signal_not_full : ℕ → Intq → Option Round
signal_not_full byte q =
    assert (not (intq_full q)) >> some (returns byte (record q { not_full = none }) q.not_full)

unfoldable pub signal_not_empty : ℕ → Intq → Option Round
signal_not_empty byte q =
    assert (not (intq_empty q)) >> some (returns byte (record q { not_empty = none }) q.not_empty)

-- A round of `intq_getc`. In an interrupt handler, `intr_context`, the queue must not be empty.
unfoldable pub intq_getc : Bool → ℕ → Intq → Option Round
intq_getc intr_context thread q =
    if intq_empty q
    then assert (not intr_context) >> wait_not_empty thread q
    else signal_not_full (q.buf q.tail) (record q { tail = next q.tail })

-- A round of `intq_putc`; it returns the byte that it has written.
unfoldable pub intq_putc : Bool → ℕ → ℕ → Intq → Option Round
intq_putc intr_context thread byte q =
    if intq_full q
    then assert (not intr_context) >> wait_not_full thread q
    else signal_not_empty byte
        (record q { buf = λ i. if q.head == i then byte else q.buf i; head = next q.head })
