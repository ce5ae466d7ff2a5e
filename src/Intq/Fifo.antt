-- ===== src/Intq/Fifo.antt =====
-- The interrupt queue is a first-in first-out queue of at most 63 bytes.
use algorithms_prepare.Prelude.{
  ℕ, ◌+◌, ◌-◌, ◌%◌, ◌<◌, ◌≡◌, refl, ap, Bool, false, none, some, if◌then◌else◌, ◌==◌, arith, ==_iff,
  ==-false,
}
use algorithms_prepare.Intq.{
  Intq, returns, next, intq_empty, intq_full, signal_not_full, signal_not_empty, intq_getc,
  intq_putc, intq_bufsize,
}

pub record IsValid (q : Intq) : Type 0 where
  pub head-lt : q.head < intq_bufsize
  pub tail-lt : q.tail < intq_bufsize

-- The number of bytes in the queue, and the byte at a place in it, the oldest first.
unfoldable pub count : Intq → ℕ
count q = (q.head + intq_bufsize - q.tail) % intq_bufsize

unfoldable pub item : Intq → ℕ → ℕ
item q i = q.buf ((q.tail + i) % intq_bufsize)

-- The oldest byte has been taken.
pub record Taken (q : Intq) (byte : ℕ) (q' : Intq) : Type 0 where
  pub valid : IsValid q'
  pub oldest : byte ≡ item q 0
  pub fewer : count q ≡ count q' + 1
  pub rest : (i : ℕ) → item q' i ≡ item q (i + 1)

-- A byte has been put behind the others.
pub record Put (q : Intq) (byte : ℕ) (q' : Intq) : Type 0 where
  pub valid : IsValid q'
  pub newest : item q' (count q) ≡ byte
  pub more : count q' ≡ count q + 1
  pub rest : (i : ℕ) → i < count q → item q' i ≡ item q i

-- From a valid queue that holds a byte, `intq_getc` fails no assert, also in an interrupt handler:
-- it returns the oldest byte, wakes the thread that waits for room, if any, and leaves the other
-- bytes in their order.
pub intq_getc-Taken :
    (c : Bool) (thread : ℕ) (q : Intq)
    → IsValid q
    → 0 < count q
    → (byte : ℕ) × (q' : Intq) × (intq_getc c thread q ≡ some (returns byte q' q.not_full))
      × Taken q byte q'
unfolding intq_getc signal_not_full count item
intq_getc-Taken c thread q v p =
    let some_left : intq_empty q ≡ false =
      unfold intq_empty in ground (arith, p, v.head-lt, v.tail-lt) in
    let room : intq_full (record q { tail = next q.tail }) ≡ false =
      unfold intq_full next in ground (arith, p, v.head-lt, v.tail-lt) in
    (
      q.buf q.tail,
      record q { tail = next q.tail; not_full = none },
      rw (some_left, room) refl,
      unfold next in
          record {
            valid = record { head-lt = v.head-lt; tail-lt = omega arith };
            oldest = ap q.buf (omega (arith, v.tail-lt));
            fewer = omega (arith, p, v.head-lt, v.tail-lt);
            rest = λ i. ap q.buf (omega arith);
          },
    )

-- From a valid queue of fewer than 63 bytes, `intq_putc` fails no assert, also in an interrupt
-- handler: it puts the byte behind the others, which stay in their order, and wakes the thread that
-- waits for a byte, if any.
pub intq_putc-Put :
    (c : Bool) (thread byte : ℕ) (q : Intq)
    → IsValid q
    → count q < 63
    → (q' : Intq) × (intq_putc c thread byte q ≡ some (returns byte q' q.not_empty)) × Put q byte q'
unfolding intq_putc signal_not_empty count item
intq_putc-Put c thread byte q v p =
    let room : intq_full q ≡ false =
      unfold intq_full next in ground (arith, p, v.head-lt, v.tail-lt) in
    let put : Intq = record q {
      buf = λ i. if q.head == i then byte else q.buf i;
      head = next q.head;
    } in
    let there : intq_empty put ≡ false =
      unfold intq_empty next in ground (arith, v.head-lt, v.tail-lt, p) in
    (
      record put { not_empty = none },
      rw (room, there) refl,
      unfold next in
          record {
            valid = record { head-lt = omega arith; tail-lt = v.tail-lt };
            newest =
                rw
                  ((==_iff q.head ((q.tail + count q) % intq_bufsize)).1
                    (omega (arith, v.head-lt, v.tail-lt)))
                  refl;
            more = omega (arith, p, v.head-lt, v.tail-lt);
            rest = λ i l.
                rw
                  (==-false q.head ((q.tail + i) % intq_bufsize)
                    (omega (arith, l, p, v.head-lt, v.tail-lt)))
                  refl;
          },
    )
