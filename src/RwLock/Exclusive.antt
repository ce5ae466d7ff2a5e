-- ===== src/RwLock/Exclusive.antt =====
-- Readers and writers exclude each other, and a release leaves nobody asleep who could go on.
use algorithms_prepare.Prelude.{
  ◌+◌, ◌-◌, ◌<◌, ◌≤◌, ◌≡◌, ◌⊎◌, inl, inr, refl, ◌&&◌, ltb, ◌==◌, arith, Bool-cases,
}
use algorithms_prepare.RwLock.{
  RwLock, Signal, nobody, one_writer, all_readers, rw_lock_init, reader_round, writer_round,
  reader_again, writer_again, reader_release, reader_signal, writer_release, writer_signal, Step,
  read, write, read_again, write_again, end_read, end_write, Reachable, start, next,
}

-- At most one writer is active, and none with a reader.
pub record IsExclusive (l : RwLock) : Type 0 where
  pub one : l.aw ≤ 1
  pub alone : (l.aw ≡ 0) ⊎ (l.ar ≡ 0)

reader_round-IsExclusive : (l : RwLock) → IsExclusive l → IsExclusive (reader_round l)
unfolding reader_round
reader_round-IsExclusive l e = elim (Bool-cases (ltb 0 (l.aw + l.ww))) [
  | inl b ↦ rw b (record { one = e.one; alone = e.alone })
  | inr b ↦ rw b (record { one = e.one; alone = inl (ground (arith, b)) })
]

writer_round-IsExclusive : (l : RwLock) → IsExclusive l → IsExclusive (writer_round l)
unfolding writer_round
writer_round-IsExclusive l e = elim (Bool-cases (ltb 0 (l.ar + l.aw))) [
  | inl b ↦ rw b (record { one = e.one; alone = e.alone })
  | inr b ↦ rw b (record { one = ground (arith, b); alone = inr (ground (arith, b)) })
]

Step-IsExclusive : (l k : RwLock) → Step l k → IsExclusive l → IsExclusive k
unfolding reader_again writer_again reader_release writer_release
Step-IsExclusive l _ read e = reader_round-IsExclusive l e
Step-IsExclusive l _ write e = writer_round-IsExclusive l e
Step-IsExclusive l _ (read_again w) e =
    reader_round-IsExclusive (record l { wr = l.wr - 1 }) (record { one = e.one; alone = e.alone })
Step-IsExclusive l _ (write_again w) e =
    writer_round-IsExclusive (record l { ww = l.ww - 1 }) (record { one = e.one; alone = e.alone })
Step-IsExclusive l _ (end_read a) e = record {
  one = e.one;
  alone = elim e.alone [ inl x ↦ inl x | inr y ↦ inl (omega (arith, y, a)) ];
}
Step-IsExclusive l _ (end_write a) e = record {
  one = omega (arith, e.one);
  alone = inl (omega (arith, e.one));
}

-- In every state that threads reach, at most one writer is active, and none while a reader is.
pub reachable-IsExclusive : (l : RwLock) → Reachable l → IsExclusive l
reachable-IsExclusive _ start =
    unfold rw_lock_init in record { one = omega arith; alone = inl refl }
reachable-IsExclusive _ (next l k r s) = Step-IsExclusive l k s (reachable-IsExclusive l r)

-- Who is signalled can go on, and where nobody is, no writer waits or a reader is active still.
abbrev pub IsRight : RwLock → Signal → Type 0
IsRight l nobody = (l.ww ≡ 0) ⊎ (0 < l.ar)
IsRight l one_writer = (writer_again l).aw ≡ 1
IsRight l all_readers = (reader_again l).ar ≡ l.ar + 1

writer_can : (l : RwLock) → l.ar ≡ 0 → l.aw ≡ 0 → (writer_again l).aw ≡ 1
unfolding writer_again writer_round
writer_can l r w = ground (arith, r, w)

reader_can : (l : RwLock) → l.ww ≡ 0 → l.aw ≡ 0 → (reader_again l).ar ≡ l.ar + 1
unfolding reader_again reader_round
reader_can l r w = ground (arith, r, w)

-- In every state that threads reach, the thread that a releasing reader signals can go on, and
-- where it signals nobody, no writer waits or a reader is active still.
pub reader_signal-IsRight :
    (l : RwLock) → Reachable l → 0 < l.ar → IsRight (reader_release l) (reader_signal l)
unfolding reader_signal reader_release
reader_signal-IsRight l r a =
    let e = reachable-IsExclusive l r in
    let none_writes : l.aw ≡ 0 = elim e.alone [
      | inl x ↦ x
      | inr y ↦ absurd (omega (arith, y, a))
    ] in
    elim (Bool-cases (l.ar - 1 == 0 && ltb 0 l.ww)) [
      | inl b ↦ rw b (writer_can (reader_release l) (ground (arith, b)) none_writes)
      | inr b ↦ rw b (elim (Bool-cases (ltb 0 l.ww)) [
        | inl c ↦ inr (ground (arith, b, c))
        | inr c ↦ inl (ground (arith, c))
      ])
    ]

-- In every state that threads reach, the threads that a releasing writer signals can go on, and
-- where it signals nobody, no writer waits.
pub writer_signal-IsRight :
    (l : RwLock) → Reachable l → 0 < l.aw → IsRight (writer_release l) (writer_signal l)
unfolding writer_signal writer_release
writer_signal-IsRight l r a =
    let e = reachable-IsExclusive l r in
    let none_reads : l.ar ≡ 0 = elim e.alone [ inl x ↦ absurd (omega (arith, x, a)) | inr y ↦ y ] in
    let none_writes : l.aw - 1 ≡ 0 = omega (arith, e.one) in
    elim (Bool-cases (ltb 0 l.ww)) [
      | inl b ↦ rw b (writer_can (writer_release l) none_reads none_writes)
      | inr b ↦ elim (Bool-cases (ltb 0 l.wr)) [
        | inl c ↦ rw (b, c) (reader_can (writer_release l) (ground (arith, b)) none_writes)
        | inr c ↦ rw (b, c) (inl (ground (arith, b)))
      ]
    ]
