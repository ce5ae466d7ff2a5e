-- ===== src/RwLock/Tests.antt =====
-- The readers-writers lock's theorems at a reader that is active while a writer waits.
use algorithms_prepare.Prelude.{◌<◌, arith}
use algorithms_prepare.RwLock.{
  RwLock, rw_lock_init, reader_round, writer_round, read, write, Reachable, start, next,
}
use algorithms_prepare.RwLock.Exclusive.{IsExclusive, reachable-IsExclusive}

abbrev reading : RwLock
reading = writer_round (reader_round rw_lock_init)

reading-Reachable : Reachable reading
reading-Reachable =
    next (reader_round rw_lock_init) reading
      (next rw_lock_init (reader_round rw_lock_init) start read) write

abbrev writing : RwLock
writing = reader_round (writer_round rw_lock_init)

writing-Reachable : Reachable writing
writing-Reachable =
    next (writer_round rw_lock_init) writing
      (next rw_lock_init (writer_round rw_lock_init) start write) read

one_reads : 0 < reading.ar
unfolding rw_lock_init reader_round writer_round
one_reads = omega arith

one_writes : 0 < writing.aw
unfolding rw_lock_init reader_round writer_round
one_writes = omega arith

IsExclusive_example : IsExclusive reading
IsExclusive_example = reachable-IsExclusive reading reading-Reachable
