-- ===== src/Wal/Memory.antt =====
-- A log that is a list of entries, for runs of what uses the log of Wal/Log.antt.
use origindb.Prelude.{refl, true, List, [], ◌++◌, map}
use mathlib.Core.List.{map-append}
use origindb.Wal.Record.{WalEntry}
use origindb.Wal.Log.{Log, change_of}

abbrev pub memory_log : Log
memory_log = record {
  State = List WalEntry;
  append = λ es s. (s ++ es, true);
  truncate = λ s. [];
  contents = λ s. map change_of s;
  CanAppend = λ es s. Unit {0};
  Intact = λ s. Unit {0};
  append_true = λ es s intact can done. (tt, map-append change_of s es);
  truncate_lem = λ s intact. (tt, refl);
}
