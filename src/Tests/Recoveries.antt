-- ===== src/Tests/Recoveries.antt =====
-- A server that logs a write, takes a checkpoint, and starts again.
use distributed_cloud_storag.Prelude.{◌≡◌, refl, true, false, [], ◌∷◌, some, arith, inl, inr}
use distributed_cloud_storag.Prelude.Dict.{Bytes, eqb, lookup, lookup_or, insert}
use distributed_cloud_storag.Text.{codes}
use distributed_cloud_storag.Text.Find.{Lacks-holds_no, holds_no}
use distributed_cloud_storag.Text.Getline.{getlines}
use distributed_cloud_storag.Kvstore.Server.{
  Server, read_file, append_to_file, handle_append, table_lines, dead_log_of, checkpoint_of,
  checkpoint_table,
}
use distributed_cloud_storag.Kvstore.Table.Values.{Same, Clean, IsClean}
use distributed_cloud_storag.Kvstore.Forward.{refused, Net}
use distributed_cloud_storag.Text.Decimal.{to_string}
use distributed_cloud_storag.Kvstore.Handle.{local_put}
use distributed_cloud_storag.Kvstore.Recovery.{load_lines, initialize}
use distributed_cloud_storag.Kvstore.Recovery.Disk.{load_lines-Same}
use distributed_cloud_storag.Kvstore.Recovery.Writes.{
  Write, put, cput, IsReadable, local, apply_all, log_text,
}
use distributed_cloud_storag.Kvstore.Recovery.Durable.{Durable, succeeds, local-Durable}
use distributed_cloud_storag.Kvstore.Recovery.Logged.{
  Exact, Logged, local-Logged, load_lines-checkpoint_table,
}
use distributed_cloud_storag.Kvstore.Recovery.Restart.{boot, initialize-Durable}
use distributed_cloud_storag.Tests.Sample.{sample_table, server_at, context_of}

abbrev silent : Net (Unit {0})
silent info command world = (refused, world)

abbrev write : Write
write = put (codes "row") (codes "col") (codes "new")

-- The write that the primary kept while this server was dead.
abbrev missed : Write
missed = cput (codes "row") (codes "col") (codes "new") (codes "newer")

clean : (s : Bytes) → holds_no b',' s ≡ true → holds_no b'\n' s ≡ true → Clean s
clean s h k = (Lacks-holds_no b',' s h, Lacks-holds_no b'\n' s k)

write-IsReadable : IsReadable write
write-IsReadable = (
  clean (codes "row") refl refl,
  clean (codes "col") refl refl,
  clean (codes "new") refl refl,
  λ e. ground arith,
)

missed-IsReadable : IsReadable missed
missed-IsReadable = (
  clean (codes "row") refl refl,
  clean (codes "col") refl refl,
  clean (codes "new") refl refl,
  clean (codes "newer") refl refl,
  λ e. ground arith,
)

abbrev empty : Server
empty = record (server_at 8001 false) {
  table = [];
  files = (codes "./storage/RP1-deadServerLog", log_text (missed ∷ [])) ∷ [];
}

empty-Durable : Durable empty
unfolding read_file lookup_or lookup eqb
empty-Durable = record {
  base = [];
  log = [];
  disk_holds = inl (refl, refl);
  log_holds = refl;
  readable = tt;
  base_clean = (tt, tt);
  clean = (tt, tt);
  same = λ r c. refl;
}

empty-Exact : Exact empty
unfolding read_file lookup_or lookup eqb
empty-Exact = record {
  durable = record {
    base = [];
    log = [];
    disk_holds = inl (refl, refl);
    log_holds = refl;
    readable = tt;
    base_clean = (tt, tt);
    clean = (tt, tt);
    same = λ r c. refl;
  };
  exact = refl;
}

local-Logged_example :
    Logged (succeeds missed []) missed empty (local missed (context_of empty tt)).server
local-Logged_example = local-Logged missed (context_of empty tt) missed-IsReadable refl empty-Exact

abbrev logged : Server
logged = (local write (context_of empty tt)).server

logged-Durable : Durable logged
logged-Durable = local-Durable write (context_of empty tt) write-IsReadable refl empty-Durable

load_lines-checkpoint_table_example :
    (read_file (checkpoint_of logged.path) (checkpoint_table 7 logged).files ≡ [])
    × Same
        (load_lines (getlines b'\n' (read_file logged.path (checkpoint_table 7 logged).files)) [])
        logged.table
    × ((checkpoint_table 7 logged).table ≡ logged.table)
    × (read_file (dead_log_of logged.path) (checkpoint_table 7 logged).files
        ≡ read_file (dead_log_of logged.path) logged.files)
load_lines-checkpoint_table_example = load_lines-checkpoint_table 7 logged logged-Durable.clean

missed-logged : read_file (dead_log_of logged.path) logged.files ≡ log_text (missed ∷ [])
unfolding read_file lookup_or lookup eqb local_put handle_append append_to_file insert
missed-logged = refl

initialize-Durable_example :
    (s' : Server) × (initialize silent 7 (context_of (boot logged) tt) ≡ some (context_of s' tt))
    × Same s'.table (apply_all (missed ∷ []) logged.table)
    × Durable s'
initialize-Durable_example =
    initialize-Durable silent 7 logged [] tt (missed ∷ []) logged-Durable (missed-IsReadable, tt)
      missed-logged

sample_table-IsClean : IsClean sample_table
unfolding lookup
sample_table-IsClean = (
  (refl, tt),
  (
    (
      clean (codes "row") refl refl,
      (refl, tt),
      ((clean (codes "col") refl refl, clean (codes "old") refl refl), tt),
    ),
    tt,
  ),
)

load_lines-Same_example :
    Same (load_lines (getlines b'\n' (codes "7\nrow,col,old\n")) []) sample_table
unfolding table_lines to_string
load_lines-Same_example =
    load_lines-Same (codes "7\nrow,col,old\n") sample_table (inr (7, refl)) sample_table-IsClean
