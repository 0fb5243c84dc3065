-- ===== src/Kvstore/Recovery/Logged.antt =====
-- What a writing command and a checkpoint leave in the files of kvstore.cc, to the last entry.
use distributed_cloud_storag.Prelude.{
  ℕ, ◌≡◌, refl, ap, ◌∙◌, Bool, true, false, ◌&&◌, inl, inr, Bool-cases, [], ◌∷◌, ◌++◌, some,
  All-append, if◌then◌else◌,
}
use distributed_cloud_storag.Prelude.Dict.{Bytes, eqb}
use distributed_cloud_storag.Text.Getline.{getlines}
use distributed_cloud_storag.Kvstore.Table.{Table, get, value_at, touch, get-set}
use distributed_cloud_storag.Kvstore.Table.Values.{Same, IsClean}
use distributed_cloud_storag.Kvstore.Server.{
  Server, Context, read_file, checkpoint_of, dead_log_of, handle_append, checkpoint_table,
}
use distributed_cloud_storag.Kvstore.Server.Files.{
  read_file-checkpoint_disk, read_file-checkpoint_log, read_file-checkpoint_dead,
}
use distributed_cloud_storag.Kvstore.Handle.{local_put, local_cput, local_delete}
use distributed_cloud_storag.Kvstore.Recovery.{load_lines}
use distributed_cloud_storag.Kvstore.Recovery.Disk.{load_lines-Same}
use distributed_cloud_storag.Kvstore.Recovery.Writes.{
  Write, put, cput, delete, line, apply, apply_all, IsReadable, apply_all-append, local,
}
use distributed_cloud_storag.Kvstore.Recovery.Durable.{
  Durable, succeeds, appended, written, handle_append-line, written-IsClean, written-Same, log_file,
  disk_file,
}

-- The logged commands lead from the table that was written to disk to the very table in memory.
pub record Exact (s : Server) : Type 0 where
  pub durable : Durable s
  pub exact : apply_all durable.log durable.base ≡ s.table

-- What a command does to a server: one that succeeds is in the files; a CPUT that fails changes no
-- file, but its entry is there afterwards.
abbrev pub Logged : Bool → Write → Server → Server → Type 0
Logged true w s s' = Exact s'
Logged false (cput row col old new) s s' =
    (s'.files ≡ s.files)
    × ((r c : Bytes)
        → get s'.table r c
          ≡ (if eqb row r && eqb col c then some (value_at s.table row col) else get s.table r c))
Logged false _ s s' = ⊥

appended-Exact :
    (w : Write) (s : Server) → Exact s → IsReadable w → Exact (appended w (written w s))
appended-Exact w s e h =
    let d = e.durable in
    record {
      durable = record {
        base = d.base;
        log = d.log ++ w ∷ [];
        disk_holds = rw (disk_file w s d h) d.disk_holds;
        log_holds = log_file w s d h;
        readable = All-append IsReadable d.log (w ∷ []) d.readable (h, tt);
        base_clean = d.base_clean;
        clean = written-IsClean w s d h;
        same = written-Same w s d h;
      };
      exact = apply_all-append d.log w d.base ∙ ap (apply w) e.exact;
    }

logged-Exact :
    (w : Write) (s : Server)
    → Exact s
    → IsReadable w
    → s.reading ≡ false
    → Exact (handle_append (line w) (written w s))
logged-Exact w s e h reads = rw (handle_append-line w (written w s) reads) (appended-Exact w s e h)

get-touch :
    (t : Table) (row col r c : Bytes)
    → get (touch t row col) r c
      ≡ (if eqb row r && eqb col c then some (value_at t row col) else get t r c)
unfolding touch
get-touch t row col r c = get-set t row col (value_at t row col) r c

-- A server that is not replaying its log holds a table to which the commands of its log lead from
-- the one that was written to its disk file. A writing command whose line can be read back, and
-- which succeeds, keeps that so. A CPUT that fails changes no file; it leaves every entry as it was
-- but its own, which is there afterwards, with the empty text if there was none.
pub local-Logged :
    {W : Type 0} (w : Write) (c : Context W)
    → IsReadable w
    → c.server.reading ≡ false
    → Exact c.server
    → Logged (succeeds w c.server.table) w c.server (local w c).server
unfolding local_put local_cput local_delete
local-Logged (put row col value) c h reads e = logged-Exact (put row col value) c.server e h reads
local-Logged (delete row col) c h reads e = logged-Exact (delete row col) c.server e h reads
local-Logged (cput row col old new) c h reads e =
    elim (Bool-cases (eqb (value_at c.server.table row col) old)) [
      | inl s ↦ rw s (rw s at (logged-Exact (cput row col old new) c.server e h reads))
      | inr s ↦ rw s (refl, λ r k. get-touch c.server.table row col r k)
    ]

-- After a checkpoint of a server whose rows and columns are distinct and whose texts hold no comma
-- and no line feed, the log is empty, and reading the disk file into an empty table gives the values
-- of the server's table, where a missing entry counts as the empty text; the table itself and the
-- dead-server log are as they were.
pub load_lines-checkpoint_table :
    (now : ℕ) (s : Server)
    → IsClean s.table
    → (read_file (checkpoint_of s.path) (checkpoint_table now s).files ≡ [])
      × Same
          (load_lines (getlines b'\n' (read_file s.path (checkpoint_table now s).files)) [])
          s.table
      × ((checkpoint_table now s).table ≡ s.table)
      × (read_file (dead_log_of s.path) (checkpoint_table now s).files
          ≡ read_file (dead_log_of s.path) s.files)
unfolding checkpoint_table
load_lines-checkpoint_table now s h = (
  read_file-checkpoint_log now s,
  load_lines-Same (read_file s.path (checkpoint_table now s).files) s.table
      (inr (now, read_file-checkpoint_disk now s)) h,
  refl,
  read_file-checkpoint_dead now s,
)
