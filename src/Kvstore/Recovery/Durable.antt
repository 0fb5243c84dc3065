-- ===== src/Kvstore/Recovery/Durable.antt =====
-- The files of a server hold the values of its table: the invariant, and what each operation does to
-- it. A value is what `value_at` reads, for which a missing entry and an empty one are the same.
use distributed_cloud_storag.Prelude.{
  ℕ, ◌+◌, ◌≡◌, refl, sym, ◌∙◌, Bool, true, false, inl, inr, Bool-cases, List, [], ◌∷◌, ◌++◌, arith,
  ltb, length, All, All-append,
}
use distributed_cloud_storag.Prelude.Dict.{eqb, eqb_iff}
use distributed_cloud_storag.Text.{codes}
use distributed_cloud_storag.Kvstore.Table.{Table, value_at}
use distributed_cloud_storag.Kvstore.Table.Values.{Same, IsClean, value_at-touch}
use distributed_cloud_storag.Kvstore.Server.{
  Server, Context, read_file, append_to_file, checkpoint_of, checkpoint_table, handle_append,
}
use distributed_cloud_storag.Kvstore.Server.Files.{
  eqb_longer, read_file-append_to_file, read_file-checkpoint_disk, read_file-checkpoint_log,
}
use distributed_cloud_storag.Kvstore.Handle.{local_put, local_cput, local_delete}
use distributed_cloud_storag.Kvstore.Recovery.Disk.{Holds}
use distributed_cloud_storag.Kvstore.Recovery.Writes.{
  Write, put, cput, delete, line, apply, apply_all, IsReadable, log_text, log_text-append,
  apply-Same, apply_all-append, apply-IsClean, local,
}

-- The disk file holds a table from which the logged commands lead to the values in memory.
pub record Durable (s : Server) : Type 0 where
  pub base : Table
  pub log : List Write
  pub disk_holds : Holds (read_file s.path s.files) base
  pub log_holds : read_file (checkpoint_of s.path) s.files ≡ log_text log
  pub readable : All IsReadable log
  pub base_clean : IsClean base
  pub clean : IsClean s.table
  pub same : Same (apply_all log base) s.table

-- Whether a command changes the stored value, and so is logged.
abbrev pub succeeds : Write → Table → Bool
succeeds (put row col value) t = true
succeeds (cput row col old new) t = eqb (value_at t row col) old
succeeds (delete row col) t = true

line-ne-nil : (w : Write) → ltb 0 (length (line w)) ≡ true
line-ne-nil (put row col value) = ground arith
line-ne-nil (cput row col old new) = ground arith
line-ne-nil (delete row col) = ground arith

-- A logged command is one more line of the log.
abbrev pub appended : Write → Server → Server
appended w s = record s {
  files = append_to_file (checkpoint_of s.path) (line w) s.files;
  writes = s.writes + 1;
}

pub handle_append-line :
    (w : Write) (s : Server) → s.reading ≡ false → handle_append (line w) s ≡ appended w s
unfolding handle_append
handle_append-line w s h = rw (line-ne-nil w, h)

-- The server with the command's effect on its table.
abbrev pub written : Write → Server → Server
written w s = record s { table = apply w s.table }

module _ (w : Write) (s : Server) (d : Durable s) (h : IsReadable w) where
  pub written-IsClean : IsClean (apply w s.table)
  written-IsClean = apply-IsClean w s.table h d.clean

  pub written-Same : Same (apply_all (d.log ++ w ∷ []) d.base) (apply w s.table)
  written-Same =
      rw (apply_all-append d.log w d.base) (apply-Same w (apply_all d.log d.base) s.table d.same)

  pub log_file :
      read_file (checkpoint_of s.path) (append_to_file (checkpoint_of s.path) (line w) s.files)
      ≡ log_text (d.log ++ w ∷ [])
  log_file =
      read_file-append_to_file (checkpoint_of s.path) (checkpoint_of s.path) (line w) s.files
      ∙ rw ((eqb_iff (checkpoint_of s.path) (checkpoint_of s.path)).1 refl, d.log_holds)
          (sym (log_text-append d.log w))

  pub disk_file :
      read_file s.path (append_to_file (checkpoint_of s.path) (line w) s.files)
      ≡ read_file s.path s.files
  unfolding eqb
  disk_file =
      read_file-append_to_file (checkpoint_of s.path) s.path (line w) s.files
      ∙ rw (eqb_longer s.path (codes "-checkpoint"))

  appended-Durable : Durable (appended w (written w s))
  appended-Durable = record {
    base = d.base;
    log = d.log ++ w ∷ [];
    disk_holds = rw disk_file d.disk_holds;
    log_holds = log_file;
    readable = All-append IsReadable d.log (w ∷ []) d.readable (h, tt);
    base_clean = d.base_clean;
    clean = written-IsClean;
    same = written-Same;
  }

  -- A command that changed no value needs no line in the log.
  unlogged-Durable : Same (apply w s.table) s.table → Durable (written w s)
  unlogged-Durable e = record {
    base = d.base;
    log = d.log;
    disk_holds = d.disk_holds;
    log_holds = d.log_holds;
    readable = d.readable;
    base_clean = d.base_clean;
    clean = written-IsClean;
    same = λ r c. d.same r c ∙ sym (e r c);
  }

  pub logged-Durable : s.reading ≡ false → Durable (handle_append (line w) (written w s))
  logged-Durable reads = rw (handle_append-line w (written w s) reads) appended-Durable

-- Whatever a writing command whose line can be read back does to a server that is not replaying its
-- log, its files still hold the values of its table if they held them before.
pub local-Durable :
    {W : Type 0} (w : Write) (c : Context W)
    → IsReadable w
    → c.server.reading ≡ false
    → Durable c.server
    → Durable (local w c).server
unfolding local_put local_cput local_delete
local-Durable (put row col value) c h reads d =
    logged-Durable (put row col value) c.server d h reads
local-Durable (delete row col) c h reads d = logged-Durable (delete row col) c.server d h reads
local-Durable (cput row col old new) c h reads d =
    elim (Bool-cases (eqb (value_at c.server.table row col) old)) [
      | inl e ↦ rw e (rw e at (logged-Durable (cput row col old new) c.server d h reads))
      | inr e ↦ rw e (
          rw e at (
            unlogged-Durable (cput row col old new) c.server d h
              (rw e (λ r k. value_at-touch c.server.table row col r k))))
    ]

-- A checkpoint of a server whose files hold the values of its table keeps that so.
pub checkpoint_table-Durable :
    (now : ℕ) (s : Server) → Durable s → Durable (record (checkpoint_table now s) { writes = 0 })
unfolding checkpoint_table
checkpoint_table-Durable now s d = record {
  base = s.table;
  log = [];
  disk_holds = inr (now, read_file-checkpoint_disk now s);
  log_holds = read_file-checkpoint_log now s;
  readable = tt;
  base_clean = d.clean;
  clean = d.clean;
  same = λ r c. refl;
}
