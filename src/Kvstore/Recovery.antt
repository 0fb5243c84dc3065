-- ===== src/Kvstore/Recovery.antt =====
-- `initialize` and `crashRecoveryFunction` of backend/kvstore/kvstore.cc.
pub mod Disk
pub mod Writes
pub mod Durable
pub mod Logged
pub mod Replay
pub mod Checkpointed
pub mod Restart
use distributed_cloud_storag.Prelude.{
  ℕ, ◌+◌, Bool, true, false, List, [], ◌∷◌, Option, none, some, leb, if◌then◌else◌,
}
use distributed_cloud_storag.Prelude.Dict.{Bytes}
use distributed_cloud_storag.Text.Getline.{getlines}
use distributed_cloud_storag.Kvstore.Split.{split_command}
use distributed_cloud_storag.Kvstore.Table
use distributed_cloud_storag.Kvstore.Table.{Table}
use distributed_cloud_storag.Kvstore.Server.{
  Server, Context, threshold, read_file, truncate_file, checkpoint_of, dead_log_of,
  checkpoint_table,
}
use distributed_cloud_storag.Kvstore.Forward.{Net}
use distributed_cloud_storag.Kvstore.Handle.{from_frontend, handle_command}

-- A line of the disk file, split at its commas: three tokens are an entry, all else is passed over.
unfoldable pub load_tokens : List Bytes → Table → Table
load_tokens (row ∷ col ∷ value ∷ []) t = Table.set t row col value
load_tokens _ t = t

unfoldable pub load_lines : List Bytes → Table → Table
unfolding load_tokens
load_lines [] t = t
load_lines (line ∷ lines) t = load_lines lines (load_tokens (getlines b',' line) t)

-- A checkpoint is taken as soon as the log has `threshold` lines or more.
unfoldable pub checkpoint_if_full : ℕ → Server → Server
checkpoint_if_full now s =
    if leb threshold s.writes then record (checkpoint_table now s) { writes = 0 } else s

infixl 5 ◌>>=◌
abbrev ◌>>=◌ {ℓ} : {A B : Type ℓ} → Option A → (A → Option B) → Option B
none >>= f = none
some a >>= f = f a

unfoldable pub load_disk : Bytes → Server → Server
load_disk path s = record s { table = load_lines (getlines b'\n' (read_file path s.files)) s.table }

module _ {W : Type 0} (net : Net W) where
  abbrev run_line : Bytes → Context W → Option (Context W)
  run_line line c = handle_command net (split_command line) from_frontend c

  -- Each line of the log is counted and then handled.
  unfoldable pub replay_log : List Bytes → Context W → Option (Context W)
  replay_log [] c = some c
  replay_log (line ∷ lines) c = do
    c' ← run_line line (record c { server = record c.server { writes = c.server.writes + 1 } })
    replay_log lines c'

  unfoldable pub replay_dead_log : List Bytes → Context W → Option (Context W)
  replay_dead_log [] c = some c
  replay_dead_log (line ∷ lines) c = do c' ← run_line line c; replay_dead_log lines c'

  -- The commands that the primary kept while this server was dead; the file is emptied after them.
  unfoldable pub crash_recovery : Bytes → Context W → Option (Context W)
  crash_recovery path c = do
    c' ← replay_dead_log (getlines b'\n' (read_file (dead_log_of path) c.server.files)) c
    some (record c' {
      server = record c'.server { files = truncate_file (dead_log_of path) c'.server.files };
    })

  -- The disk file, then the log, then the commands of the dead-server log. The reply of these
  -- commands goes to a local variable.
  unfoldable pub initialize : ℕ → Context W → Option (Context W)
  initialize now c = do
    let path = c.server.path
    let loaded = record c { msg = []; server = record (load_disk path c.server) { reading = true } }
    replayed ← replay_log (getlines b'\n' (read_file (checkpoint_of path) c.server.files)) loaded
    let settled = checkpoint_if_full now (record replayed.server { reading = false })
    recovered ← crash_recovery path (record replayed { server = settled })
    some (record recovered { msg = c.msg; server = checkpoint_if_full now recovered.server })
