-- ===== src/Kvstore/Recovery/Checkpointed.antt =====
-- What a checkpoint and the emptying of the dead-server log leave of a durable server.
use distributed_cloud_storag.Prelude.{ℕ, ◌≡◌, refl, inl, inr, Bool-cases, List, [], ◌∷◌, leb, All}
use distributed_cloud_storag.Prelude.Dict.{Bytes, eqb}
use distributed_cloud_storag.Text.{codes}
use distributed_cloud_storag.Kvstore.Table.{Table}
use distributed_cloud_storag.Kvstore.Table.Values.{IsClean}
use distributed_cloud_storag.Kvstore.Server.{
  Server, threshold, read_file, truncate_file, dead_log_of, checkpoint_table,
}
use distributed_cloud_storag.Kvstore.Server.Files.{
  eqb-append, eqb_longer, read_file-truncate, read_file-checkpoint_dead,
}
use distributed_cloud_storag.Kvstore.Recovery.{checkpoint_if_full}
use distributed_cloud_storag.Kvstore.Recovery.Writes.{
  Write, apply, apply_all, IsReadable, apply-IsClean,
}
use distributed_cloud_storag.Kvstore.Recovery.Durable.{Durable, checkpoint_table-Durable}

truncate_own-Durable :
    (s : Server)
    → Durable s
    → Durable (record s { files = truncate_file (dead_log_of s.path) s.files })
unfolding eqb
truncate_own-Durable s d = record {
  base = d.base;
  log = d.log;
  disk_holds = rw (read_file-truncate, eqb_longer s.path (codes "-deadServerLog")) d.disk_holds;
  log_holds =
      rw (read_file-truncate, eqb-append s.path (codes "-deadServerLog") (codes "-checkpoint"))
        d.log_holds;
  readable = d.readable;
  base_clean = d.base_clean;
  clean = d.clean;
  same = d.same;
}

pub truncate_dead-Durable :
    (s : Server) (p : Bytes)
    → s.path ≡ p
    → Durable s
    → Durable (record s { files = truncate_file (dead_log_of p) s.files })
truncate_dead-Durable s p e d = rw (← e) (truncate_own-Durable s d)

-- What a checkpoint, if one is due, leaves of a server.
pub record Settled (s s' : Server) : Type 0 where
  pub durable : Durable s'
  pub table : s'.table ≡ s.table
  pub path : s'.path ≡ s.path
  pub initializing : s'.initializing ≡ s.initializing
  pub reading : s'.reading ≡ s.reading
  pub dead_log : read_file (dead_log_of s.path) s'.files ≡ read_file (dead_log_of s.path) s.files

pub checkpoint_if_full-Settled :
    (now : ℕ) (s : Server) → Durable s → Settled s (checkpoint_if_full now s)
unfolding checkpoint_if_full checkpoint_table
checkpoint_if_full-Settled now s d = elim (Bool-cases (leb threshold s.writes)) [
  | inl full ↦ rw full (record {
    durable = checkpoint_table-Durable now s d;
    table = refl;
    path = refl;
    initializing = refl;
    reading = refl;
    dead_log = read_file-checkpoint_dead now s;
  })
  | inr room ↦ rw room (record {
    durable = d;
    table = refl;
    path = refl;
    initializing = refl;
    reading = refl;
    dead_log = refl;
  })
]

pub apply_all-IsClean :
    (ws : List Write) (t : Table) → All IsReadable ws → IsClean t → IsClean (apply_all ws t)
apply_all-IsClean [] t hs h = h
apply_all-IsClean (w ∷ ws) t (hw, hs) h =
    apply_all-IsClean ws (apply w t) hs (apply-IsClean w t hw h)
