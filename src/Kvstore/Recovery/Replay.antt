-- ===== src/Kvstore/Recovery/Replay.antt =====
-- The lines of the two logs run as the commands that wrote them.
use distributed_cloud_storag.Prelude.{
  ◌+◌, ◌≡◌, refl, ap, ◌∙◌, true, false, List, [], ◌∷◌, map, some, arith, All,
}
use distributed_cloud_storag.Kvstore.Table.{Table}
use distributed_cloud_storag.Kvstore.Server.{Server, Context, handle_append}
use distributed_cloud_storag.Kvstore.Forward.{Net}
use distributed_cloud_storag.Kvstore.Handle.{from_frontend, local_put, local_cput, local_delete}
use distributed_cloud_storag.Kvstore.Recovery.{replay_log, replay_dead_log}
use distributed_cloud_storag.Kvstore.Recovery.Writes.{
  Write, put, cput, delete, line, apply, apply_all, IsReadable, local, split_command-line,
  handle_command-initializing,
}
use distributed_cloud_storag.Kvstore.Recovery.Durable.{Durable, local-Durable}

-- What a command leaves alone, and what it does to the table.
pub record Kept (t : Table) (s s' : Server) : Type 0 where
  pub table : s'.table ≡ t
  pub initializing : s'.initializing ≡ s.initializing
  pub reading : s'.reading ≡ s.reading
  pub path : s'.path ≡ s.path

pub record Replayed (t : Table) (s s' : Server) : Type 0 where
  pub kept : Kept t s s'
  pub files : s'.files ≡ s.files

module _ {W : Type 0} where
  -- Commands that a server runs on itself, one after another.
  abbrev pub run_local : List Write → Context W → Context W
  run_local [] c = c
  run_local (w ∷ ws) c = run_local ws (local w c)

  abbrev bump : Context W → Context W
  bump c = record c { server = record c.server { writes = c.server.writes + 1 } }

  abbrev pub run_counted : List Write → Context W → Context W
  run_counted [] c = c
  run_counted (w ∷ ws) c = run_counted ws (local w (bump c))

  pub local-Kept :
      (w : Write) (c : Context W) → Kept (apply w c.server.table) c.server (local w c).server
  unfolding local_put local_cput local_delete handle_append
  local-Kept (put row col value) c = ground arith
  local-Kept (cput row col old new) c = ground arith
  local-Kept (delete row col) c = ground arith

  -- The replay of the log writes to no file.
  files-local :
      (w : Write) (c : Context W)
      → c.server.reading ≡ true
      → (local w c).server.files ≡ c.server.files
  unfolding local_put local_cput local_delete handle_append
  files-local (put row col value) c h = ground arith
  files-local (cput row col old new) c h = ground arith
  files-local (delete row col) c h = ground arith

  pub run_counted-Replayed :
      (ws : List Write) (c : Context W)
      → c.server.reading ≡ true
      → Replayed (apply_all ws c.server.table) c.server (run_counted ws c).server
  run_counted-Replayed [] c h = record {
    kept = record { table = refl; initializing = refl; reading = refl; path = refl };
    files = refl;
  }
  run_counted-Replayed (w ∷ ws) c h =
      let k = local-Kept w (bump c) in
      let r = run_counted-Replayed ws (local w (bump c)) (k.reading ∙ h) in
      record {
        kept = record {
          table = r.kept.table ∙ ap (apply_all ws) k.table;
          initializing = r.kept.initializing ∙ k.initializing;
          reading = r.kept.reading ∙ k.reading;
          path = r.kept.path ∙ k.path;
        };
        files = r.files ∙ files-local w (bump c) h;
      }

  pub run_local-Kept :
      (ws : List Write) (c : Context W)
      → Kept (apply_all ws c.server.table) c.server (run_local ws c).server
  run_local-Kept [] c = record { table = refl; initializing = refl; reading = refl; path = refl }
  run_local-Kept (w ∷ ws) c =
      let k = local-Kept w c in
      let r = run_local-Kept ws (local w c) in
      record {
        table = r.table ∙ ap (apply_all ws) k.table;
        initializing = r.initializing ∙ k.initializing;
        reading = r.reading ∙ k.reading;
        path = r.path ∙ k.path;
      }

  pub run_local-Durable :
      (ws : List Write) (c : Context W)
      → All IsReadable ws
      → c.server.reading ≡ false
      → Durable c.server
      → Durable (run_local ws c).server
  run_local-Durable [] c hs h d = d
  run_local-Durable (w ∷ ws) c (hw, hs) h d =
      run_local-Durable ws (local w c) hs ((local-Kept w c).reading ∙ h) (local-Durable w c hw h d)

  pub world-local : (w : Write) (c : Context W) → (local w c).world ≡ c.world
  unfolding local_put local_cput local_delete
  world-local (put row col value) c = refl
  world-local (cput row col old new) c = ground arith
  world-local (delete row col) c = refl

  pub world-run_local : (ws : List Write) (c : Context W) → (run_local ws c).world ≡ c.world
  world-run_local [] c = refl
  world-run_local (w ∷ ws) c = world-run_local ws (local w c) ∙ world-local w c

  pub world-run_counted : (ws : List Write) (c : Context W) → (run_counted ws c).world ≡ c.world
  world-run_counted [] c = refl
  world-run_counted (w ∷ ws) c = world-run_counted ws (local w (bump c)) ∙ world-local w (bump c)

module _ {W : Type 0} (net : Net W) where
  -- The lines of a log are the commands that wrote them.
  pub replay_log-run_counted :
      (ws : List Write) (c : Context W)
      → All IsReadable ws
      → c.server.initializing ≡ true
      → replay_log net (map line ws) c ≡ some (run_counted ws c)
  unfolding replay_log
  replay_log-run_counted [] c hs h = refl
  replay_log-run_counted (w ∷ ws) c (hw, hs) h =
      rw (split_command-line w hw, handle_command-initializing net w from_frontend (bump c) h)
        (replay_log-run_counted ws (local w (bump c)) hs ((local-Kept w (bump c)).initializing ∙ h))

  pub replay_dead_log-run_local :
      (ws : List Write) (c : Context W)
      → All IsReadable ws
      → c.server.initializing ≡ true
      → replay_dead_log net (map line ws) c ≡ some (run_local ws c)
  unfolding replay_dead_log
  replay_dead_log-run_local [] c hs h = refl
  replay_dead_log-run_local (w ∷ ws) c (hw, hs) h =
      rw (split_command-line w hw, handle_command-initializing net w from_frontend c h)
        (replay_dead_log-run_local ws (local w c) hs ((local-Kept w c).initializing ∙ h))
