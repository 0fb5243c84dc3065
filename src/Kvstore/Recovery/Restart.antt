-- ===== src/Kvstore/Recovery/Restart.antt =====
-- A server that starts again has the values that it had, and those of the commands kept for it.
use distributed_cloud_storag.Prelude.{ℕ, ◌≡◌, refl, sym, ap, ◌∙◌, true, false, List, [], some, All}
use distributed_cloud_storag.Prelude.Dict.{Bytes}
use distributed_cloud_storag.Text.Getline.{getlines}
use distributed_cloud_storag.Kvstore.Table.Values.{Same}
use distributed_cloud_storag.Kvstore.Server.{
  Server, Context, read_file, truncate_file, checkpoint_of, dead_log_of,
}
use distributed_cloud_storag.Kvstore.Forward.{Net}
use distributed_cloud_storag.Kvstore.Recovery.{
  replay_log, crash_recovery, load_disk, load_lines, checkpoint_if_full, initialize,
}
use distributed_cloud_storag.Kvstore.Recovery.Disk.{load_lines-Same, load_lines-IsClean}
use distributed_cloud_storag.Kvstore.Recovery.Writes.{
  Write, apply_all, IsReadable, log_text, apply_all-Same, getlines-log_text,
}
use distributed_cloud_storag.Kvstore.Recovery.Durable.{Durable}
use distributed_cloud_storag.Kvstore.Recovery.Replay.{
  Kept, Replayed, run_local, run_counted, run_counted-Replayed, run_local-Kept, run_local-Durable,
  world-run_local, world-run_counted, replay_log-run_counted, replay_dead_log-run_local,
}
use distributed_cloud_storag.Kvstore.Recovery.Checkpointed.{
  truncate_dead-Durable, Settled, checkpoint_if_full-Settled, apply_all-IsClean,
}

-- A process that starts on the files of `s`: its memory is empty.
abbrev pub boot : Server → Server
boot s = record s { table = []; writes = 0; initializing = true; reading = false }

module _ {W : Type 0} (net : Net W) (now : ℕ) (s : Server) (d : Durable s) (msg : Bytes)
    (world : W) where
  abbrev loaded : Context W
  loaded = record {
    server = record (load_disk s.path (boot s)) { reading = true };
    msg = [];
    world = world;
  }

  abbrev replayed : Context W
  replayed = run_counted d.log loaded

  abbrev awake : Server
  awake = record replayed.server { reading = false }

  loaded-Replayed : Replayed (apply_all d.log loaded.server.table) loaded.server replayed.server
  unfolding load_disk
  loaded-Replayed = run_counted-Replayed d.log loaded refl

  loaded_table : loaded.server.table ≡ load_lines (getlines b'\n' (read_file s.path s.files)) []
  unfolding load_disk
  loaded_table = refl

  awake-Same : Same awake.table s.table
  awake-Same = λ r c.
      rw (loaded-Replayed.kept.table, loaded_table)
        (apply_all-Same d.log _ d.base
            (load_lines-Same (read_file s.path s.files) d.base d.disk_holds d.base_clean) r c
          ∙ d.same r c)

  awake-Durable : Durable awake
  unfolding load_disk
  awake-Durable =
      let k = loaded-Replayed.kept in
      let p : awake.path ≡ s.path = k.path in
      record {
        base = d.base;
        log = d.log;
        disk_holds = rw (p, loaded-Replayed.files) d.disk_holds;
        log_holds = rw (p, loaded-Replayed.files) d.log_holds;
        readable = d.readable;
        base_clean = d.base_clean;
        clean =
            rw (k.table, loaded_table)
              (apply_all-IsClean d.log _ d.readable
                (load_lines-IsClean (read_file s.path s.files) d.base d.disk_holds d.base_clean));
        same = λ r c. d.same r c ∙ sym (awake-Same r c);
      }

  awake_path : awake.path ≡ s.path
  unfolding load_disk
  awake_path = loaded-Replayed.kept.path

  awake_initializing : awake.initializing ≡ true
  unfolding load_disk
  awake_initializing = loaded-Replayed.kept.initializing

  awake_files : awake.files ≡ s.files
  unfolding load_disk
  awake_files = loaded-Replayed.files

  checkpoint-Settled : Settled awake (checkpoint_if_full now awake)
  checkpoint-Settled = checkpoint_if_full-Settled now awake awake-Durable

  replay_log-loaded :
      replay_log net (getlines b'\n' (read_file (checkpoint_of s.path) s.files)) loaded
      ≡ some replayed
  unfolding load_disk
  replay_log-loaded =
      rw (d.log_holds, getlines-log_text d.log d.readable)
        (replay_log-run_counted net d.log loaded d.readable refl)

  module _ (ds : List Write) (hs : All IsReadable ds)
      (dead : read_file (dead_log_of s.path) s.files ≡ log_text ds) where
    abbrev recovering : Context W
    recovering = record replayed { server = checkpoint_if_full now awake }

    abbrev recovered : Context W
    recovered = run_local ds recovering

    recovered-Kept : Kept (apply_all ds recovering.server.table) recovering.server recovered.server
    recovered-Kept = run_local-Kept ds recovering

    recovered_path : recovered.server.path ≡ s.path
    recovered_path = recovered-Kept.path ∙ checkpoint-Settled.path ∙ awake_path

    recovered-Durable : Durable recovered.server
    recovered-Durable =
        run_local-Durable ds recovering hs checkpoint-Settled.reading checkpoint-Settled.durable

    recovered-Same : Same recovered.server.table (apply_all ds s.table)
    recovered-Same = λ r c.
        rw (recovered-Kept.table, checkpoint-Settled.table)
          (apply_all-Same ds awake.table s.table awake-Same r c)

    abbrev emptied : Server
    emptied = record recovered.server {
      files = truncate_file (dead_log_of s.path) recovered.server.files;
    }

    emptied-Durable : Durable emptied
    emptied-Durable = truncate_dead-Durable recovered.server s.path recovered_path recovered-Durable

    dead_log_read :
        read_file (dead_log_of s.path) (checkpoint_if_full now awake).files ≡ log_text ds
    dead_log_read =
        ap (λ p. read_file (dead_log_of p) (checkpoint_if_full now awake).files) (sym awake_path)
        ∙ checkpoint-Settled.dead_log
        ∙ ap (λ p. read_file (dead_log_of p) awake.files) awake_path
        ∙ ap (read_file (dead_log_of s.path)) awake_files
        ∙ dead

    crash_recovery-recovering :
        crash_recovery net s.path recovering ≡ some (record recovered { server = emptied })
    unfolding crash_recovery
    crash_recovery-recovering = rw (
      dead_log_read,
      getlines-log_text ds hs,
      replay_dead_log-run_local net ds recovering hs
          (checkpoint-Settled.initializing ∙ awake_initializing),
    )

    abbrev restarted : Context W
    restarted = record { server = checkpoint_if_full now emptied; msg = msg; world = world }

    abbrev start : Context W
    start = record { server = boot s; msg = msg; world = world }

    initialize-start : initialize net now start ≡ some restarted
    unfolding initialize
    initialize-start =
        rw (replay_log-loaded, crash_recovery-recovering)
          (ap (λ x. some (record restarted { world = x }))
            (world-run_local ds recovering ∙ world-run_counted d.log loaded))

    restarted-Same : Same restarted.server.table (apply_all ds s.table)
    restarted-Same = λ r c.
        rw ((checkpoint_if_full-Settled now emptied emptied-Durable).table) (recovered-Same r c)

-- A process that starts on the files of a durable server, and finds in its dead-server log the
-- commands `ds`, which are all such that their lines can be read back, ends its initialization: it then holds the values that the server had, with those
-- commands run on top, its files hold its table again, and nothing beyond the server has changed.
pub initialize-Durable :
    {W : Type 0} (net : Net W) (now : ℕ) (s : Server) (msg : Bytes) (world : W) (ds : List Write)
    → Durable s
    → All IsReadable ds
    → read_file (dead_log_of s.path) s.files ≡ log_text ds
    → (s' : Server) × (initialize net now (record { server = boot s; msg = msg; world = world })
        ≡ some (record { server = s'; msg = msg; world = world }))
      × Same s'.table (apply_all ds s.table)
      × Durable s'
initialize-Durable net now s msg world ds d hs dead = (
  (restarted net now s d msg world ds hs dead).server,
  initialize-start net now s d msg world ds hs dead,
  restarted-Same net now s d msg world ds hs dead,
  (checkpoint_if_full-Settled now (emptied net now s d msg world ds hs dead)
      (emptied-Durable net now s d msg world ds hs dead)).durable,
)
