-- ===== src/Tests/Sample.antt =====
-- The servers of the examples: a group of three, as the configuration files describe them.
use distributed_cloud_storag.Prelude.{ℕ, Bool, true, false, List, [], ◌∷◌, ◌+◌}
use distributed_cloud_storag.Prelude.Int.{pos}
use distributed_cloud_storag.Text.{codes}
use distributed_cloud_storag.Kvstore.Config.{ServerInfo}
use distributed_cloud_storag.Kvstore.Table.{Table}
use distributed_cloud_storag.Kvstore.Server.{Server, Context}

abbrev pub info_at : ℕ → Bool → Bool → ServerInfo
info_at port primary dead = record {
  ip = codes "127.0.0.1";
  tcp_port = pos port;
  udp_port = pos (port + 1000);
  udp_port2 = pos (port + 2000);
  tcp_port2 = pos (port + 3000);
  is_primary = primary;
  is_dead = dead;
  replica_group = pos 1;
}

-- The primary at port 8000, a live secondary at 8001 and a dead one at 8002.
abbrev pub infos : List ServerInfo
infos = info_at 8000 true false ∷ info_at 8001 false false ∷ info_at 8002 false true ∷ []

abbrev pub sample_table : Table
sample_table = (codes "row", (codes "col", codes "old") ∷ []) ∷ []

abbrev pub server_at : ℕ → Bool → Server
server_at port primary = record {
  group = pos 1;
  info = info_at port primary false;
  primary = info_at 8000 true false;
  servers = (pos 1, infos) ∷ [];
  enabled = true;
  initializing = false;
  reading = false;
  writes = 0;
  path = codes "./storage/RP1";
  table = sample_table;
  files = [];
}

abbrev pub context_of : {W : Type 0} → Server → W → Context W
context_of s w = record { server = s; msg = []; world = w }
