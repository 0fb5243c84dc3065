-- ===== src/Kvstore/Cluster.antt =====
-- The servers of a replica group joined: what a server sends to a peer, the peer's connection
-- thread (`threadFunc` of backend/kvstore/kvstore.cc) receives, and the socket carries its replies back.
pub mod Peer
pub mod Views
pub mod Forwarding
pub mod Replication
use distributed_cloud_storag.Prelude.{
  ℕ, Bool, false, not, ◌&&◌, ◌||◌, List, [], ◌∷◌, ◌++◌, Option, none, some, if◌then◌else◌,
}
use distributed_cloud_storag.Prelude.Dict.{Bytes}
use distributed_cloud_storag.Prelude.Int.{ℤ, eqz}
use distributed_cloud_storag.Kvstore.Config.{ServerInfo}
use distributed_cloud_storag.Kvstore.Server.{Server}
use distributed_cloud_storag.Kvstore.Forward.{Dial, Net, no_socket, refused, answer}
use distributed_cloud_storag.Kvstore.Connection.{Connection, receive}

-- The servers by their ports.
abbrev pub Cluster : Type 0
Cluster = ℤ → Server

-- A peer that is addressed as a secondary calls nobody itself.
abbrev pub lone : Net (Unit {0})
lone info command world = (no_socket, world)

abbrev pub joined : List Bytes → Bytes
joined [] = []
joined (s ∷ ss) = s ++ joined ss

abbrev pub opened : Server → Connection (Unit {0})
opened s = record { context = record { server = s; msg = []; world = tt }; command = []; sent = [] }

-- The peer after one command, and its replies. `none` is a fault of the peer.
unfoldable pub replies : Option (Connection (Unit {0})) → Option (Server × Bytes)
replies none = none
replies (some k) = some (k.context.server, joined k.sent)

unfoldable pub peer_step : ℕ → Bytes → Server → Option (Server × Bytes)
unfolding replies
peer_step now command s = replies (receive lone now command (opened s))

exchanged : Option (Server × Bytes) → ServerInfo → Cluster → Dial × Cluster
exchanged none info w = (refused, w)
exchanged (some (s, reply)) info w = (answer reply, λ p. if eqz info.tcp_port p then s else w p)

unfoldable pub cluster_net : ℕ → Net Cluster
unfolding exchanged
cluster_net now info command w = exchanged (peer_step now command (w info.tcp_port)) info w

-- Whether a live secondary of the list listens on the port.
unfoldable pub is_live : ℤ → List ServerInfo → Bool
is_live p [] = false
is_live p (info ∷ infos) =
    (not info.is_primary && not info.is_dead && eqz info.tcp_port p) || is_live p infos
