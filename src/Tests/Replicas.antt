-- ===== src/Tests/Replicas.antt =====
-- A write on the sample group.
use distributed_cloud_storag.Prelude.{◌≡◌, refl, true, false, some, if◌then◌else◌}
use distributed_cloud_storag.Prelude.Int.{ℤ, pos, eqz}
use distributed_cloud_storag.Text.{codes}
use distributed_cloud_storag.Text.Find.{Lacks-holds_no}
use distributed_cloud_storag.Kvstore.Config.{group_of}
use distributed_cloud_storag.Kvstore.Server.{Context}
use distributed_cloud_storag.Kvstore.Handle.{from_frontend, ok_reply, handle_command}
use distributed_cloud_storag.Kvstore.Recovery.Writes.{Write, put, params, apply}
use distributed_cloud_storag.Kvstore.Cluster.{Cluster, cluster_net, is_live}
use distributed_cloud_storag.Kvstore.Cluster.Views.{SameView}
use distributed_cloud_storag.Kvstore.Cluster.Peer.{IsSendable, IsReady}
use distributed_cloud_storag.Kvstore.Cluster.Replication.{write_replicates, replicas_agree}
use distributed_cloud_storag.Tests.Sample.{sample_table, server_at, context_of}

abbrev peers : Cluster
peers p = server_at 8001 false

abbrev start : Context Cluster
start = context_of (server_at 8000 true) peers

abbrev write : Write
write = put (codes "row") (codes "col") (codes "new")

write-IsSendable : IsSendable write
write-IsSendable = (
  (Lacks-holds_no b',' (codes "row") refl, Lacks-holds_no b'\r' (codes "row") refl),
  (Lacks-holds_no b',' (codes "col") refl, Lacks-holds_no b'\r' (codes "col") refl),
  (Lacks-holds_no b',' (codes "new") refl, Lacks-holds_no b'\r' (codes "new") refl),
)

peers-IsReady : (p : ℤ) → IsReady (peers p)
peers-IsReady p = record { enabled = refl; awake = refl; secondary = refl }

write_replicates_example :
    (c' : Context Cluster) × (handle_command (cluster_net 7) (params write) from_frontend start
      ≡ some c')
    × (c'.msg ≡ ok_reply)
    × (c'.server.table ≡ apply write sample_table)
    × ((p : ℤ)
        → SameView (c'.world p).table (
            if is_live p (group_of (pos 1) start.server.servers)
            then apply write sample_table
            else sample_table))
    × ((p : ℤ)
        → (if is_live p (group_of (pos 1) start.server.servers) then peers p else c'.world p)
          ≡ peers p)
write_replicates_example =
    write_replicates 7 write from_frontend start write-IsSendable refl refl peers-IsReady

replicas_agree_example :
    (c' : Context Cluster) × (handle_command (cluster_net 7) (params write) from_frontend start
      ≡ some c')
    × (c'.msg ≡ ok_reply)
    × SameView (c'.world (pos 8001)).table c'.server.table
unfolding is_live group_of eqz
replicas_agree_example =
    replicas_agree 7 write from_frontend start (pos 8001) write-IsSendable refl refl peers-IsReady
      refl (λ r k. refl)
