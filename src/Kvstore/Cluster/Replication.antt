-- ===== src/Kvstore/Cluster/Replication.antt =====
-- A write that the primary acknowledges is on the primary and on every live secondary.
use distributed_cloud_storag.Prelude.{
  ℕ, ◌≡◌, sym, ap, ◌∙◌, true, false, inl, inr, Bool-cases, ◌++◌, some, arith, if◌then◌else◌,
}
use distributed_cloud_storag.Prelude.Dict.{Bytes, eqb}
use distributed_cloud_storag.Prelude.Int.{ℤ}
use distributed_cloud_storag.Text.{codes}
use distributed_cloud_storag.Kvstore.Config.{group_of}
use distributed_cloud_storag.Kvstore.Table.{get}
use distributed_cloud_storag.Kvstore.Server.{Server, Context}
use distributed_cloud_storag.Kvstore.Forward.{Net, forward_to_all}
use distributed_cloud_storag.Kvstore.Handle.{
  Origin, after_forward, ok_reply, handle_put, handle_delete, handle_command,
}
use distributed_cloud_storag.Kvstore.Recovery.Writes.{
  Write, put, delete, line, params, local, apply,
}
use distributed_cloud_storag.Kvstore.Recovery.Replay.{local-Kept, world-local}
use distributed_cloud_storag.Kvstore.Cluster.{Cluster, cluster_net, is_live}
use distributed_cloud_storag.Kvstore.Cluster.Views.{SameView, apply-SameView}
use distributed_cloud_storag.Kvstore.Cluster.Forwarding.{forward_loop-Success}
use distributed_cloud_storag.Kvstore.Cluster.Peer.{IsSendable, IsReady, msg-local}

-- The primary's side of a write, whoever asked for it.
pub handle_command-primary :
    {W : Type 0} (net : Net W) (w : Write) (o : Origin) (c : Context W)
    → IsSendable w
    → c.server.initializing ≡ false
    → c.server.info.is_primary ≡ true
    → (error : Bytes) × (handle_command net (params w) o c
        ≡ some
            (after_forward (forward_to_all net (line w ++ codes ",PRIMARY\r\n") c) (local w) error))
unfolding handle_command eqb handle_put handle_delete
handle_command-primary net (put row col value) o c s a b =
    (codes "-ERR Writing PUT values to secondary\r\n", ground arith)
handle_command-primary net (Write.cput row col old new) o c s a b = absurd s
handle_command-primary net (delete row col) o c s a b =
    (codes "-ERR DELETING values from all secondary\r\n", ground arith)

-- A PUT or DELETE whose texts hold no comma and no "\r" reaches the primary, which is not starting,
-- while every server behind the network is enabled, not starting and no primary. Then it is
-- acknowledged with "+OK"; the primary's table is changed by it; the table of each live secondary of
-- the group reads as if it had been changed by it too; and a server that is no live secondary of
-- the group is left as it was.
pub write_replicates :
    (now : ℕ) (w : Write) (o : Origin) (c : Context Cluster)
    → IsSendable w
    → c.server.initializing ≡ false
    → c.server.info.is_primary ≡ true
    → ((p : ℤ) → IsReady (c.world p))
    → let group = group_of c.server.info.replica_group c.server.servers in
      (c' : Context Cluster) × (handle_command (cluster_net now) (params w) o c ≡ some c')
      × (c'.msg ≡ ok_reply)
      × (c'.server.table ≡ apply w c.server.table)
      × ((p : ℤ)
          → SameView
              (c'.world p).table
              (if is_live p group then apply w (c.world p).table else (c.world p).table))
      × ((p : ℤ) → (if is_live p group then c.world p else c'.world p) ≡ c.world p)
unfolding forward_to_all after_forward
write_replicates now w o c s a b ready =
    let group = group_of c.server.info.replica_group c.server.servers in
    let (c₁, e, f) = forward_loop-Success now w s group c ready in
    let (error, h) = handle_command-primary (cluster_net now) w o c s a b in
    let same = world-local w c₁ in
    (
      local w c₁,
      h ∙ ap (λ r. some (after_forward r (local w) error)) e,
      msg-local w c₁ s,
      (local-Kept w c₁).table ∙ ap (apply w) f.table,
      λ p. elim (Bool-cases (is_live p group)) [
        | inl l ↦ λ r k.
            ap (λ (x : Cluster). get (x p).table r k) same
            ∙ f.live p l r k
            ∙ ap (λ b. get (if b then apply w (c.world p).table else (c.world p).table) r k) (sym l)
        | inr l ↦ λ r k.
            ap (λ (x : Cluster). get (x p).table r k) same
            ∙ ap (λ (x : Server). get x.table r k) (f.other p l)
            ∙ ap (λ b. get (if b then apply w (c.world p).table else (c.world p).table) r k) (sym l)
      ],
      λ p. elim (Bool-cases (is_live p group)) [
        | inl l ↦ ap (λ b. if b then c.world p else (local w c₁).world p) l
        | inr l ↦
            ap (λ b. if b then c.world p else (local w c₁).world p) l
            ∙ ap (λ (x : Cluster). x p) same
            ∙ f.other p l
      ],
    )

-- Under the same conditions, a live secondary from which every GET read the same as from the primary still reads the same
-- as the primary once the write is acknowledged.
pub replicas_agree :
    (now : ℕ) (w : Write) (o : Origin) (c : Context Cluster) (p : ℤ)
    → IsSendable w
    → c.server.initializing ≡ false
    → c.server.info.is_primary ≡ true
    → ((q : ℤ) → IsReady (c.world q))
    → is_live p (group_of c.server.info.replica_group c.server.servers) ≡ true
    → SameView (c.world p).table c.server.table
    → (c' : Context Cluster) × (handle_command (cluster_net now) (params w) o c ≡ some c')
      × (c'.msg ≡ ok_reply)
      × SameView (c'.world p).table c'.server.table
replicas_agree now w o c p s a b ready l v =
    let (c', e, m, t, views, others) = write_replicates now w o c s a b ready in
    (
      c',
      e,
      m,
      λ r k.
          views p r k
          ∙ ap (λ b. get (if b then apply w (c.world p).table else (c.world p).table) r k) l
          ∙ apply-SameView w (c.world p).table c.server.table s v r k
          ∙ ap (λ u. get u r k) (sym t),
    )
