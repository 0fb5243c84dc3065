-- ===== src/Kvstore/Cluster/Forwarding.antt =====
-- What `forwardToAllSecondaryServers` does to the servers of a group.
use distributed_cloud_storag.Prelude.{
  ℕ, ◌≡◌, refl, sym, ap, ◌∙◌, true, false, inl, inr, Bool-cases, List, [], ◌∷◌, ◌++◌, some, arith,
  if◌then◌else◌,
}
use mathlib.Core.Bool.{false≢true}
use distributed_cloud_storag.Prelude.Dict.{Bytes}
use distributed_cloud_storag.Prelude.Int.{ℤ, eqz, eqz_iff}
use distributed_cloud_storag.Text.{codes}
use distributed_cloud_storag.Text.Find.{find}
use distributed_cloud_storag.Kvstore.Config.{ServerInfo}
use distributed_cloud_storag.Kvstore.Table.{get}
use distributed_cloud_storag.Kvstore.Server.{Server, Context}
use distributed_cloud_storag.Kvstore.Forward.{
  Dial, Net, has_ok, log_for_dead, after_dial, dial, answer, forward_loop,
}
use distributed_cloud_storag.Kvstore.Handle.{ok_reply}
use distributed_cloud_storag.Kvstore.Recovery.Writes.{Write, line, apply}
use distributed_cloud_storag.Kvstore.Cluster.{Cluster, cluster_net, is_live, peer_step, exchanged}
use distributed_cloud_storag.Kvstore.Cluster.Peer.{IsSendable, IsReady, peer_step-sent}
use distributed_cloud_storag.Kvstore.Cluster.Views.{SameView, apply-apply}

-- What forwarding to a list of peers does to the context.
pub record Forwarded (w : Write) (infos : List ServerInfo) (c c' : Context Cluster) : Type 0 where
  pub table : c'.server.table ≡ c.server.table
  pub ready : (p : ℤ) → IsReady (c'.world p)
  pub live :
      (p : ℤ) → is_live p infos ≡ true → SameView (c'.world p).table (apply w (c.world p).table)
  pub other : (p : ℤ) → is_live p infos ≡ false → c'.world p ≡ c.world p

has_ok-ok_reply : has_ok ok_reply ≡ true
unfolding has_ok find
has_ok-ok_reply = refl

module _ (now : ℕ) (w : Write) (s : IsSendable w) where
  abbrev net : Net Cluster
  net = cluster_net now

  abbrev sent_line : Bytes
  sent_line = line w ++ codes ",PRIMARY\r\n"

  forward_passed :
      (peer : ServerInfo) (peers : List ServerInfo) (c : Context Cluster)
      → peer.is_primary ≡ true
      → forward_loop net sent_line (peer ∷ peers) c ≡ forward_loop net sent_line peers c
  unfolding forward_loop
  forward_passed peer peers c h = ground arith

  forward_kept :
      (peer : ServerInfo) (peers : List ServerInfo) (c : Context Cluster)
      → peer.is_primary ≡ false
      → peer.is_dead ≡ true
      → forward_loop net sent_line (peer ∷ peers) c
        ≡ forward_loop net sent_line peers (log_for_dead peer sent_line c)
  unfolding forward_loop
  forward_kept peer peers c h k = ground arith

  forward_sent :
      (peer : ServerInfo) (peers : List ServerInfo) (c : Context Cluster)
      → peer.is_primary ≡ false
      → peer.is_dead ≡ false
      → forward_loop net sent_line (peer ∷ peers) c ≡ (
          let (result, c') = dial net peer sent_line c in
          after_dial result c' (λ c''. forward_loop net sent_line peers c''))
  unfolding forward_loop
  forward_sent peer peers c h k = ground arith

  log_for_dead-same :
      (peer : ServerInfo) (c : Context Cluster)
      → ((log_for_dead peer sent_line c).server.table ≡ c.server.table)
        × ((log_for_dead peer sent_line c).world ≡ c.world)
  unfolding log_for_dead
  log_for_dead-same peer c = ground arith

  -- A live peer takes the write, and the loop goes on.
  module _ (peer : ServerInfo) (c : Context Cluster) (ready : (p : ℤ) → IsReady (c.world p)) where
    abbrev taken :
        (x : Server) × (peer_step now sent_line (c.world peer.tcp_port) ≡ some (x, ok_reply))
        × (x.table ≡ apply w (c.world peer.tcp_port).table)
        × IsReady x
    taken = peer_step-sent now w (c.world peer.tcp_port) s (ready peer.tcp_port)

    abbrev world_after : Cluster
    world_after = λ p. if eqz peer.tcp_port p then taken.0 else c.world p

    dial-taken : dial net peer sent_line c ≡ (answer ok_reply, record c { world = world_after })
    unfolding dial cluster_net
    dial-taken =
        ap
          (λ o.
            let (result, world) = exchanged o peer c.world in (result, record c { world = world }))
          taken.1

    world_after-IsReady : (p : ℤ) → IsReady (world_after p)
    world_after-IsReady p = elim (Bool-cases (eqz peer.tcp_port p)) [
      | inl e ↦ rw e (taken.3)
      | inr e ↦ rw e (ready p)
    ]

    world_after-hit :
        (p : ℤ) → eqz peer.tcp_port p ≡ true → (world_after p).table ≡ apply w (c.world p).table
    world_after-hit p e =
        ap (λ b. (if b then taken.0 else c.world p).table) e
        ∙ taken.2
        ∙ ap (λ q. apply w (c.world q).table) ((eqz_iff peer.tcp_port p).0 e)

    world_after-miss : (p : ℤ) → eqz peer.tcp_port p ≡ false → world_after p ≡ c.world p
    world_after-miss p e = ap (λ b. if b then taken.0 else c.world p) e

  Forwarded-taken :
      (peer : ServerInfo) (peers : List ServerInfo) (c c' : Context Cluster)
      (ready : (p : ℤ) → IsReady (c.world p))
      → peer.is_primary ≡ false
      → peer.is_dead ≡ false
      → Forwarded w peers (record c { world = world_after peer c ready }) c'
      → Forwarded w (peer ∷ peers) c c'
  unfolding is_live
  Forwarded-taken peer peers c c' ready h k f = record {
    table = f.table;
    ready = f.ready;
    live = λ p l. elim (Bool-cases (is_live p peers)) [
      | inl more ↦ elim (Bool-cases (eqz peer.tcp_port p)) [
        | inl hit ↦ λ r k.
            f.live p more r k
            ∙ ap (λ t. get (apply w t) r k) (world_after-hit peer c ready p hit)
            ∙ apply-apply w (c.world p).table s r k
        | inr miss ↦ λ r k.
            f.live p more r k
            ∙ ap (λ (x : Server). get (apply w x.table) r k) (world_after-miss peer c ready p miss)
      ]
      | inr last ↦ λ r k.
          ap (λ (x : Server). get x.table r k) (f.other p last)
          ∙ ap (λ t. get t r k) (world_after-hit peer c ready p (ground arith))
    ];
    other = λ p l. f.other p (ground arith) ∙ world_after-miss peer c ready p (ground arith);
  }

  Forwarded-passed :
      (peer : ServerInfo) (peers : List ServerInfo) (c c' : Context Cluster)
      → ((p : ℤ) → is_live p (peer ∷ peers) ≡ is_live p peers)
      → Forwarded w peers c c'
      → Forwarded w (peer ∷ peers) c c'
  Forwarded-passed peer peers c c' e f = record {
    table = f.table;
    ready = f.ready;
    live = λ p l. f.live p (sym (e p) ∙ l);
    other = λ p l. f.other p (sym (e p) ∙ l);
  }

  is_live-primary :
      (peer : ServerInfo) (peers : List ServerInfo)
      → peer.is_primary ≡ true
      → (p : ℤ) → is_live p (peer ∷ peers) ≡ is_live p peers
  unfolding is_live
  is_live-primary peer peers h p = ground arith

  is_live-dead :
      (peer : ServerInfo) (peers : List ServerInfo)
      → peer.is_dead ≡ true
      → (p : ℤ) → is_live p (peer ∷ peers) ≡ is_live p peers
  unfolding is_live
  is_live-dead peer peers h p = ground arith

  abbrev Success : List ServerInfo → Context Cluster → Type 0
  Success infos c =
      (c' : Context Cluster) × (forward_loop net sent_line infos c ≡ (true, c'))
      × Forwarded w infos c c'

  Success-kept :
      (peer : ServerInfo) (peers : List ServerInfo) (c : Context Cluster)
      → peer.is_primary ≡ false
      → peer.is_dead ≡ true
      → Success peers (log_for_dead peer sent_line c)
      → Success (peer ∷ peers) c
  Success-kept peer peers c h k (c', e, f) =
      let same = log_for_dead-same peer c in
      (
        c',
        forward_kept peer peers c h k ∙ e,
        Forwarded-passed peer peers c c' (is_live-dead peer peers k) (record {
          table = f.table ∙ same.0;
          ready = f.ready;
          live = λ p l r k.
              f.live p l r k ∙ ap (λ (x : Cluster). get (apply w (x p).table) r k) same.1;
          other = λ p l. f.other p l ∙ ap (λ (x : Cluster). x p) same.1;
        }),
      )

  Success-sent :
      (peer : ServerInfo) (peers : List ServerInfo) (c : Context Cluster)
      (ready : (p : ℤ) → IsReady (c.world p))
      → peer.is_primary ≡ false
      → peer.is_dead ≡ false
      → Success peers (record c { world = world_after peer c ready })
      → Success (peer ∷ peers) c
  unfolding after_dial
  Success-sent peer peers c ready h k (c', e, f) = (
    c',
    forward_sent peer peers c h k
        ∙ ap
            (λ (d : Dial × Context Cluster).
              after_dial d.0 d.1 (λ c''. forward_loop net sent_line peers c''))
            (dial-taken peer c ready)
        ∙ ap
            (λ b.
              if b
              then forward_loop net sent_line peers (record c { world = world_after peer c ready })
              else (false, record c { world = world_after peer c ready }))
            has_ok-ok_reply
        ∙ e,
    Forwarded-taken peer peers c c' ready h k f,
  )

  pub forward_loop-Success :
      (infos : List ServerInfo) (c : Context Cluster)
      → ((p : ℤ) → IsReady (c.world p))
      → Success infos c
  unfolding is_live
  forward_loop-Success [] c ready = (
    c,
    unfold forward_loop in refl,
    record {
      table = refl;
      ready = ready;
      live = λ p l. absurd (false≢true l);
      other = λ p l. refl;
    },
  )
  forward_loop-Success (peer ∷ peers) c ready = elim (Bool-cases peer.is_primary) [
    | inl h ↦
        let (c', e, f) = forward_loop-Success peers c ready in
        (
          c',
          forward_passed peer peers c h ∙ e,
          Forwarded-passed peer peers c c' (is_live-primary peer peers h) f,
        )
    | inr h ↦ elim (Bool-cases peer.is_dead) [
      | inl k ↦ Success-kept peer peers c h k (
          forward_loop-Success peers (log_for_dead peer sent_line c)
            (λ p. rw ((log_for_dead-same peer c).1) (ready p)))
      | inr k ↦ Success-sent peer peers c ready h k (
          forward_loop-Success peers (record c { world = world_after peer c ready })
            (world_after-IsReady peer c ready))
    ]
  ]
