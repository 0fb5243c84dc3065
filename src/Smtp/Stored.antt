-- ===== src/Smtp/Stored.antt =====
-- A mail that the SMTP server puts to a key-value server, in the replica group of that server.
use distributed_cloud_storag.Prelude.{
  ℕ, ◌≡◌, ◌≢◌, refl, ap, ◌∙◌, true, false, ◌&&◌, List, [], ◌∷◌, ◌++◌, append_assoc, some, arith,
  if◌then◌else◌, All-append,
}
use distributed_cloud_storag.Prelude.Dict.{Bytes, eqb, eqb_refl}
use distributed_cloud_storag.Prelude.Int.{ℤ}
use distributed_cloud_storag.Text.{codes}
use distributed_cloud_storag.Text.Find.{Lacks}
use distributed_cloud_storag.Text.Getline.{getlines, getlines-append}
use distributed_cloud_storag.Kvstore.Config.{group_of}
use distributed_cloud_storag.Kvstore.Split.{split_command}
use distributed_cloud_storag.Kvstore.Split.RoundTrip.{getlines-commas, split_command_put}
use distributed_cloud_storag.Kvstore.Table.{Table, get, get-set}
use distributed_cloud_storag.Kvstore.Server.{Context}
use distributed_cloud_storag.Kvstore.Forward.{Net}
use distributed_cloud_storag.Kvstore.Framing.{feed}
use distributed_cloud_storag.Kvstore.Framing.Frames.{crlf, feed_frame, then_feed}
use distributed_cloud_storag.Kvstore.Handle.{
  Origin, ok_reply, local_put, handle_put, handle_command,
}
use distributed_cloud_storag.Kvstore.Connection.{
  Connection, origin_of, checkpoint_at_threshold, finish, received, dispatch, receive,
  receive_enabled,
}
use distributed_cloud_storag.Kvstore.Recovery.Writes.{Write, put, line, params, apply}
use distributed_cloud_storag.Kvstore.Cluster.{Cluster, cluster_net, is_live}
use distributed_cloud_storag.Kvstore.Cluster.Peer.{Carried, IsSendable, IsReady, line-Lacks}
use distributed_cloud_storag.Kvstore.Cluster.Replication.{write_replicates}
use distributed_cloud_storag.Kvstore.Alone.{checkpoint_at_threshold-table}
use distributed_cloud_storag.Smtp.State.{World}
use distributed_cloud_storag.Smtp.Delivery.{put_mail}

-- The encoder gives a text of its alphabet, which has neither comma nor "\r"; only the empty text
-- has an empty code.
pub record IsBase64 (encode : Bytes → Bytes) : Type 0 where
  pub carried : (s : Bytes) → Carried (encode s)
  pub full : (s : Bytes) → s ≢ [] → encode s ≢ []

module _ (w : World) where
  -- The column of a mail.
  abbrev pub mail_key : Bytes → Bytes → Bytes
  mail_key from user = codes "/emails/" ++ (from ++ (codes "/" ++ w.base64 (w.date user)))

  abbrev mail_write : Bytes → Bytes → Bytes → Write
  mail_write from user m = put user (mail_key from user) (w.base64 m)

  put_mail-line :
      (from user m : Bytes) → put_mail w from user m ≡ line (mail_write from user m) ++ crlf []
  unfolding put_mail
  put_mail-line from user m = simp append_assoc

  module _ (now : ℕ) (from user m : Bytes) (b : IsBase64 w.base64) where
    abbrev mail : Write
    mail = mail_write from user m

    mail-IsSendable : Carried from → Carried user → IsSendable mail
    mail-IsSendable f u =
        let t = b.carried (w.date user) in
        (
          u,
          (
            All-append _ (codes "/emails/") (from ++ (codes "/" ++ w.base64 (w.date user)))
                (omega arith)
                (All-append _ from (codes "/" ++ w.base64 (w.date user)) f.0 (omega arith, t.0)),
            All-append _ (codes "/emails/") (from ++ (codes "/" ++ w.base64 (w.date user)))
                (omega arith)
                (All-append _ from (codes "/" ++ w.base64 (w.date user)) f.1 (omega arith, t.1)),
          ),
          b.carried m,
        )

    split_command-mail : IsSendable mail → m ≢ [] → split_command (line mail) ≡ params mail
    split_command-mail (u, k, v) n =
        split_command_put _
        ∙ ap (λ t. codes "PUT " ∷ t)
            (getlines-commas (user ∷ mail_key from user ∷ w.base64 m ∷ []) (u.0, (k.0, (v.0, tt)))
              (b.full m n))

    get-mail : (t : Table) → get (apply mail t) user (mail_key from user) ≡ some (w.base64 m)
    get-mail t = get-set t user (mail_key from user) (w.base64 m) user (mail_key from user) ∙ (λ i.
        if eqb_refl user i && eqb_refl (mail_key from user) i
        then some (w.base64 m)
        else get t user (mail_key from user))

    abbrev net : Net Cluster
    net = cluster_net now

    dispatched :
        (k : Connection Cluster) (c' : Context Cluster)
        → IsSendable mail
        → m ≢ []
        → handle_command net (params mail) (origin_of (params mail)) k.context ≡ some c'
        → c'.msg ≡ ok_reply
        → dispatch net now (line mail) (k.context, k.sent)
          ≡ some (
            record c' { server = checkpoint_at_threshold now c'.server },
            k.sent ++ ok_reply ∷ [],
          )
    unfolding dispatch finish
    dispatched k c' s n e ok =
        ap (λ ps. finish now (handle_command net ps (origin_of ps) k.context) k.sent)
          (split_command-mail s n)
        ∙ ap (λ r. finish now r k.sent) e
        ∙ (λ i.
            some
              (record c' { server = checkpoint_at_threshold now c'.server }, k.sent ++ ok i ∷ []))

    -- The primary of a group, which is enabled and not starting, waits for a command, while every
    -- server behind the network is enabled, not starting and no primary. It is sent the command for
    -- a mail that is not empty, whose sender and user have neither comma nor "\r". Then it answers
    -- "+OK", and the encoded mail is read under the user and the mail's column at the primary and at
    -- each live secondary of its group.
    pub receive-put_mail :
        (k : Connection Cluster)
        → Carried from
        → Carried user
        → m ≢ []
        → k.command ≡ []
        → k.context.server.enabled ≡ true
        → k.context.server.initializing ≡ false
        → k.context.server.info.is_primary ≡ true
        → ((p : ℤ) → IsReady (k.context.world p))
        → (k' : Connection Cluster) × (receive (cluster_net now) now (put_mail w from user m) k
            ≡ some k')
          × (k'.sent ≡ k.sent ++ ok_reply ∷ [])
          × (get k'.context.server.table user (mail_key from user) ≡ some (w.base64 m))
          × ((p : ℤ)
              → is_live p (group_of k.context.server.info.replica_group k.context.server.servers)
                ≡ true
              → get (k'.context.world p).table user (mail_key from user) ≡ some (w.base64 m))
    unfolding received feed
    receive-put_mail k f u n empty on awake is_primary ready =
        let s = mail-IsSendable f u in
        let (c', e, ok, table, views, others) =
          write_replicates now mail (origin_of (params mail)) k.context s awake is_primary ready in
        (
          record {
            context = record c' { server = checkpoint_at_threshold now c'.server };
            command = [];
            sent = k.sent ++ ok_reply ∷ [];
          },
          (λ i. receive net now (put_mail-line from user m i) k)
              ∙ receive_enabled net now (line mail ++ crlf []) k on
              ∙ (λ i.
                  received
                    (feed (dispatch net now) (line mail ++ crlf []) (empty i) (k.context, k.sent)))
              ∙ ap received (
                  feed_frame (dispatch net now) (line mail) [] [] (k.context, k.sent)
                    (line-Lacks mail s)
                  ∙ ap (then_feed (dispatch net now) []) (dispatched k c' s n e ok)),
          refl,
          (λ i.
                get ((checkpoint_at_threshold-table now c'.server ∙ table) i) user
                  (mail_key from user))
              ∙ get-mail k.context.server.table,
          λ p l.
              views p user (mail_key from user)
              ∙ (λ i.
                  get
                    (if l i
                      then apply mail (k.context.world p).table
                      else (k.context.world p).table)
                    user (mail_key from user))
              ∙ get-mail (k.context.world p).table,
        )

-- A PUT takes no notice of what is behind its fourth parameter.
handle_command-more :
    {W : Type 0} (net : Net W) (row col value : Bytes) (more : List Bytes) (o : Origin)
    (c : Context W)
    → handle_command net (codes "PUT " ∷ row ∷ col ∷ value ∷ more) o c
      ≡ handle_command net (params (put row col value)) o c
unfolding handle_command handle_put eqb local_put
handle_command-more net row col value more o c = ground arith

module _ {W : Type 0} (net : Net W) (w : World) where
  -- A mail for a user whose name is "victim,col,value", of which the three parts have no comma, is
  -- put by a command that a key-value server takes for "PUT victim,col,value", whoever sent it.
  pub put_mail-injected :
      (from victim col value m : Bytes) (o : Origin) (c : Context W)
      → Lacks b',' victim
      → Lacks b',' col
      → Lacks b',' value
      → (text : Bytes) × (put_mail w from (victim ++ b',' ∷ (col ++ b',' ∷ value)) m
          ≡ text ++ crlf [])
        × (handle_command net (split_command text) o c
            ≡ handle_command net (params (put victim col value)) o c)
  put_mail-injected from victim col value m o c hv hc hx =
      let user = victim ++ b',' ∷ (col ++ b',' ∷ value) in
      let rest = mail_key w from user ++ b',' ∷ w.base64 m in
      (
        line (mail_write w from user m),
        put_mail-line w from user m,
        ap (λ ps. handle_command net ps o c)
              (split_command_put _
                ∙ ap (λ t. codes "PUT " ∷ getlines b',' t) (shape victim col value rest)
                ∙ ap (λ l. codes "PUT " ∷ l)
                    (getlines-append b',' victim (col ++ b',' ∷ (value ++ b',' ∷ rest)) hv
                      ∙ ap (λ l. victim ∷ l)
                          (getlines-append b',' col (value ++ b',' ∷ rest) hc
                            ∙ ap (λ l. col ∷ l) (getlines-append b',' value rest hx))))
            ∙ handle_command-more net victim col value (getlines b',' rest) o c,
      )
    where
      shape :
          (v k x r : Bytes)
          → (v ++ b',' ∷ (k ++ b',' ∷ x)) ++ b',' ∷ r ≡ v ++ b',' ∷ (k ++ b',' ∷ (x ++ b',' ∷ r))
      shape v k x r = simp append_assoc
