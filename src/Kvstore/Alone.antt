-- ===== src/Kvstore/Alone.antt =====
-- A key-value server that is the primary of a group with no other server, as a client of it sees
-- it: `threadFunc` and `handleCommand` of backend/kvstore/kvstore.cc, a command at a time.
use distributed_cloud_storag.Prelude.{
  ℕ, ◌≡◌, ◌≢◌, ap, ◌∙◌, true, false, [], ◌∷◌, ◌++◌, append-nil, append_assoc, some, arith,
  All-append,
}
use distributed_cloud_storag.Prelude.Dict.{Bytes}
use distributed_cloud_storag.Text.{codes}
use distributed_cloud_storag.Text.Find.{Lacks}
use distributed_cloud_storag.Kvstore.Split.{split_command}
use distributed_cloud_storag.Kvstore.Split.RoundTrip.{
  getlines-commas, split_command_put, split_command_delete, split_command_get,
}
use distributed_cloud_storag.Kvstore.Config.{ServerInfo, group_of}
use distributed_cloud_storag.Kvstore.Table.{get}
use distributed_cloud_storag.Kvstore.Server.{Server, Context, checkpoint_table}
use distributed_cloud_storag.Kvstore.Forward.{Net, forward_loop, forward_to_all}
use distributed_cloud_storag.Kvstore.Framing.{feed}
use distributed_cloud_storag.Kvstore.Framing.Frames.{crlf, feed_frame, then_feed}
use distributed_cloud_storag.Kvstore.Handle.{Origin, ok_reply, after_forward, handle_command}
use distributed_cloud_storag.Kvstore.Handle.Replies.{get_reply, get_params, handle_command-get}
use distributed_cloud_storag.Kvstore.Connection.{
  origin_of, checkpoint_at_threshold, finish, received, dispatch, receive, receive_enabled,
}
use distributed_cloud_storag.Kvstore.Recovery.Writes.{
  Write, put, delete, line, params, local, apply,
}
use distributed_cloud_storag.Kvstore.Cluster.{lone, opened, replies, peer_step}
use distributed_cloud_storag.Kvstore.Cluster.Replication.{handle_command-primary}
use distributed_cloud_storag.Kvstore.Cluster.Peer.{
  Carried, IsSendable, line-Lacks, msg-local, after, table-after, Steady, local-Steady,
  checkpoint-Steady,
}

pub record IsAlone (s : Server) : Type 0 where
  pub enabled : s.enabled ≡ true
  pub awake : s.initializing ≡ false
  pub primary : s.info.is_primary ≡ true
  pub others : group_of s.info.replica_group s.servers ≡ []

-- The parameters are taken apart again only if the last one has a byte.
abbrev pub IsWrite : Write → Type 0
IsWrite (put row col value) = IsSendable (put row col value) × (value ≢ [])
IsWrite (Write.cput row col old new) = ⊥
IsWrite (delete row col) = IsSendable (delete row col) × (col ≢ [])

sendable : (w : Write) → IsWrite w → IsSendable w
sendable (put row col value) h = h.0
sendable (Write.cput row col old new) h = h
sendable (delete row col) h = h.0

split_command-write : (w : Write) → IsWrite w → split_command (line w) ≡ params w
split_command-write (put row col value) ((hr, hc, hv), n) =
    split_command_put _
    ∙ ap (λ t. codes "PUT " ∷ t)
        (getlines-commas (row ∷ col ∷ value ∷ []) (hr.0, (hc.0, (hv.0, tt))) n)
split_command-write (Write.cput row col old new) h = absurd h
split_command-write (delete row col) ((hr, hc), n) =
    split_command_delete _
    ∙ ap (λ t. codes "DELETE " ∷ t) (getlines-commas (row ∷ col ∷ []) (hr.0, (hc.0, tt)) n)

pub checkpoint_at_threshold-table :
    (now : ℕ) (s : Server) → (checkpoint_at_threshold now s).table ≡ s.table
unfolding checkpoint_at_threshold checkpoint_table
checkpoint_at_threshold-table now s = ground arith

forward_to_all-alone :
    {W : Type 0} (net : Net W) (command : Bytes) (c : Context W)
    → group_of c.server.info.replica_group c.server.servers ≡ []
    → forward_to_all net command c ≡ (true, c)
unfolding forward_to_all forward_loop
forward_to_all-alone net command c e = λ i. forward_loop net command (e i) c

handle_command-alone :
    {W : Type 0} (net : Net W) (w : Write) (o : Origin) (c : Context W)
    → IsSendable w
    → IsAlone c.server
    → handle_command net (params w) o c ≡ some (local w c)
unfolding after_forward
handle_command-alone net w o c h a =
    let (error, e) = handle_command-primary net w o c h a.awake a.primary in
    e ∙ ap (λ r. some (after_forward r (local w) error)) (forward_to_all-alone net _ c a.others)

Steady-IsAlone : (s s' : Server) → Steady s s' → IsAlone s → IsAlone s'
Steady-IsAlone s s' d a = record {
  enabled = d.enabled ∙ a.enabled;
  awake = d.initializing ∙ a.awake;
  primary = ap (λ (i : ServerInfo). i.is_primary) d.info ∙ a.primary;
  others = (λ i. group_of (d.info i).replica_group (d.servers i)) ∙ a.others;
}

-- A PUT or DELETE that can be sent is done and acknowledged, and the server stays alone.
pub peer_step-write :
    (now : ℕ) (w : Write) (s : Server)
    → IsWrite w
    → IsAlone s
    → (s' : Server) × (peer_step now (line w ++ crlf []) s ≡ some (s', ok_reply))
      × (s'.table ≡ apply w s.table)
      × IsAlone s'
unfolding peer_step replies received feed dispatch finish
peer_step-write now w s h a =
    let c = (opened s).context in
    (
      after now w s,
      ap replies (
          receive_enabled lone now (line w ++ crlf []) (opened s) a.enabled
          ∙ ap received (
              feed_frame (dispatch lone now) (line w) [] [] (c, []) (line-Lacks w (sendable w h))
              ∙ ap (then_feed (dispatch lone now) []) (
                  ap (λ ps. finish now (handle_command lone ps (origin_of ps) c) [])
                    (split_command-write w h)
                  ∙ ap (λ r. finish now r [])
                      (handle_command-alone lone w (origin_of (params w)) c (sendable w h) a)
                  ∙ ap (λ m. some (record (local w c) { server = after now w s }, m ∷ []))
                      (msg-local w c (sendable w h))))),
      table-after now w s,
      Steady-IsAlone (local w c).server (after now w s) (checkpoint-Steady now (local w c).server)
          (Steady-IsAlone s (local w c).server (local-Steady w c (sendable w h)) a),
    )

get_line : Bytes → Bytes → Bytes
get_line row col = codes "GET " ++ (row ++ b',' ∷ col)

split_command-get :
    (row col : Bytes)
    → Lacks b',' row
    → Lacks b',' col
    → col ≢ []
    → split_command (get_line row col) ≡ get_params row col
unfolding get_line
split_command-get row col r c n =
    split_command_get _
    ∙ ap (λ t. codes "GET " ∷ t) (getlines-commas (row ∷ col ∷ []) (r, (c, tt)) n)

-- A GET is answered from the table, which stays.
pub peer_step-get :
    (now : ℕ) (row col : Bytes) (s : Server)
    → Carried row
    → Carried col
    → col ≢ []
    → IsAlone s
    → (s' : Server) × (peer_step now (codes "GET " ++ (row ++ b',' ∷ (col ++ crlf []))) s
        ≡ some (s', get_reply (get s.table row col)))
      × (s'.table ≡ s.table)
      × IsAlone s'
unfolding peer_step replies received feed dispatch finish get_line
peer_step-get now row col s r k n a =
    let c = (opened s).context in
    let shape : codes "GET " ++ (row ++ b',' ∷ (col ++ crlf [])) ≡ get_line row col ++ crlf [] =
      simp append_assoc in
    let lacks : Lacks b'\r' (get_line row col) =
      All-append _ (codes "GET ") (row ++ b',' ∷ col) (omega arith)
        (All-append _ row (b',' ∷ col) r.1 (omega arith, k.1)) in
    (
      checkpoint_at_threshold now s,
      (λ i. replies (receive lone now (shape i) (opened s)))
          ∙ ap replies (
              receive_enabled lone now (get_line row col ++ crlf []) (opened s) a.enabled
              ∙ ap received (
                  feed_frame (dispatch lone now) (get_line row col) [] [] (c, []) lacks
                  ∙ ap (then_feed (dispatch lone now) []) (
                      ap (λ ps. finish now (handle_command lone ps (origin_of ps) c) [])
                        (split_command-get row col r.0 k.0 n)
                      ∙ ap (λ q. finish now q [])
                          (handle_command-get lone row col (origin_of (get_params row col)) c))))
          ∙ (λ i.
              some (checkpoint_at_threshold now s, append-nil (get_reply (get s.table row col)) i)),
      checkpoint_at_threshold-table now s,
      Steady-IsAlone s (checkpoint_at_threshold now s) (checkpoint-Steady now s) a,
    )
