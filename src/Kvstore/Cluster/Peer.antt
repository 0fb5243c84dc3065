-- ===== src/Kvstore/Cluster/Peer.antt =====
-- A secondary that receives a writing command of the primary does it to itself and answers +OK.
use distributed_cloud_storag.Prelude.{
  ℕ, ◌≡◌, ◌≢◌, refl, sym, ap, ◌∙◌, true, false, List, [], ◌∷◌, ◌++◌, append_assoc, some, arith,
  All-append,
}
use distributed_cloud_storag.Prelude.Dict.{Bytes, eqb}
use distributed_cloud_storag.Text.{codes}
use distributed_cloud_storag.Text.Find.{Lacks}
use distributed_cloud_storag.Kvstore.Split.{split_command}
use distributed_cloud_storag.Kvstore.Split.RoundTrip.{
  getlines-commas, split_command_put, split_command_delete,
}
use distributed_cloud_storag.Kvstore.Config.{ServerInfo}
use distributed_cloud_storag.Kvstore.Server.{Server, Context, checkpoint_table, handle_append}
use distributed_cloud_storag.Kvstore.Forward.{Net}
use distributed_cloud_storag.Kvstore.Framing.{feed}
use distributed_cloud_storag.Kvstore.Framing.Frames.{crlf, feed_frame, then_feed}
use distributed_cloud_storag.Kvstore.Handle.{
  from_primary, ok_reply, local_put, local_delete, handle_put, handle_delete, handle_command,
}
use distributed_cloud_storag.Kvstore.Connection.{
  origin_of, checkpoint_at_threshold, finish, received, dispatch, receive, receive_enabled,
}
use distributed_cloud_storag.Kvstore.Recovery.Writes.{
  Write, put, delete, line, params, local, apply,
}
use distributed_cloud_storag.Kvstore.Recovery.Replay.{local-Kept}
use distributed_cloud_storag.Kvstore.Cluster.{lone, opened, replies, peer_step}

-- A text that a command can carry.
abbrev pub Carried : Bytes → Type 0
Carried s = Lacks b',' s × Lacks b'\r' s

-- The writes that depend on no stored value, with texts that a command can carry.
abbrev pub IsSendable : Write → Type 0
IsSendable (put row col value) = Carried row × Carried col × Carried value
IsSendable (Write.cput row col old new) = ⊥
IsSendable (delete row col) = Carried row × Carried col

pub record IsReady (s : Server) : Type 0 where
  pub enabled : s.enabled ≡ true
  pub awake : s.initializing ≡ false
  pub secondary : s.info.is_primary ≡ false

-- A write with a mark as its last parameter is split into its parameters and the mark.
pub split_command-mark :
    (w : Write) (m : Bytes)
    → IsSendable w
    → Lacks b',' m
    → m ≢ []
    → split_command (line w ++ b',' ∷ m) ≡ params w ++ m ∷ []
split_command-mark (put row col value) m (hr, hc, hv) l n =
    ap split_command shape
    ∙ split_command_put _
    ∙ ap (λ t. codes "PUT " ∷ t)
        (getlines-commas (row ∷ col ∷ value ∷ m ∷ []) (hr.0, (hc.0, (hv.0, (l, tt)))) n)
  where
    shape :
        line (put row col value) ++ b',' ∷ m
        ≡ codes "PUT " ++ (row ++ b',' ∷ (col ++ b',' ∷ (value ++ b',' ∷ m)))
    shape = simp append_assoc
split_command-mark (Write.cput row col old new) m h l n = absurd h
split_command-mark (delete row col) m (hr, hc) l n =
    ap split_command shape
    ∙ split_command_delete _
    ∙ ap (λ t. codes "DELETE " ∷ t) (getlines-commas (row ∷ col ∷ m ∷ []) (hr.0, (hc.0, (l, tt))) n)
  where
    shape : line (delete row col) ++ b',' ∷ m ≡ codes "DELETE " ++ (row ++ b',' ∷ (col ++ b',' ∷ m))
    shape = simp append_assoc

-- What the primary sends, without the line end.
abbrev marked : Write → Bytes
marked w = line w ++ codes ",PRIMARY"

abbrev marked_params : Write → List Bytes
marked_params w = params w ++ codes "PRIMARY" ∷ []

split_command-marked : (w : Write) → IsSendable w → split_command (marked w) ≡ marked_params w
split_command-marked w h = split_command-mark w (codes "PRIMARY") h (omega arith) (λ e. cc)

origin_of-marked : (w : Write) → IsSendable w → origin_of (marked_params w) ≡ from_primary
unfolding origin_of eqb
origin_of-marked (put row col value) h = refl
origin_of-marked (Write.cput row col old new) h = absurd h
origin_of-marked (delete row col) h = refl

handle_command-marked :
    {W : Type 0} (net : Net W) (w : Write) (c : Context W)
    → IsSendable w
    → c.server.initializing ≡ false
    → c.server.info.is_primary ≡ false
    → handle_command net (marked_params w) from_primary c ≡ some (local w c)
unfolding handle_command eqb local_put local_delete
handle_command-marked net (put row col value) c h a b = rw (handle_put, a, b)
handle_command-marked net (Write.cput row col old new) c h a b = absurd h
handle_command-marked net (delete row col) c h a b = rw (handle_delete, a, b)

pub msg-local : {W : Type 0} (w : Write) (c : Context W) → IsSendable w → (local w c).msg ≡ ok_reply
unfolding local_put local_delete
msg-local (put row col value) c h = refl
msg-local (Write.cput row col old new) c h = absurd h
msg-local (delete row col) c h = refl

carried_fields : (p q : Bytes) → Lacks b'\r' p → Lacks b'\r' q → Lacks b'\r' (p ++ b',' ∷ q)
carried_fields p q hp hq = All-append _ p (b',' ∷ q) hp (omega arith, hq)

pub line-Lacks : (w : Write) → IsSendable w → Lacks b'\r' (line w)
line-Lacks (put row col value) (hr, hc, hv) =
    All-append _ (codes "PUT ") (row ++ b',' ∷ (col ++ b',' ∷ value)) (omega arith)
      (carried_fields row (col ++ b',' ∷ value) hr.1 (carried_fields col value hc.1 hv.1))
line-Lacks (Write.cput row col old new) h = absurd h
line-Lacks (delete row col) (hr, hc) =
    All-append _ (codes "DELETE ") (row ++ b',' ∷ col) (omega arith)
      (carried_fields row col hr.1 hc.1)

-- The state of the peer behind the command.
abbrev pub after : ℕ → Write → Server → Server
after now w s = checkpoint_at_threshold now (local w (opened s).context).server

pub table-after : (now : ℕ) (w : Write) (s : Server) → (after now w s).table ≡ apply w s.table
unfolding checkpoint_at_threshold checkpoint_table
table-after now w s = ground (arith, (local-Kept w (opened s).context).table)

pub record Steady (s s' : Server) : Type 0 where
  pub enabled : s'.enabled ≡ s.enabled
  pub initializing : s'.initializing ≡ s.initializing
  pub info : s'.info ≡ s.info
  pub servers : s'.servers ≡ s.servers

pub local-Steady :
    {W : Type 0} (w : Write) (c : Context W) → IsSendable w → Steady c.server (local w c).server
unfolding local_put local_delete handle_append
local-Steady (put row col value) c h = ground arith
local-Steady (Write.cput row col old new) c h = absurd h
local-Steady (delete row col) c h = ground arith

pub checkpoint-Steady : (now : ℕ) (s : Server) → Steady s (checkpoint_at_threshold now s)
unfolding checkpoint_at_threshold checkpoint_table
checkpoint-Steady now s = ground arith

after-IsReady :
    (now : ℕ) (w : Write) (s : Server) → IsSendable w → IsReady s → IsReady (after now w s)
after-IsReady now w s h r =
    let a = local-Steady w (opened s).context h in
    let b = checkpoint-Steady now (local w (opened s).context).server in
    record {
      enabled = b.enabled ∙ a.enabled ∙ r.enabled;
      awake = b.initializing ∙ a.initializing ∙ r.awake;
      secondary = ap (λ (i : ServerInfo). i.is_primary) (b.info ∙ a.info) ∙ r.secondary;
    }

dispatch-marked :
    (now : ℕ) (w : Write) (s : Server)
    → IsSendable w
    → IsReady s
    → dispatch lone now (marked w) ((opened s).context, [])
      ≡ some (record (local w (opened s).context) { server = after now w s }, ok_reply ∷ [])
unfolding dispatch finish
dispatch-marked now w s h r =
    ap (λ ps. finish now (handle_command lone ps (origin_of ps) (opened s).context) [])
      (split_command-marked w h)
    ∙ ap (λ o. finish now (handle_command lone (marked_params w) o (opened s).context) [])
        (origin_of-marked w h)
    ∙ ap (λ r. finish now r [])
        (handle_command-marked lone w (opened s).context h r.awake r.secondary)
    ∙ ap (λ m. some (record (local w (opened s).context) { server = after now w s }, m ∷ []))
        (msg-local w (opened s).context h)

receive-marked :
    (now : ℕ) (w : Write) (s : Server)
    → IsSendable w
    → IsReady s
    → receive lone now (marked w ++ crlf []) (opened s)
      ≡ some (record {
        context = record (local w (opened s).context) { server = after now w s };
        command = [];
        sent = ok_reply ∷ [];
      })
unfolding received feed
receive-marked now w s h r =
    receive_enabled lone now (marked w ++ crlf []) (opened s) r.enabled
    ∙ ap received (
        feed_frame (dispatch lone now) (marked w) [] [] ((opened s).context, [])
          (All-append _ (line w) (codes ",PRIMARY") (line-Lacks w h) (omega arith))
        ∙ ap (then_feed (dispatch lone now) []) (dispatch-marked now w s h r))

-- The peer does the command to itself, answers "+OK" and is as ready as before.
pub peer_step-sent :
    (now : ℕ) (w : Write) (s : Server)
    → IsSendable w
    → IsReady s
    → (s' : Server) × (peer_step now (line w ++ codes ",PRIMARY\r\n") s ≡ some (s', ok_reply))
      × (s'.table ≡ apply w s.table)
      × IsReady s'
unfolding peer_step
peer_step-sent now w s h r = (
  after now w s,
  ap (λ t. replies (receive lone now t (opened s)))
        (sym (append_assoc (line w) (codes ",PRIMARY") (crlf [])))
      ∙ ap replies (receive-marked now w s h r),
  table-after now w s,
  after-IsReady now w s h r,
)
