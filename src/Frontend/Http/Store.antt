-- ===== src/Frontend/Http/Store.antt =====
-- The frontend in front of one key-value server: the socket of a connection carries a command to
-- `threadFunc` of backend/kvstore/kvstore.cc and its reply back.
use distributed_cloud_storag.Prelude.{ℕ, ◌≡◌, ◌≢◌, ap, [], ◌∷◌, ◌++◌, Option, none, some}
use distributed_cloud_storag.Prelude.Dict.{Bytes}
use distributed_cloud_storag.Text.{codes}
use distributed_cloud_storag.Kvstore.Table.{Table, get}
use distributed_cloud_storag.Kvstore.Server.{Server}
use distributed_cloud_storag.Kvstore.Framing.Frames.{crlf}
use distributed_cloud_storag.Kvstore.Handle.{ok_reply}
use distributed_cloud_storag.Kvstore.Handle.Replies.{get_reply}
use distributed_cloud_storag.Kvstore.Recovery.Writes.{Write, line, apply}
use distributed_cloud_storag.Kvstore.Cluster.{peer_step}
use distributed_cloud_storag.Kvstore.Cluster.Peer.{Carried}
use distributed_cloud_storag.Kvstore.Alone.{IsAlone, IsWrite, peer_step-write, peer_step-get}
use distributed_cloud_storag.Frontend.Http.State.{Site}

-- A fault of the server gives no reply.
unfoldable pub answered : Server → Option (Server × Bytes) → Bytes × Server
answered s none = ([], s)
answered s (some (s', reply)) = (reply, s')

unfoldable pub ask_server : ℕ → Bytes → Server → Bytes × Server
unfolding answered
ask_server now command s = answered s (peer_step now command s)

-- The base64 of OpenSSL, of a text that is encoded and then decoded.
pub record Codec : Type 0 where
  pub encode : Bytes → Bytes
  pub decode : Bytes → Bytes
  pub carried : (s : Bytes) → Carried (encode s)
  pub full : (s : Bytes) → s ≢ [] → encode s ≢ []
  pub decoded : (s : Bytes) → decode (encode s) ≡ s

-- The master names this server for every user. Mails are not looked at here.
abbrev pub one_server : ℕ → Codec → Site Server
one_server now codec = record {
  ask = ask_server now;
  connect = λ u s. s;
  mail = λ m s. s;
  encode = codec.encode;
  decode = codec.decode;
}

-- A server in which every GET reads as in `t`, and which is alone.
abbrev pub Holds : Table → Server → Type 0
Holds t s = (s.table ≡ t) × IsAlone s

pub ask_server-write :
    (now : ℕ) (w : Write) (s : Server)
    → IsWrite w
    → IsAlone s
    → (s' : Server) × (ask_server now (line w ++ crlf []) s ≡ (ok_reply, s'))
      × Holds (apply w s.table) s'
unfolding ask_server answered
ask_server-write now w s h a =
    let (s', e, t, b) = peer_step-write now w s h a in (s', ap (answered s) e, (t, b))

pub ask_server-get :
    (now : ℕ) (row col : Bytes) (s : Server)
    → Carried row
    → Carried col
    → col ≢ []
    → IsAlone s
    → (s' : Server) × (ask_server now (codes "GET " ++ (row ++ b',' ∷ (col ++ crlf []))) s
        ≡ (get_reply (get s.table row col), s'))
      × Holds s.table s'
unfolding ask_server answered
ask_server-get now row col s r k n a =
    let (s', e, t, b) = peer_step-get now row col s r k n a in (s', ap (answered s) e, (t, b))
