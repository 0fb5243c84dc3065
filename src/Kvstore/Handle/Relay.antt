-- ===== src/Kvstore/Handle/Relay.antt =====
-- What a secondary does with a write of a frontend, or of a peer.
use distributed_cloud_storag.Prelude.{◌≡◌, Bool, true, false, ◌++◌, some, arith, if◌then◌else◌}
use distributed_cloud_storag.Prelude.Dict.{Bytes, eqb}
use distributed_cloud_storag.Text.{codes}
use distributed_cloud_storag.Kvstore.Server.{Context}
use distributed_cloud_storag.Kvstore.Forward.{
  Dial, no_socket, refused, answer, Net, has_ok, dial, forward_to_primary,
}
use distributed_cloud_storag.Kvstore.Handle.{
  from_frontend, ok_reply, handle_put, handle_cput, handle_delete, handle_command, after_relay,
}
use distributed_cloud_storag.Kvstore.Recovery.Writes.{Write, put, cput, delete, line, params}

-- Whether the secondary takes the write for done.
abbrev pub acknowledged : Dial → Bool
acknowledged no_socket = true
acknowledged refused = true
acknowledged (answer response) = has_ok response

abbrev relay_error : Write → Bytes
relay_error (put row col value) = codes "-ERR Returned by Server while writing PUT Values\r\n"
relay_error (cput row col old new) = codes "-ERR Error Editing the values\r\n"
relay_error (delete row col) = codes "-ERR Error Deleting Values\r\n"

-- What the primary makes of the relayed command.
abbrev relayed : {W : Type 0} → Net W → Write → Context W → Dial × W
relayed net w c = net c.server.primary (line w ++ codes ",SECONDARY\r\n") c.world

-- A secondary that serves passes a frontend's write on to its primary, and does nothing to its own
-- table and files. It answers "+OK" if the primary's answer holds "+OK", and also if the primary
-- cannot be reached at all; otherwise it answers with the error of the command.
pub relay_lem :
    {W : Type 0} (net : Net W) (w : Write) (c : Context W)
    → c.server.initializing ≡ false
    → c.server.info.is_primary ≡ false
    → handle_command net (params w) from_frontend c
      ≡ some (record c {
        msg = if acknowledged (relayed net w c).0 then ok_reply else relay_error w;
        world = (relayed net w c).1;
      })
unfolding handle_command eqb handle_put handle_cput handle_delete forward_to_primary dial
    after_relay
relay_lem net (put row col value) c a b = ground arith
relay_lem net (cput row col old new) c a b = ground arith
relay_lem net (delete row col) c a b = ground arith
