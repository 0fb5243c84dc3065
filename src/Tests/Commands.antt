-- ===== src/Tests/Commands.antt =====
-- Commands of one server.
use distributed_cloud_storag.Prelude.{
  ◌≡◌, refl, false, List, [], ◌∷◌, ◌++◌, some, arith, if◌then◌else◌,
}
use distributed_cloud_storag.Prelude.Dict.{Bytes, eqb, lookup}
use distributed_cloud_storag.Text.{codes, upper}
use distributed_cloud_storag.Text.Find.{Lacks-holds_no, find_byte, behind}
use distributed_cloud_storag.Kvstore.Table.{get, value_at}
use distributed_cloud_storag.Kvstore.Split.{split_command}
use distributed_cloud_storag.Text.Getline.{getlines}
use distributed_cloud_storag.Kvstore.Server.{Context}
use distributed_cloud_storag.Kvstore.Forward.{refused, Net}
use distributed_cloud_storag.Kvstore.Handle.{
  from_primary, from_frontend, ok_reply, handle_get, say, handle_command,
}
use distributed_cloud_storag.Kvstore.Handle.Replies.{
  get_params, cput_params, cput_entry, cput_lem, failed_cput_creates,
}
use distributed_cloud_storag.Kvstore.Handle.Relay.{relay_lem}
use distributed_cloud_storag.Kvstore.Recovery.Writes.{Write, put, IsReadable, params, line}
use distributed_cloud_storag.Kvstore.Connection.{
  dispatch, finish, origin_of, checkpoint_at_threshold,
}
use distributed_cloud_storag.Kvstore.Framing.{feed}
use distributed_cloud_storag.Kvstore.Cluster.Peer.{IsSendable}
use distributed_cloud_storag.Kvstore.Stale.{dispatch-secondary}
use distributed_cloud_storag.Kvstore.Framing.Frames.{
  frames, run_all, nothing_left, then_feed, feed_two, feed-frames, feed_cut_in_crlf,
}
use distributed_cloud_storag.Tests.Sample.{sample_table, server_at, context_of}

-- Nobody answers.
abbrev silent : Net (Unit {0})
silent info command world = (refused, world)

abbrev secondary : Context (Unit {0})
secondary = context_of (server_at 8001 false) tt

cput_lem_example :
    (c' : Context (Unit {0})) × (handle_command silent
        (cput_params (codes "row") (codes "col") (codes "old") (codes "new"))
        from_primary
        secondary
      ≡ some c')
    × (c'.msg ≡ (
        if eqb (value_at sample_table (codes "row") (codes "col")) (codes "old")
        then ok_reply
        else codes "-ERR Conditional Write Failed\r\n"))
    × ((r k : Bytes)
        → get c'.server.table r k
          ≡ cput_entry (codes "row") (codes "col") (codes "old") (codes "new") sample_table r k)
cput_lem_example =
    cput_lem silent (codes "row") (codes "col") (codes "old") (codes "new") secondary refl refl

failed_cput_creates_example :
    (c' : Context (Unit {0})) × (handle_command silent
        (cput_params (codes "row") (codes "other") (codes "old") (codes "new"))
        from_primary
        secondary
      ≡ some c')
    × (c'.msg ≡ codes "-ERR Conditional Write Failed\r\n")
    × (handle_command silent (get_params (codes "row") (codes "other")) from_primary secondary
        ≡ some (record secondary { msg = codes "-ERR Not Found\r\n" }))
    × (handle_command silent (get_params (codes "row") (codes "other")) from_primary c'
        ≡ some (record c' { msg = codes "+OK \r\n" }))
unfolding get eqb lookup
failed_cput_creates_example =
    failed_cput_creates silent (codes "row") (codes "other") (codes "old") (codes "new") secondary
      refl refl refl (λ e. ground arith)

abbrev write : Write
write = put (codes "row") (codes "col") (codes "new")

relay_lem_example :
    handle_command silent (params write) from_frontend secondary
    ≡ some (record secondary { msg = ok_reply; world = tt })
relay_lem_example = relay_lem silent write secondary refl refl

write-IsReadable : IsReadable write
write-IsReadable = (
  (Lacks-holds_no b',' (codes "row") refl, Lacks-holds_no b'\n' (codes "row") refl),
  (Lacks-holds_no b',' (codes "col") refl, Lacks-holds_no b'\n' (codes "col") refl),
  (Lacks-holds_no b',' (codes "new") refl, Lacks-holds_no b'\n' (codes "new") refl),
  λ e. ground arith,
)

-- Two commands in one read.
abbrev commands : List Bytes
commands = codes "GET row,col" ∷ codes "PUT row,col,new,PRIMARY" ∷ []

feed-frames_example :
    feed (dispatch silent 7) (frames commands) [] (secondary, [])
    ≡ nothing_left (dispatch silent 7) (run_all (dispatch silent 7) commands (secondary, []))
feed-frames_example =
    feed-frames (dispatch silent 7) commands (secondary, [])
      (
        Lacks-holds_no b'\r' (codes "GET row,col") refl,
        (Lacks-holds_no b'\r' (codes "PUT row,col,new,PRIMARY") refl, tt),
      )

feed_cut_in_crlf_example :
    feed_two (dispatch silent 7) (codes "GET row,col\r") (codes "\nGET row,col\r\n") (secondary, [])
    ≡ then_feed
        (dispatch silent 7)
        []
        (dispatch silent 7 (codes "GET row,col\r\nGET row,col") (secondary, []))
feed_cut_in_crlf_example =
    feed_cut_in_crlf (dispatch silent 7) (codes "GET row,col") (codes "GET row,col") []
      (secondary, []) (Lacks-holds_no b'\r' (codes "GET row,col") refl)
      (Lacks-holds_no b'\r' (codes "GET row,col") refl)

write-IsSendable : IsSendable write
write-IsSendable =
    ((omega arith, omega arith), (omega arith, omega arith), (omega arith, omega arith))

-- A GET of a missing entry is answered, and then a write of another secondary.
missing_run :
    dispatch silent 7 (codes "GET row,none") (secondary, [])
    ≡ some (record secondary { msg = codes "-ERR Not Found\r\n" }, codes "-ERR Not Found\r\n" ∷ [])
unfolding dispatch finish handle_command handle_get get lookup eqb say split_command origin_of
    checkpoint_at_threshold getlines find_byte behind upper
missing_run = refl

dispatch-secondary_example :
    (c₂ : Context (Unit {0})) × (reply : Bytes) × (codes "-ERR Not Found\r\n" ∷ [] ≡ reply ∷ [])
    × (dispatch silent 7
          (line write ++ codes ",SECONDARY")
          (record secondary { msg = codes "-ERR Not Found\r\n" }, codes "-ERR Not Found\r\n" ∷ [])
        ≡ some (c₂, reply ∷ reply ∷ []))
    × (c₂.server.table ≡ sample_table)
    × (c₂.world ≡ tt)
dispatch-secondary_example =
    dispatch-secondary silent 7 (codes "GET row,none") write secondary
      (record secondary { msg = codes "-ERR Not Found\r\n" }) [] (codes "-ERR Not Found\r\n" ∷ [])
      write-IsSendable missing_run refl refl
