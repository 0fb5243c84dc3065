-- ===== src/Kvstore/Connection.antt =====
-- `threadFunc` of backend/kvstore/kvstore.cc: one connection of a client or of another server.
use distributed_cloud_storag.Prelude.{
  ℕ, ◌≡◌, arith, true, ◌&&◌, ◌||◌, List, [], ◌∷◌, ◌++◌, Option, none, some, leb, ◌==◌,
  if◌then◌else◌, length, last_or,
}
use distributed_cloud_storag.Prelude.Dict.{Bytes, eqb}
use distributed_cloud_storag.Text.{codes}
use distributed_cloud_storag.Kvstore.Split.{split_command}
use distributed_cloud_storag.Kvstore.Server.{Server, Context, threshold, checkpoint_table}
use distributed_cloud_storag.Kvstore.Forward.{Net}
use distributed_cloud_storag.Kvstore.Handle.{
  Origin, from_primary, from_secondary, from_frontend, arg, say, handle_command,
}
use distributed_cloud_storag.Kvstore.Framing.{feed}

-- A writing command whose last parameter is a mark comes from another server.
unfoldable pub origin_of : List Bytes → Origin
origin_of ps =
    if leb 4 (length ps)
      && (eqb (arg ps 0) (codes "PUT ")
          || (eqb (arg ps 0) (codes "CPUT ") || eqb (arg ps 0) (codes "DELETE ")))
    then if eqb (last_or ps []) (codes "PRIMARY")
      then from_primary
      else if eqb (last_or ps []) (codes "SECONDARY")
      then from_secondary
      else from_frontend
    else from_frontend

unfoldable pub checkpoint_at_threshold : ℕ → Server → Server
checkpoint_at_threshold now s =
    if s.writes == threshold then record (checkpoint_table now s) { writes = 0 } else s

-- The thread's own variables, and what it has written to its socket.
pub record Connection (W : Type 0) : Type 0 where
  pub context : Context W
  pub command : Bytes
  pub sent : List Bytes

module _ {W : Type 0} where
  -- A checkpoint is taken when it is due, and the reply is sent.
  unfoldable pub finish : ℕ → Option (Context W) → List Bytes → Option (Context W × List Bytes)
  finish now none sent = none
  finish now (some c) sent =
      some (record c { server = checkpoint_at_threshold now c.server }, sent ++ c.msg ∷ [])

  unfoldable pub received : Option (Bytes × (Context W × List Bytes)) → Option (Connection W)
  received none = none
  received (some (command, (c, sent))) =
      some (record { context = c; command = command; sent = sent })

module _ {W : Type 0} (net : Net W) (now : ℕ) where
  -- One finished command.
  unfoldable pub dispatch : Bytes → Context W × List Bytes → Option (Context W × List Bytes)
  dispatch command (c, sent) =
      let ps = split_command command in finish now (handle_command net ps (origin_of ps) c) sent

  -- What one `read` returned, some bytes at least. A disabled server drops it.
  unfoldable pub receive : Bytes → Connection W → Option (Connection W)
  unfolding say
  receive bytes k =
      if k.context.server.enabled
      then received (feed dispatch bytes k.command (k.context, k.sent))
      else some (record k {
        context = say (codes "-ERR Server Disabled\r\n") k.context;
        sent = k.sent ++ codes "-ERR Server Disabled\r\n" ∷ [];
      })

  unfoldable pub serve : List Bytes → Connection W → Option (Connection W)
  serve [] k = some k
  serve (bytes ∷ reads) k = elim (receive bytes k) [ none ↦ none | some k' ↦ serve reads k' ]

  pub receive_enabled :
      (bytes : Bytes) (k : Connection W)
      → k.context.server.enabled ≡ true
      → receive bytes k ≡ received (feed dispatch bytes k.command (k.context, k.sent))
  unfolding receive
  receive_enabled bytes k h = ground arith
