-- ===== src/Kvstore/Forward.antt =====
-- `forwardToAllSecondaryServers` and `forwardToPrimary` of backend/kvstore/kvstore.cc.
use distributed_cloud_storag.Prelude.{
  Bool, true, false, not, ◌&&◌, List, [], ◌∷◌, ◌++◌, none, some, if◌then◌else◌, take,
}
use distributed_cloud_storag.Prelude.Dict.{Bytes}
use distributed_cloud_storag.Text.{codes}
use distributed_cloud_storag.Text.Find.{find, rfind}
use distributed_cloud_storag.Text.Decimal.{to_string}
use distributed_cloud_storag.Kvstore.Config.{ServerInfo, group_of}
use distributed_cloud_storag.Kvstore.Server.{Context, append_to_file}

-- What comes of a command for a peer: the socket is not made, the connection is refused, or the
-- peer answers. The sockets and the peers are the world, which an exchange may change.
pub data Dial : Type 0 where
  no_socket refused : Dial
  answer : Bytes → Dial

abbrev pub Net : Type 0 → Type 0
Net W = ServerInfo → Bytes → W → Dial × W

-- response.find("+OK") != npos
unfoldable pub has_ok : Bytes → Bool
has_ok response = elim (find (codes "+OK") response) [ none ↦ false | some i ↦ true ]

-- The file of a dead peer, in the storage folder that the servers share.
unfoldable peer_dead_log : {W : Type 0} → Context W → ServerInfo → Bytes
peer_dead_log c peer =
    codes "./storage/RP"
    ++ (to_string c.server.group ++ (b'-' ∷ (to_string peer.tcp_port ++ codes "-deadServerLog")))

-- The command without its mark ",PRIMARY" is kept for a peer that is dead.
unfoldable pub log_for_dead : {W : Type 0} → ServerInfo → Bytes → Context W → Context W
unfolding peer_dead_log append_to_file
log_for_dead peer command c = elim (rfind (codes ",PRIMARY") command) [
  | none ↦ c
  | some p ↦ record c {
    server = record c.server {
      files = append_to_file (peer_dead_log c peer) (take p command) c.server.files;
    };
  }
]

-- A socket that is not made ends the loop with `return 1`, which is true.
unfoldable pub after_dial :
    {W : Type 0} → Dial → Context W → (Context W → Bool × Context W) → Bool × Context W
unfolding has_ok
after_dial no_socket c rest = (true, c)
after_dial refused c rest = (false, c)
after_dial (answer response) c rest = if has_ok response then rest c else (false, c)

module _ {W : Type 0} (net : Net W) where
  unfoldable pub dial : ServerInfo → Bytes → Context W → Dial × Context W
  dial peer command c =
      let (result, world) = net peer command c.world in (result, record c { world = world })

  unfoldable pub forward_loop : Bytes → List ServerInfo → Context W → Bool × Context W
  unfolding dial after_dial log_for_dead
  forward_loop command [] c = (true, c)
  forward_loop command (peer ∷ peers) c =
      let sent =
        let (result, c') = dial peer command c in
        after_dial result c' (λ c''. forward_loop command peers c'') in
      let kept = forward_loop command peers (log_for_dead peer command c) in
      let passed = forward_loop command peers c in
      if not peer.is_primary && not peer.is_dead
      then sent
      else if not peer.is_primary && peer.is_dead
      then kept
      else passed

  unfoldable pub forward_to_all : Bytes → Context W → Bool × Context W
  unfolding forward_loop
  forward_to_all command c =
      forward_loop command (group_of c.server.info.replica_group c.server.servers) c

  -- Here a refused connection is `return 1` too.
  unfoldable pub forward_to_primary : Bytes → Context W → Bool × Context W
  unfolding dial has_ok
  forward_to_primary command c =
      let (result, c') = dial c.server.primary command c in
      (elim result [ no_socket ↦ true | refused ↦ true | answer response ↦ has_ok response ], c')
