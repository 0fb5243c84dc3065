-- ===== src/Kvstore/Status.antt =====
-- `receiveStatus` of backend/kvstore/kvstore.cc: the master's word on who is primary and who died.
use distributed_cloud_storag.Prelude.{
  ℕ, ◌+◌, ◌-◌, Bool, true, false, ◌&&◌, List, [], ◌∷◌, ◌++◌, map, Option, none, some, ltb,
  if◌then◌else◌, take, drop,
}
use distributed_cloud_storag.Prelude.Dict.{Bytes, eqb}
use distributed_cloud_storag.Prelude.Int.{ℤ, eqz}
use distributed_cloud_storag.Text.{codes}
use distributed_cloud_storag.Text.Cstring.{c_string}
use distributed_cloud_storag.Text.Find.{find_byte, behind, up_to}
use distributed_cloud_storag.Text.Decimal.{to_string, stoi}
use distributed_cloud_storag.Kvstore.Config.{ServerInfo, ServerMap, group_of, set_group}
use distributed_cloud_storag.Kvstore.Server.{Server}

unfoldable pub same_address : Bytes → ℤ → ServerInfo → Bool
same_address ip tcp info = eqz info.tcp_port tcp && eqb info.ip ip

-- message.substr(posColon + 1, posAt - posColon - 1), where a length that wraps round is the rest
unfoldable pub between : Option ℕ → Option ℕ → Bytes → Bytes
between colon none s = drop (behind colon) s
between colon (some at) s =
    let start = behind colon in
    let rest = drop start s in if ltb at start then rest else take (at - start) rest

unfoldable pub addressed : Bytes → Option ℤ → Option (Bytes × ℤ)
addressed ip none = none
addressed ip (some tcp) = some (ip, tcp)

-- "ip:port"
unfoldable pub parse_address : Bytes → Option (Bytes × ℤ)
unfolding addressed
parse_address s = addressed (up_to (find_byte b':' s) s) (stoi (drop (behind (find_byte b':' s)) s))

unfoldable pub update_group : ℤ → (ServerInfo → ServerInfo) → ServerMap → ServerMap
update_group g f m = set_group g (map f (group_of g m)) m

abbrev own_entry : ServerInfo → ServerInfo → ServerInfo
own_entry me info = if same_address me.ip me.tcp_port info then me else info

abbrev mark_secondary : Bytes × ℤ → ServerInfo → ServerInfo
mark_secondary (ip, tcp) info =
    if same_address ip tcp info then record info { is_dead = false; is_primary = false } else info

abbrev mark_primary : Bytes × ℤ → ServerInfo → ServerInfo
mark_primary (ip, tcp) info =
    if same_address ip tcp info then record info { is_primary = true } else info

abbrev mark_dead : Bytes × ℤ → ServerInfo → ServerInfo
mark_dead (ip, tcp) info =
    if same_address ip tcp info then record info { is_dead = true; is_primary = false } else info

-- The last server at the address, as the loop leaves it.
unfoldable pub last_at : Bytes × ℤ → List ServerInfo → ServerInfo → ServerInfo
unfolding same_address
last_at (ip, tcp) [] found = found
last_at (ip, tcp) (info ∷ infos) found =
    last_at (ip, tcp) infos (if same_address ip tcp info then info else found)

unfoldable pub as_primary : Server → Server
unfolding update_group same_address
as_primary s =
    let me = record s.info { is_primary = true; is_dead = false } in
    record s { info = me; servers = update_group me.replica_group (own_entry me) s.servers }

unfoldable pub new_secondary : Server → Option (Bytes × ℤ) → Option Server
unfolding update_group same_address
new_secondary s none = none
new_secondary s (some peer) =
    some (record s { servers = update_group s.info.replica_group (mark_secondary peer) s.servers })

unfoldable pub hear_secondary : Bytes → Server → Option ℕ → Option Server
unfolding between parse_address new_secondary
hear_secondary message s none = some s
hear_secondary message s (some at) =
    new_secondary s (parse_address (between (find_byte b':' message) (some at) message))

-- This server is primary; a secondary whose address is given is alive.
unfoldable pub become_primary : Bytes → Server → Option Server
unfolding as_primary hear_secondary
become_primary message s = hear_secondary message (as_primary s) (find_byte b'@' message)

unfoldable pub as_secondary : Bytes × ℤ → Server → Server
unfolding update_group same_address last_at
as_secondary peer s =
    let me = record s.info { is_primary = false; is_dead = false } in
    let servers =
      update_group me.replica_group (λ info. mark_primary peer (own_entry me info)) s.servers in
    record s {
      info = me;
      servers = servers;
      primary = last_at peer (group_of me.replica_group servers) s.primary;
    }

unfoldable pub hear_primary : Server → Option (Bytes × ℤ) → Option Server
unfolding as_secondary
hear_primary s none = none
hear_primary s (some peer) = some (as_secondary peer s)

-- This server is secondary; the primary's address is given.
unfoldable pub become_secondary : Bytes → Server → Option Server
unfolding between parse_address hear_primary
become_secondary message s =
    hear_primary s
      (parse_address (between (find_byte b':' message) (find_byte b'@' message) message))

unfoldable pub peer_died : Server → Option (Bytes × ℤ) → Option Server
unfolding update_group same_address
peer_died s none = none
peer_died s (some peer) =
    some (record s { servers = update_group s.group (mark_dead peer) s.servers })

unfoldable pub hear_death : Bytes → Server → Option ℕ → Option Server
unfolding parse_address peer_died
hear_death message s none = some s
hear_death message s (some semi) = peer_died s (parse_address (drop (semi + 1) message))

-- A server whose address stands behind a semicolon is dead.
unfoldable pub note_death : Bytes → Option Server → Option Server
unfolding hear_death
note_death message none = none
note_death message (some s) = hear_death message s (find_byte b';' message)

-- One datagram. `none` is an exception of `stoi`, which nothing catches.
unfoldable pub receive_status : Bytes → Server → Option Server
unfolding become_primary become_secondary note_death
receive_status [] s = some s
receive_status (c ∷ datagram) s =
    let message = c_string (c ∷ datagram) in
    note_death message (
      if eqb (up_to (find_byte b':' message) message) (codes "PRIMARY")
      then become_primary message s
      else become_secondary message s)

-- What `sendHeartbeat` sends while the server is enabled: "group,port,heartbeat".
unfoldable pub heartbeat_message : Server → Bytes
heartbeat_message s =
    to_string s.group ++ (b',' ∷ (to_string s.info.tcp_port ++ (codes ",heartbeat" ++ (0 ∷ []))))
