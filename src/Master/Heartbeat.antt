-- ===== src/Master/Heartbeat.antt =====
-- `recvHeartbeat` of backend/kvstore/master.cc.
pub mod Revival
pub mod Settled
pub mod Message
use distributed_cloud_storag.Prelude.{
  ℕ, ◌+◌, ◌-◌, Bool, true, false, List, [], ◌∷◌, ◌++◌, Option, none, some, ltb, if◌then◌else◌,
  length, take, drop,
}
use distributed_cloud_storag.Prelude.Dict.{Bytes, insert}
use distributed_cloud_storag.Prelude.Int.{ℤ, eqz}
use distributed_cloud_storag.Text.Find.{find_byte, behind, up_to}
use distributed_cloud_storag.Text.Decimal.{to_string, stoi}
use distributed_cloud_storag.Kvstore.Config.{ServerInfo, group_of, set_group}
use distributed_cloud_storag.Text.Cstring.{c_string}
use distributed_cloud_storag.Master.State.{
  Primaries, Master, Datagram, find_at, put_at, address, send_is_primary, send_new_secondary,
}

-- A server that was dead is alive; it is primary if its group has none.
unfoldable pub welcome : ℤ → ServerInfo → Primaries → ServerInfo × Primaries
welcome g info ps = elim (find_at g ps) [
  | none ↦
      let info' = record info { is_dead = false; is_primary = true } in (info', put_at g info' ps)
  | some primary ↦ (record info { is_dead = false }, ps)
]

-- It is told its status, and the primary of a new secondary is told of that. `none` is an entry of
-- `primaryServers` that is made here, with ports that are not initialised.
unfoldable pub greet : ServerInfo → Primaries → Option (List Datagram)
unfolding send_is_primary send_new_secondary
greet info ps = elim (find_at info.replica_group ps) [
  | none ↦ none
  | some primary ↦ some (
      send_is_primary info.is_primary info primary none
      ∷ (if info.is_primary then [] else send_new_secondary primary info ∷ []))
]

-- The loop over a group: the servers, the primaries, the last server with the port, and the mail.
abbrev pub Round : Type 0
Round = List ServerInfo × (Primaries × (Option ServerInfo × List Datagram))

unfoldable pub keep : ServerInfo → List Datagram → Option Round → Option Round
keep info mail none = none
keep info mail (some (infos, (ps, (found, out)))) = some (info ∷ infos, (ps, (found, mail ++ out)))

unfoldable pub greeted : ServerInfo → Option (List Datagram) → Option Round → Option Round
unfolding keep
greeted info none rest = none
greeted info (some mail) rest = keep info mail rest

unfoldable pub revive : ℤ → ℤ → List ServerInfo → Primaries → Option ServerInfo → Option Round
unfolding welcome greet greeted keep
revive g tcp [] ps found = some ([], (ps, (found, [])))
revive g tcp (info ∷ infos) ps found =
    let (info', ps') = welcome g info ps in
    let passed = keep info [] (revive g tcp infos ps found) in
    let alive = keep info [] (revive g tcp infos ps (some info)) in
    let revived = greeted info' (greet info' ps') (revive g tcp infos ps' (some info)) in
    if eqz info.tcp_port tcp then if info.is_dead then revived else alive else passed

-- "group;ip:port"
unfoldable pub heartbeat_key : ServerInfo → Bytes
unfolding address
heartbeat_key info = to_string info.replica_group ++ (b';' ∷ address info)

unfoldable pub before_comma : ℕ → Bytes → Option ℕ → Bytes
before_comma start rest none = rest
before_comma start rest (some i) = take (start + i - 1) rest

-- message.substr(first + 1, second - 1), whose length is too long by the length of the group
unfoldable pub port_text : Bytes → Bytes
unfolding before_comma
port_text message =
    let start = behind (find_byte b',' message) in
    before_comma start (drop start message) (find_byte b',' (drop start message))

unfoldable pub buffer_size : ℕ
buffer_size = 16834

-- The time of the last server with the port is noted. `none`: no server of the group has the port.
unfoldable pub noted : ℕ → ℤ → Master → Option Round → Option (Master × List Datagram)
noted now g m none = none
noted now g m (some (infos, (ps, (none, out)))) = none
noted now g m (some (infos, (ps, (some found, out)))) = some (
  record m {
    servers = set_group g infos m.servers;
    primaries = ps;
    seen = insert (heartbeat_key found) now m.seen;
  },
  out,
)

unfoldable pub heartbeat_of : ℕ → Master → Option ℤ → Option ℤ → Option (Master × List Datagram)
unfolding revive noted
heartbeat_of now m (some g) (some tcp) =
    noted now g m (revive g tcp (group_of g m.servers) m.primaries none)
heartbeat_of now m _ _ = none

-- One datagram, at the time `now`. `none` is an exception of `stoi`, a server that is not
-- configured, or a full buffer, behind which a byte is written.
unfoldable pub recv_heartbeat : ℕ → Bytes → Master → Option (Master × List Datagram)
unfolding heartbeat_of port_text buffer_size
recv_heartbeat now [] m = some (m, [])
recv_heartbeat now (c ∷ datagram) m =
    let message = c_string (c ∷ datagram) in
    if ltb (length (c ∷ datagram)) buffer_size
    then heartbeat_of now m (stoi (up_to (find_byte b',' message) message))
        (stoi (port_text message))
    else none
