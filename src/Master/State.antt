-- ===== src/Master/State.antt =====
-- The global state of backend/kvstore/master.cc, and the status messages that it sends.
use distributed_cloud_storag.Prelude.{
  ℕ, Bool, List, [], ◌∷◌, ◌++◌, Option, none, some, if◌then◌else◌,
}
use distributed_cloud_storag.Prelude.Dict.{Bytes, Dict}
use distributed_cloud_storag.Prelude.Int.{ℤ, eqz}
use distributed_cloud_storag.Text.{codes}
use distributed_cloud_storag.Text.Decimal.{to_string}
use distributed_cloud_storag.Kvstore.Config.{ServerInfo, ServerMap}

-- A map with `int` keys, of which only lookups are made.
module _ {A : Type 0} where
  unfoldable pub find_at : ℤ → List (ℤ × A) → Option A
  find_at g [] = none
  find_at g ((h, a) ∷ m) = if eqz h g then some a else find_at g m

  unfoldable pub put_at : ℤ → A → List (ℤ × A) → List (ℤ × A)
  put_at g a [] = (g, a) ∷ []
  put_at g a ((h, b) ∷ m) = let rest = put_at g a m in if eqz h g then (h, a) ∷ m else (h, b) ∷ rest

  unfoldable pub erase_at : ℤ → List (ℤ × A) → List (ℤ × A)
  erase_at g [] = []
  erase_at g ((h, b) ∷ m) = let rest = erase_at g m in if eqz h g then rest else (h, b) ∷ rest

-- primaryServers
abbrev pub Primaries : Type 0
Primaries = List (ℤ × ServerInfo)

-- `next` is nextServerRoundRobin, and `seen` is last_heartbeat, with its times in nanoseconds.
pub record Master : Type 0 where
  pub servers : ServerMap
  pub primaries : Primaries
  pub next : List (ℤ × ℕ)
  pub seen : Dict ℕ

-- A message for the status port of a server.
pub record Datagram : Type 0 where
  pub ip : Bytes
  pub port : ℤ
  pub body : Bytes

unfoldable pub address : ServerInfo → Bytes
address info = info.ip ++ (b':' ∷ to_string info.tcp_port)

-- The server that died, if any, behind a semicolon.
unfoldable pub dead_part : Option ServerInfo → Bytes
unfolding address
dead_part none = []
dead_part (some dead) = if dead.is_dead then b';' ∷ address dead else []

unfoldable pub status_message : Bool → ServerInfo → Option ServerInfo → Bytes
unfolding address dead_part
status_message is_primary primary dead =
    (if is_primary then codes "PRIMARY:" else codes "SECONDARY:" ++ (address primary ++ b'@' ∷ []))
    ++ (dead_part dead ++ 0 ∷ [])

-- A dead server of `none` is one whose `isDead` is false.
unfoldable pub send_is_primary : Bool → ServerInfo → ServerInfo → Option ServerInfo → Datagram
unfolding status_message
send_is_primary is_primary recv primary dead = record {
  ip = recv.ip;
  port = recv.udp_port2;
  body = status_message is_primary primary dead;
}

unfoldable pub send_new_secondary : ServerInfo → ServerInfo → Datagram
unfolding address
send_new_secondary primary secondary = record {
  ip = primary.ip;
  port = primary.udp_port2;
  body = codes "PRIMARY:" ++ (address secondary ++ (b'@' ∷ 0 ∷ []));
}
