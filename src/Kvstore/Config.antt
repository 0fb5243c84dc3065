-- ===== src/Kvstore/Config.antt =====
-- `ServerInfo`, `ServerMap`, `extractValue` and `parseServers` of backend/kvstore/helper.h.
use distributed_cloud_storag.Prelude.{
  ◌+◌, Bool, true, false, List, [], ◌∷◌, ◌++◌, Option, none, some, ltb, if◌then◌else◌, length, drop,
}
use distributed_cloud_storag.Prelude.Dict.{Bytes}
use distributed_cloud_storag.Prelude.Int.{ltz, ℤ, eqz}
use distributed_cloud_storag.Text.Find.{find_byte}
use distributed_cloud_storag.Text.Getline.{getlines}
use distributed_cloud_storag.Text.Decimal.{stoi}

pub record ServerInfo : Type 0 where
  pub ip : Bytes
  pub tcp_port : ℤ
  pub udp_port : ℤ
  pub udp_port2 : ℤ
  pub tcp_port2 : ℤ
  pub is_primary : Bool
  pub is_dead : Bool
  pub replica_group : ℤ

-- map<int, vector<ServerInfo>>, in the order of its keys
abbrev pub ServerMap : Type 0
ServerMap = List (ℤ × List ServerInfo)

-- servers[g]; a missing group has no servers
unfoldable pub group_of : ℤ → ServerMap → List ServerInfo
group_of g [] = []
group_of g ((h, infos) ∷ m) = if eqz h g then infos else group_of g m

-- servers[g] = infos
unfoldable pub set_group : ℤ → List ServerInfo → ServerMap → ServerMap
unfolding ltz
set_group g infos [] = (g, infos) ∷ []
set_group g infos ((h, old) ∷ m) =
    let rest = set_group g infos m in
    if eqz h g
    then (h, infos) ∷ m
    else if ltz g h
    then (g, infos) ∷ (h, old) ∷ m
    else (h, old) ∷ rest

-- The value behind the colon of a configuration string, and the empty text if there is none.
unfoldable extract_value : Bytes → Bytes
extract_value s = elim (find_byte b':' s) [
  | none ↦ []
  | some p ↦ if ltb (p + 1) (length s) then drop (p + 1) s else []
]

-- The values of a line's parts; a part with no colon is left out.
unfoldable part_values : List Bytes → List Bytes
part_values [] = []
part_values (part ∷ parts) =
    let rest = part_values parts in
    elim (find_byte b':' part) [ none ↦ rest | some p ↦ drop (p + 1) part ∷ rest ]

infixl 5 ◌>>=◌
abbrev ◌>>=◌ : {A B : Type 0} → Option A → (A → Option B) → Option B
none >>= f = none
some a >>= f = f a

-- A new server is secondary and dead.
unfoldable add_server : List Bytes → ServerMap → Option ServerMap
add_server (id ∷ ip ∷ tcp ∷ udp ∷ udp2 ∷ tcp2 ∷ []) m = do
  g ← stoi id
  t ← stoi tcp
  u ← stoi udp
  u2 ← stoi udp2
  t2 ← stoi tcp2
  some (
      set_group g
        (group_of g m
          ++ record {
            ip = ip;
            tcp_port = t;
            udp_port = u;
            udp_port2 = u2;
            tcp_port2 = t2;
            is_primary = false;
            is_dead = true;
            replica_group = g;
          }
            ∷ [])
        m)
add_server _ m = some m

-- One round for each line. `none` is an exception of `stoi`, which nothing catches.
unfoldable parse_lines : List Bytes → ServerMap → Option ServerMap
unfolding part_values add_server
parse_lines [] m = some m
parse_lines (line ∷ lines) m = do
  m' ← add_server (part_values (getlines b',' line)) m
  parse_lines lines m'

unfoldable parse_servers : Bytes → ServerMap → Option ServerMap
unfolding parse_lines
parse_servers contents m = parse_lines (getlines b'\n' contents) m
