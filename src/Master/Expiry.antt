-- ===== src/Master/Expiry.antt =====
-- `checkHeartbeats` of backend/kvstore/master.cc: a server that is not heard of any more is dead,
-- and the group of a dead primary gets another.
pub mod Failover
pub mod Death
pub mod Bury
pub mod Key
use distributed_cloud_storag.Prelude.{
  ℕ, ◌+◌, ◌-◌, ◌/◌, Bool, true, false, List, [], ◌∷◌, ◌++◌, Option, none, some, ltb, if◌then◌else◌,
  drop,
}
use distributed_cloud_storag.Prelude.Dict.{Bytes, Dict}
use distributed_cloud_storag.Prelude.Int.{ℤ}
use distributed_cloud_storag.Text.Find.{find_byte, behind, up_to}
use distributed_cloud_storag.Text.Decimal.{stoi}
use distributed_cloud_storag.Kvstore.Config.{ServerInfo, group_of, set_group}
use distributed_cloud_storag.Kvstore.Status.{same_address, between}
use distributed_cloud_storag.Master.State.{
  Primaries, Master, Datagram, find_at, put_at, erase_at, send_is_primary,
}

unfoldable pub keyed : Bytes → Option ℤ → Option ℤ → Option (ℤ × (Bytes × ℤ))
keyed ip (some g) (some tcp) = some (g, (ip, tcp))
keyed ip _ _ = none

-- "group;ip:port", read back
unfoldable pub parse_key : Bytes → Option (ℤ × (Bytes × ℤ))
unfolding keyed
parse_key key =
    let semi = find_byte b';' key in
    let colon = find_byte b':' key in
    keyed (between semi colon key) (stoi (up_to semi key)) (stoi (drop (behind colon) key))

-- The first loop. `dead` is the copy of the last server at the address, which is still primary in
-- the copy if it was.
unfoldable pub mark_expired :
    Bytes
    → ℤ
    → List ServerInfo
    → Primaries
    → Option ServerInfo
    → List ServerInfo × (Primaries × Option ServerInfo)
unfolding same_address
mark_expired ip tcp [] ps dead = ([], (ps, dead))
mark_expired ip tcp (info ∷ infos) ps dead =
    let here =
      mark_expired ip tcp infos (if info.is_primary then erase_at info.replica_group ps else ps)
        (some (record info { is_dead = true })) in
    let passed = mark_expired ip tcp infos ps dead in
    if same_address ip tcp info
    then (record info { is_dead = true; is_primary = false } ∷ here.0, here.1)
    else (info ∷ passed.0, passed.1)

abbrev Promoted : Type 0
Promoted = List ServerInfo × (Primaries × List Datagram)

unfoldable pub keep_told : ServerInfo → List Datagram → Option Promoted → Option Promoted
keep_told info mail none = none
keep_told info mail (some (infos, (ps, out))) = some (info ∷ infos, (ps, mail ++ out))

-- A server is told who is primary; `none` is an entry of `primaryServers` that is made here.
unfoldable pub tell :
    Bool → ServerInfo → Option ServerInfo → ServerInfo → Option Promoted → Option Promoted
unfolding keep_told send_is_primary
tell is_primary info none dead rest = none
tell is_primary info (some primary) dead rest =
    keep_told info (send_is_primary is_primary info primary (some dead) ∷ []) rest

-- The loop after the death of a primary: the first live server is primary, and the ones behind it
-- are told so.
unfoldable pub promote : ServerInfo → Bool → List ServerInfo → Primaries → Option Promoted
unfolding tell keep_told
promote dead assigned [] ps = some ([], (ps, []))
promote dead true (info ∷ infos) ps =
    tell false info (find_at info.replica_group ps) dead (promote dead true infos ps)
promote dead false (info ∷ infos) ps =
    let info' = record info { is_primary = true } in
    let ps' = put_at dead.replica_group info' ps in
    let assigned =
      tell true info' (find_at info.replica_group ps') dead (promote dead true infos ps') in
    let passed = keep_told info [] (promote dead false infos ps) in
    if info.is_dead then passed else assigned

unfoldable pub prepend : Option Datagram → Option (List Datagram) → Option (List Datagram)
prepend none rest = none
prepend (some d) none = none
prepend (some d) (some out) = some (d ∷ out)

-- What a live server is told after the death of a secondary. `none`: no server stands at the
-- address, or the group has no primary, so that a port is not initialised.
unfoldable pub death_notice : Option ServerInfo → ServerInfo → Primaries → Option Datagram
unfolding send_is_primary
death_notice none info ps = none
death_notice (some dead) info ps = elim (find_at info.replica_group ps) [
  | none ↦ none
  | some primary ↦ some (send_is_primary info.is_primary info primary (some dead))
]

unfoldable pub inform_all : Option ServerInfo → List ServerInfo → Primaries → Option (List Datagram)
unfolding death_notice prepend
inform_all dead [] ps = some []
inform_all dead (info ∷ infos) ps =
    let rest = inform_all dead infos ps in
    if info.is_dead then rest else prepend (death_notice dead info ps) rest

unfoldable pub informed : List ServerInfo → Primaries → Option (List Datagram) → Option Promoted
informed infos ps none = none
informed infos ps (some out) = some (infos, (ps, out))

-- The reaction to a death: the group's servers, the primaries and the mail.
unfoldable pub react : List ServerInfo × (Primaries × Option ServerInfo) → Option Promoted
unfolding promote inform_all informed
react (infos, (ps, none)) = informed infos ps (inform_all none infos ps)
react (infos, (ps, some dead)) =
    if dead.is_primary
    then promote dead false infos ps
    else informed infos ps (inform_all (some dead) infos ps)

unfoldable pub buried : ℤ → Master → Option Promoted → Option (Master × List Datagram)
buried g m none = none
buried g m (some (infos, (ps, out))) =
    some (record m { servers = set_group g infos m.servers; primaries = ps }, out)

-- The death of the server at an address of a group.
unfoldable pub bury : ℤ → Bytes → ℤ → Master → Option (Master × List Datagram)
unfolding mark_expired react buried
bury g ip tcp m = buried g m (react (mark_expired ip tcp (group_of g m.servers) m.primaries none))

unfoldable pub expire_at : Master → Option (ℤ × (Bytes × ℤ)) → Option (Master × List Datagram)
unfolding bury
expire_at m none = none
expire_at m (some (g, (ip, tcp))) = bury g ip tcp m

unfoldable pub expire : Bytes → Master → Option (Master × List Datagram)
unfolding parse_key expire_at
expire key m = expire_at m (parse_key key)

-- DEAD_THRESHOLD, in milliseconds
unfoldable dead_threshold : ℕ
dead_threshold = 300

-- A time that is later than `now` is not old.
unfoldable is_expired : ℕ → ℕ → Bool
unfolding dead_threshold
is_expired now time = ltb dead_threshold ((now - time) / 1000000)

abbrev Mailed : Type 0
Mailed = Option (Master × List Datagram)

keep_entry : Bytes → ℕ → Mailed → Mailed
keep_entry key time none = none
keep_entry key time (some (m, out)) = some (record m { seen = (key, time) ∷ m.seen }, out)

mailed_first : List Datagram → Mailed → Mailed
mailed_first mail none = none
mailed_first mail (some (m, out)) = some (m, mail ++ out)

and_then : Mailed → (Master → Mailed) → Mailed
unfolding mailed_first
and_then none rest = none
and_then (some (m, mail)) rest = mailed_first mail (rest m)

-- One pass over the heartbeats, in the order of the map; an entry of a dead server is erased.
unfoldable check_heartbeats : ℕ → Dict ℕ → Master → Mailed
unfolding expire is_expired keep_entry and_then
check_heartbeats now [] m = some (record m { seen = [] }, [])
check_heartbeats now ((key, time) ∷ seen) m =
    let kept = keep_entry key time (check_heartbeats now seen m) in
    let erased = and_then (expire key m) (λ m'. check_heartbeats now seen m') in
    if is_expired now time then erased else kept
