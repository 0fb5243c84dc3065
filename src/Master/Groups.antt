-- ===== src/Master/Groups.antt =====
-- The invariant of a replica group of backend/kvstore/master.cc: who is primary.
use distributed_cloud_storag.Prelude.{
  ℕ, Bool-cases, inl, inr, ◌≡◌, ◌∙◌, true, false, List, [], ◌∷◌, Option, none, some, arith,
  if◌then◌else◌, All,
}
use distributed_cloud_storag.Prelude.Dict.{Dict}
use distributed_cloud_storag.Prelude.Int.{ℤ, eqz, eqz_iff}
use distributed_cloud_storag.Kvstore.Config.{ServerInfo, ServerMap, group_of, set_group}
use distributed_cloud_storag.Master.State.{Primaries, Master, find_at, put_at, erase_at}

abbrev pub NotPrimary : ServerInfo → Type 0
NotPrimary info = info.is_primary ≡ false

abbrev pub InGroup : ℤ → ServerInfo → Type 0
InGroup g info = info.replica_group ≡ g

-- A group with its registered primary: that is the one primary of the group, and it is alive; with
-- none registered, all servers are dead.
pub data Sound : Option ServerInfo → List ServerInfo → Type 0 where
  nil : Sound none []
  dead :
      {info : ServerInfo} {infos : List ServerInfo}
      → info.is_primary ≡ false
      → info.is_dead ≡ true
      → Sound none infos
      → Sound none (info ∷ infos)
  secondary :
      {p info : ServerInfo} {infos : List ServerInfo}
      → info.is_primary ≡ false
      → Sound (some p) infos
      → Sound (some p) (info ∷ infos)
  primary :
      {p : ServerInfo} {infos : List ServerInfo}
      → p.is_primary ≡ true
      → p.is_dead ≡ false
      → All NotPrimary infos
      → Sound (some p) (p ∷ infos)

abbrev pub IsSound : Master → Type 0
IsSound m =
    (g : ℤ)
    → Sound (find_at g m.primaries) (group_of g m.servers) × All (InGroup g) (group_of g m.servers)

eqz_sym : (a b : ℤ) → eqz a b ≡ eqz b a
unfolding eqz
eqz_sym a b = ground arith

module _ {A : Type 0} where
  pub find_at-put_at :
      (g h : ℤ) (a : A) (m : List (ℤ × A))
      → find_at h (put_at g a m) ≡ (if eqz g h then some a else find_at h m)
  unfolding find_at put_at
  find_at-put_at g h a [] = ground arith
  find_at-put_at g h a ((k, b) ∷ m) =
      ground (arith, find_at-put_at g h a m, eqz_iff k g, eqz_iff k h, eqz_iff g h)

  pub find_at-erase_at :
      (g h : ℤ) (m : List (ℤ × A))
      → find_at h (erase_at g m) ≡ (if eqz g h then none else find_at h m)
  unfolding find_at erase_at
  find_at-erase_at g h [] = ground arith
  find_at-erase_at g h ((k, b) ∷ m) =
      ground (arith, find_at-erase_at g h m, eqz_iff k g, eqz_iff k h, eqz_iff g h)

pub group_of-set_group :
    (g h : ℤ) (infos : List ServerInfo) (m : ServerMap)
    → group_of h (set_group g infos m) ≡ (if eqz g h then infos else group_of h m)
unfolding group_of set_group
group_of-set_group g h infos [] = ground arith
group_of-set_group g h infos ((k, old) ∷ m) =
    ground (arith, group_of-set_group g h infos m, eqz_iff k g, eqz_iff k h, eqz_iff g h)

at_group :
    (g h : ℤ) (ps : Primaries) (infos : List ServerInfo)
    → g ≡ h
    → Sound (find_at g ps) infos × All (InGroup g) infos
    → Sound (find_at h ps) infos × All (InGroup h) infos
at_group g h ps infos e s =
    coe 0 1 (i. Sound (find_at (e i) ps) infos × All (InGroup (e i)) infos) s

pub update-IsSound :
    (m : Master) (g : ℤ) (infos : List ServerInfo) (ps : Primaries) (seen : Dict ℕ)
    → IsSound m
    → Sound (find_at g ps) infos
    → All (InGroup g) infos
    → ((h : ℤ) → eqz g h ≡ false → find_at h ps ≡ find_at h m.primaries)
    → IsSound (record m { servers = set_group g infos m.servers; primaries = ps; seen = seen })
update-IsSound m g infos ps seen sound s a others h =
    let e = group_of-set_group g h infos m.servers in
    elim (Bool-cases (eqz g h)) [
      | inl same ↦
          let q : group_of h (set_group g infos m.servers) ≡ infos = e ∙ rw same in
          coe 1 0 (i. Sound (find_at h ps) (q i) × All (InGroup h) (q i))
            (at_group g h ps infos ((eqz_iff g h).0 same) (s, a))
      | inr other ↦
          let q : group_of h (set_group g infos m.servers) ≡ group_of h m.servers = e ∙ rw other in
          coe 1 0 (i. Sound (others h other i) (q i) × All (InGroup h) (q i)) (sound h)
    ]
