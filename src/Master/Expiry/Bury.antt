-- ===== src/Master/Expiry/Bury.antt =====
-- `checkHeartbeats` on one server that is not heard of any more.
use distributed_cloud_storag.Prelude.{
  ◌≡◌, refl, sym, ap, ◌∙◌, true, false, Bool-cases, inl, inr, List, [], ◌∷◌, ◌++◌, Option, none,
  some, arith, if◌then◌else◌, All,
}
use distributed_cloud_storag.Prelude.Dict.{Bytes}
use distributed_cloud_storag.Prelude.Int.{ℤ, eqz, eqz_refl}
use distributed_cloud_storag.Kvstore.Config.{ServerInfo, group_of, set_group}
use distributed_cloud_storag.Kvstore.Status.{same_address}
use distributed_cloud_storag.Master.State.{Primaries, Master, Datagram, find_at, erase_at}
use distributed_cloud_storag.Master.Groups.{
  NotPrimary, InGroup, Sound, IsSound, find_at-erase_at, group_of-set_group, update-IsSound,
}
use distributed_cloud_storag.Master.Heartbeat.Settled.{as_sound}
use distributed_cloud_storag.Master.Expiry.{
  promote, mark_expired, inform_all, informed, react, buried, bury,
}
use distributed_cloud_storag.Master.Expiry.Failover.{first_primary, mail_failover, replaced}
use distributed_cloud_storag.Master.Expiry.Death.{
  gone, remembered, Stranger, unregister, mail_all, servers_after, mail_after, mark_expired-at,
  inform_all_lem, after_All-InGroup, after_secondary, after_primary,
}

first_primary-InGroup :
    (g : ℤ) (infos : List ServerInfo)
    → All (InGroup g) infos
    → All (InGroup g) (first_primary infos)
first_primary-InGroup g [] a = a
first_primary-InGroup g (info ∷ infos) a =
    let rest = first_primary-InGroup g infos a.1 in ground arith

servers_after-InGroup :
    (g : ℤ) (info : ServerInfo) (infos : List ServerInfo)
    → All (InGroup g) infos
    → All (InGroup g) (servers_after info infos)
servers_after-InGroup g info infos a = let b = first_primary-InGroup g infos a in ground arith

-- The reaction goes through, and leaves a sound group.
abbrev Reacts : ℤ → Primaries → Option ServerInfo → ServerInfo → List ServerInfo → Type 0
Reacts g ps r info infos =
    (ps' : Primaries) × (react (infos, (unregister info ps, some (remembered info)))
      ≡ some (servers_after info infos, (ps', mail_after r info infos)))
    × Sound (find_at g ps') (servers_after info infos)
    × ((h : ℤ) → eqz g h ≡ false → find_at h ps' ≡ find_at h ps)

react_lost :
    (g : ℤ) (ps : Primaries) (r : Option ServerInfo) (info : ServerInfo) (infos : List ServerInfo)
    → info.is_primary ≡ true
    → info.replica_group ≡ g
    → All NotPrimary infos
    → All (InGroup g) infos
    → Reacts g ps r info infos
unfolding react
react_lost g ps r info infos h eg np a =
    let d = remembered info in
    let ps1 = erase_at info.replica_group ps in
    let gone : find_at g ps1 ≡ none =
      find_at-erase_at info.replica_group g ps
      ∙ ap (λ b. if b then none else find_at g ps) (ap (λ k. eqz k g) eg ∙ eqz_refl g) in
    let (ps', e, s, others) = replaced g (remembered info) infos ps1 eg gone np a in
    let q : first_primary infos ≡ servers_after info infos = rw h in
    (
      ps',
      ap (λ b. react (infos, (if b then erase_at info.replica_group ps else ps, some d))) h
          ∙ ap
              (λ b.
                if b
                then promote d false infos ps1
                else informed infos ps1 (inform_all (some d) infos ps1))
              h
          ∙ e
          ∙ ap
              (λ b. some (
                if b then first_primary infos else infos,
                (ps', if b then mail_failover d infos else mail_all r d infos),
              ))
              (sym h),
      coe 0 1 (i. Sound (find_at g ps') (q i)) s,
      λ k ne. others k ne ∙ find_at-erase_at info.replica_group k ps ∙ rw (eg, ne),
    )

react_spared :
    (g : ℤ) (ps : Primaries) (r : Option ServerInfo) (info : ServerInfo) (infos : List ServerInfo)
    → info.is_primary ≡ false
    → find_at g ps ≡ r
    → Sound r infos
    → All (InGroup g) infos
    → Reacts g ps r info infos
unfolding react informed
react_spared g ps r info infos h eg s a =
    let d = remembered info in
    let q : infos ≡ servers_after info infos = rw h in
    (
      ps,
      ap (λ b. react (infos, (if b then erase_at info.replica_group ps else ps, some d))) h
          ∙ ap
              (λ b.
                if b
                then promote d false infos ps
                else informed infos ps (inform_all (some d) infos ps))
              h
          ∙ ap (informed infos ps) (inform_all_lem g d infos ps r eg s a)
          ∙ ap
              (λ b. some (
                if b then first_primary infos else infos,
                (ps, if b then mail_failover d infos else mail_all r d infos),
              ))
              (sym h),
      coe 0 1 (i. Sound (find_at g ps) (q i)) (as_sound eg s),
      λ k ne. refl,
    )

bury-of :
    (g : ℤ) (ip : Bytes) (tcp : ℤ) (m : Master)
    (r : List ServerInfo × (Primaries × Option ServerInfo)) (infos : List ServerInfo)
    (ps : Primaries) (out : List Datagram)
    → mark_expired ip tcp (group_of g m.servers) m.primaries none ≡ r
    → react r ≡ some (infos, (ps, out))
    → bury g ip tcp m
      ≡ some (record m { servers = set_group g infos m.servers; primaries = ps }, out)
unfolding bury buried
bury-of g ip tcp m r infos ps out e f = ap (λ t. buried g m (react t)) e ∙ ap (buried g m) f

reacts :
    (g : ℤ) (m : Master) (pre : List ServerInfo) (info : ServerInfo) (post : List ServerInfo)
    → Sound (find_at g m.primaries) (pre ++ info ∷ post)
    → All (InGroup g) (pre ++ info ∷ post)
    → info.replica_group ≡ g
    → Reacts g m.primaries (find_at g m.primaries) info (pre ++ gone info ∷ post)
reacts g m pre info post s a eg =
    let r = find_at g m.primaries in
    let b = after_All-InGroup g pre info post a in
    elim (Bool-cases info.is_primary) [
      | inl h ↦
          react_lost g m.primaries r info (pre ++ gone info ∷ post) h eg
            (after_primary r pre info post h s) b
      | inr h ↦
          react_spared g m.primaries r info (pre ++ gone info ∷ post) h refl
            (after_secondary r pre info post h s) b
    ]

group_at :
    (g : ℤ) (pre : List ServerInfo) (info : ServerInfo) (post : List ServerInfo)
    → All (InGroup g) (pre ++ info ∷ post)
    → info.replica_group ≡ g
group_at g [] info post a = a.0
group_at g (x ∷ pre) info post a = group_at g pre info post a.1

-- In a sound state the death of the one server of a group at an address goes through and keeps the
-- state sound: each group has one primary, which is alive and registered, or all servers of the group are
-- dead. If a primary died, the first live server of the group is primary; otherwise the primary
-- stays. The mail is what the function `mail_after` says: after the death of a primary the new one
-- and all servers behind it are told, after another death all live servers are.
pub bury_lem :
    (g : ℤ) (ip : Bytes) (tcp : ℤ) (m : Master) (pre : List ServerInfo) (info : ServerInfo)
    (post : List ServerInfo)
    → IsSound m
    → group_of g m.servers ≡ pre ++ info ∷ post
    → All (Stranger ip tcp) pre
    → same_address ip tcp info ≡ true
    → All (Stranger ip tcp) post
    → (m' : Master) × (bury g ip tcp m
        ≡ some (m', mail_after (find_at g m.primaries) info (pre ++ gone info ∷ post)))
      × (group_of g m'.servers ≡ servers_after info (pre ++ gone info ∷ post))
      × IsSound m'
bury_lem g ip tcp m pre info post sound e hp h hq =
    let infos = pre ++ gone info ∷ post in
    let s = coe 0 1 (i. Sound (find_at g m.primaries) (e i)) (sound g).0 in
    let a = coe 0 1 (i. All (InGroup g) (e i)) (sound g).1 in
    let (ps', r, s', others) = reacts g m pre info post s a (group_at g pre info post a) in
    let q : group_of g (set_group g (servers_after info infos) m.servers)
        ≡ servers_after info infos =
      group_of-set_group g g (servers_after info infos) m.servers ∙ rw (eqz_refl g) in
    (
      record m { servers = set_group g (servers_after info infos) m.servers; primaries = ps' },
      bury-of g ip tcp m (infos, (unregister info m.primaries, some (remembered info)))
          (servers_after info infos) ps' (mail_after (find_at g m.primaries) info infos)
          (ap (λ l. mark_expired ip tcp l m.primaries none) e
            ∙ mark_expired-at ip tcp pre info post m.primaries hp h hq)
          r,
      q,
      update-IsSound m g (servers_after info infos) ps' m.seen sound s'
          (servers_after-InGroup g info infos (after_All-InGroup g pre info post a)) others,
    )
