-- ===== src/Master/Expiry/Failover.antt =====
-- A death leaves a sound group: a dead primary is replaced by the first live server.
use distributed_cloud_storag.Prelude.{
  ◌≡◌, refl, ap, ◌∙◌, true, false, Bool-cases, inl, inr, List, [], ◌∷◌, none, some, arith,
  if◌then◌else◌, All,
}
use distributed_cloud_storag.Prelude.Int.{ℤ, eqz, eqz_refl}
use distributed_cloud_storag.Kvstore.Config.{ServerInfo}
use distributed_cloud_storag.Master.State.{Primaries, Datagram, find_at, put_at, send_is_primary}
use distributed_cloud_storag.Master.Groups.{
  NotPrimary, InGroup, Sound, nil, primary, find_at-put_at,
}
use distributed_cloud_storag.Master.Heartbeat.Settled.{as_sound, with_idle}
use distributed_cloud_storag.Master.Expiry.{keep_told, tell, promote}

-- The first live server is made primary.
abbrev pub first_primary : List ServerInfo → List ServerInfo
first_primary [] = []
first_primary (info ∷ infos) =
    let rest = first_primary infos in
    if info.is_dead then info ∷ rest else record info { is_primary = true } ∷ infos

-- The mail to the servers behind the new primary, and to all.
abbrev pub mail_behind : ServerInfo → ServerInfo → List ServerInfo → List Datagram
mail_behind p d [] = []
mail_behind p d (info ∷ infos) = send_is_primary false info p (some d) ∷ mail_behind p d infos

abbrev pub mail_failover : ServerInfo → List ServerInfo → List Datagram
mail_failover d [] = []
mail_failover d (info ∷ infos) =
    let rest = mail_failover d infos in
    let p = record info { is_primary = true } in
    if info.is_dead then rest else send_is_primary true p p (some d) ∷ mail_behind p d infos

promote_assigned :
    (g : ℤ) (d p : ServerInfo) (infos : List ServerInfo) (ps : Primaries)
    → find_at g ps ≡ some p
    → All (InGroup g) infos
    → promote d true infos ps ≡ some (infos, (ps, mail_behind p d infos))
unfolding promote tell keep_told
promote_assigned g d p [] ps h a = refl
promote_assigned g d p (info ∷ infos) ps h a =
    let here : find_at info.replica_group ps ≡ some p = ap (λ k. find_at k ps) a.0 ∙ h in
    rw (here, promote_assigned g d p infos ps h a.1)

-- The group has a new primary, or all its servers are dead.
abbrev Replaced : ℤ → ServerInfo → List ServerInfo → Primaries → Type 0
Replaced g d infos ps =
    (ps' : Primaries) × (promote d false infos ps
      ≡ some (first_primary infos, (ps', mail_failover d infos)))
    × Sound (find_at g ps') (first_primary infos)
    × ((h : ℤ) → eqz g h ≡ false → find_at h ps' ≡ find_at h ps)

promote_passed :
    (d info : ServerInfo) (infos : List ServerInfo) (ps : Primaries)
    → info.is_dead ≡ true
    → promote d false (info ∷ infos) ps ≡ keep_told info [] (promote d false infos ps)
unfolding promote
promote_passed d info infos ps h = ground arith

promote_live :
    (d info : ServerInfo) (infos : List ServerInfo) (ps : Primaries)
    → info.is_dead ≡ false
    → promote d false (info ∷ infos) ps
      ≡ tell true
          (record info { is_primary = true })
          (find_at info.replica_group
            (put_at d.replica_group (record info { is_primary = true }) ps))
          d
          (promote d true infos (put_at d.replica_group (record info { is_primary = true }) ps))
unfolding promote
promote_live d info infos ps h = ground arith

registered :
    (g : ℤ) (d p : ServerInfo) (ps : Primaries)
    → d.replica_group ≡ g
    → find_at g (put_at d.replica_group p ps) ≡ some p
registered g d p ps e =
    find_at-put_at d.replica_group g p ps
    ∙ ap (λ b. if b then some p else find_at g ps) (ap (λ k. eqz k g) e ∙ eqz_refl g)

promote_first :
    (g : ℤ) (d info : ServerInfo) (infos : List ServerInfo) (ps : Primaries)
    → d.replica_group ≡ g
    → info.is_dead ≡ false
    → All (InGroup g) (info ∷ infos)
    → promote d false (info ∷ infos) ps
      ≡ some (
        record info { is_primary = true } ∷ infos,
        (
          put_at d.replica_group (record info { is_primary = true }) ps,
          send_is_primary true
                (record info { is_primary = true })
                (record info { is_primary = true })
                (some d)
              ∷ mail_behind (record info { is_primary = true }) d infos,
        ),
      )
unfolding tell keep_told
promote_first g d info infos ps eg live a =
    let p = record info { is_primary = true } in
    let ps' = put_at d.replica_group p ps in
    let r = registered g d p ps eg in
    promote_live d info infos ps live
    ∙ ap (λ o. tell true p o d (promote d true infos ps')) (ap (λ k. find_at k ps') a.0 ∙ r)
    ∙ ap (tell true p (some p) d) (promote_assigned g d p infos ps' r a.1)

promote_more :
    (g : ℤ) (d info : ServerInfo) (infos : List ServerInfo) (ps : Primaries)
    → info.is_dead ≡ true
    → info.is_primary ≡ false
    → Replaced g d infos ps
    → Replaced g d (info ∷ infos) ps
unfolding keep_told
promote_more g d info infos ps gone np (ps', e, s, others) =
    let q : first_primary (info ∷ infos) ≡ info ∷ first_primary infos = rw gone in
    (
      ps',
      promote_passed d info infos ps gone ∙ ap (keep_told info []) e ∙ rw gone,
      coe 1 0 (i. Sound (find_at g ps') (q i)) (with_idle (find_at g ps') np gone s),
      others,
    )

pub replaced :
    (g : ℤ) (d : ServerInfo) (infos : List ServerInfo) (ps : Primaries)
    → d.replica_group ≡ g
    → find_at g ps ≡ none
    → All NotPrimary infos
    → All (InGroup g) infos
    → Replaced g d infos ps
unfolding promote
replaced g d [] ps eg h np a = (ps, refl, as_sound h nil, λ k ne. refl)
replaced g d (info ∷ infos) ps eg h np a = elim (Bool-cases info.is_dead) [
  | inl gone ↦ promote_more g d info infos ps gone np.0 (replaced g d infos ps eg h np.1 a.1)
  | inr live ↦
      let p = record info { is_primary = true } in
      let q : first_primary (info ∷ infos) ≡ p ∷ infos = rw live in
      (
        put_at d.replica_group p ps,
        promote_first g d info infos ps eg live a ∙ rw live,
        coe 1 0 (i. Sound (registered g d p ps eg i) (q i)) (primary refl live np.1),
        λ k ne. find_at-put_at d.replica_group k p ps ∙ rw (eg, ne),
      )
]
