-- ===== src/Master/Expiry/Death.antt =====
-- The death of one server of a sound group: who is primary then, and who is told of it.
use distributed_cloud_storag.Prelude.{
  ◌≡◌, refl, ap, ◌∙◌, true, false, Bool-cases, inl, inr, List, [], ◌∷◌, ◌++◌, Option, none, some,
  arith, if◌then◌else◌, All,
}
use distributed_cloud_storag.Prelude.Dict.{Bytes}
use distributed_cloud_storag.Prelude.Int.{ℤ}
use distributed_cloud_storag.Kvstore.Config.{ServerInfo}
use distributed_cloud_storag.Kvstore.Status.{same_address}
use distributed_cloud_storag.Master.State.{Primaries, Datagram, find_at, erase_at, send_is_primary}
use distributed_cloud_storag.Master.Groups.{NotPrimary, InGroup, Sound, dead, secondary, primary}
use distributed_cloud_storag.Master.Expiry.{mark_expired, death_notice, prepend, inform_all}
use distributed_cloud_storag.Master.Expiry.Failover.{first_primary, mail_failover}

-- A server that died, and its copy, which remembers whether it was primary.
abbrev pub gone : ServerInfo → ServerInfo
gone info = record info { is_dead = true; is_primary = false }

abbrev pub remembered : ServerInfo → ServerInfo
remembered info = record info { is_dead = true }

-- Every live server is told.
abbrev pub mail_all : Option ServerInfo → ServerInfo → List ServerInfo → List Datagram
mail_all none d infos = []
mail_all (some p) d [] = []
mail_all (some p) d (info ∷ infos) =
    let rest = mail_all (some p) d infos in
    if info.is_dead then rest else send_is_primary info.is_primary info p (some d) ∷ rest

abbrev pub Stranger : Bytes → ℤ → ServerInfo → Type 0
Stranger ip tcp info = same_address ip tcp info ≡ false

abbrev pub unregister : ServerInfo → Primaries → Primaries
unregister info ps = if info.is_primary then erase_at info.replica_group ps else ps

module _ (ip : Bytes) (tcp : ℤ) where
  mark_expired-strangers :
      (infos : List ServerInfo) (ps : Primaries) (d : Option ServerInfo)
      → All (Stranger ip tcp) infos
      → mark_expired ip tcp infos ps d ≡ (infos, (ps, d))
  unfolding mark_expired
  mark_expired-strangers [] ps d h = refl
  mark_expired-strangers (info ∷ infos) ps d h = rw (h.0, mark_expired-strangers infos ps d h.1)

  pub mark_expired-at :
      (pre : List ServerInfo) (info : ServerInfo) (post : List ServerInfo) (ps : Primaries)
      → All (Stranger ip tcp) pre
      → same_address ip tcp info ≡ true
      → All (Stranger ip tcp) post
      → mark_expired ip tcp (pre ++ info ∷ post) ps none
        ≡ (pre ++ gone info ∷ post, (unregister info ps, some (remembered info)))
  unfolding mark_expired
  mark_expired-at [] info post ps hp h hq =
      rw (h, mark_expired-strangers post (unregister info ps) (some (remembered info)) hq)
  mark_expired-at (x ∷ pre) info post ps hp h hq =
      rw (hp.0, mark_expired-at pre info post ps hp.1 h hq)

inform_all-led :
    (g : ℤ) (d p : ServerInfo) (infos : List ServerInfo) (ps : Primaries)
    → find_at g ps ≡ some p
    → All (InGroup g) infos
    → inform_all (some d) infos ps ≡ some (mail_all (some p) d infos)
unfolding inform_all death_notice prepend
inform_all-led g d p [] ps h a = refl
inform_all-led g d p (info ∷ infos) ps h a =
    let here : find_at info.replica_group ps ≡ some p = ap (λ k. find_at k ps) a.0 ∙ h in
    elim (Bool-cases info.is_dead) [
      | inl gone ↦ rw (gone, inform_all-led g d p infos ps h a.1)
      | inr live ↦ rw (live, inform_all, death_notice, here, inform_all-led g d p infos ps h a.1)
    ]

inform_all-idle :
    (d : ServerInfo) (infos : List ServerInfo) (ps : Primaries)
    → Sound none infos
    → inform_all (some d) infos ps ≡ some []
unfolding inform_all
inform_all-idle d [] ps s = refl
inform_all-idle d (info ∷ infos) ps (dead np gone s) = rw (gone, inform_all-idle d infos ps s)

pub inform_all_lem :
    (g : ℤ) (d : ServerInfo) (infos : List ServerInfo) (ps : Primaries) (r : Option ServerInfo)
    → find_at g ps ≡ r
    → Sound r infos
    → All (InGroup g) infos
    → inform_all (some d) infos ps ≡ some (mail_all r d infos)
inform_all_lem g d infos ps none h s a = inform_all-idle d infos ps s
inform_all_lem g d infos ps (some p) h s a = inform_all-led g d p infos ps h a

after_idle :
    (pre : List ServerInfo) (info : ServerInfo) (post : List ServerInfo)
    → All NotPrimary (pre ++ info ∷ post)
    → All NotPrimary (pre ++ gone info ∷ post)
after_idle [] info post h = (refl, h.1)
after_idle (x ∷ pre) info post h = (h.0, after_idle pre info post h.1)

pub after_All-InGroup :
    (g : ℤ) (pre : List ServerInfo) (info : ServerInfo) (post : List ServerInfo)
    → All (InGroup g) (pre ++ info ∷ post)
    → All (InGroup g) (pre ++ gone info ∷ post)
after_All-InGroup g [] info post h = h
after_All-InGroup g (x ∷ pre) info post h = (h.0, after_All-InGroup g pre info post h.1)

-- A dead secondary leaves the group sound under its primary.
pub after_secondary :
    (r : Option ServerInfo) (pre : List ServerInfo) (info : ServerInfo) (post : List ServerInfo)
    → info.is_primary ≡ false
    → Sound r (pre ++ info ∷ post)
    → Sound r (pre ++ gone info ∷ post)
after_secondary none [] info post h (dead np d s) = dead refl refl s
after_secondary (some _) [] info post h (secondary np s) = secondary refl s
after_secondary (some _) [] info post h (primary p live np) = ground arith
after_secondary none (x ∷ pre) info post h (dead np d s) =
    dead np d (after_secondary none pre info post h s)
after_secondary (some _) (x ∷ pre) info post h (secondary np s) =
    secondary np (after_secondary (some _) pre info post h s)
after_secondary (some _) (x ∷ pre) info post h (primary p live np) =
    primary p live (after_idle pre info post np)

secondary_inside :
    (pre : List ServerInfo) (info : ServerInfo) (post : List ServerInfo)
    → All NotPrimary (pre ++ info ∷ post)
    → info.is_primary ≡ false
secondary_inside [] info post h = h.0
secondary_inside (x ∷ pre) info post h = secondary_inside pre info post h.1

idle-NotPrimary : (infos : List ServerInfo) → Sound none infos → All NotPrimary infos
idle-NotPrimary [] s = tt
idle-NotPrimary (info ∷ infos) (dead np d s) = (np, idle-NotPrimary infos s)

-- A dead primary leaves a group with no primary.
pub after_primary :
    (r : Option ServerInfo) (pre : List ServerInfo) (info : ServerInfo) (post : List ServerInfo)
    → info.is_primary ≡ true
    → Sound r (pre ++ info ∷ post)
    → All NotPrimary (pre ++ gone info ∷ post)
after_primary none pre info post h s =
    after_idle pre info post (idle-NotPrimary (pre ++ info ∷ post) s)
after_primary (some _) [] info post h (secondary np s) = ground arith
after_primary (some _) [] info post h (primary p live np) = (refl, np)
after_primary (some _) (x ∷ pre) info post h (secondary np s) =
    (np, after_primary (some _) pre info post h s)
after_primary (some _) (x ∷ pre) info post h (primary p live np) =
    let n = secondary_inside pre info post np in ground arith

-- The servers after a death, and the mail.
abbrev pub servers_after : ServerInfo → List ServerInfo → List ServerInfo
servers_after info infos = if info.is_primary then first_primary infos else infos

abbrev pub mail_after : Option ServerInfo → ServerInfo → List ServerInfo → List Datagram
mail_after r info infos =
    if info.is_primary
    then mail_failover (remembered info) infos
    else mail_all r (remembered info) infos
