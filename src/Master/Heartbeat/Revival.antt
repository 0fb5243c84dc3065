-- ===== src/Master/Heartbeat/Revival.antt =====
-- What the loop of `recvHeartbeat` makes of a sound group.
use distributed_cloud_storag.Prelude.{
  ◌≡◌, refl, ap, ◌∙◌, true, false, Bool-cases, inl, inr, List, [], ◌∷◌, ◌++◌, map, Option, none,
  some, arith, if◌then◌else◌, All,
}
use distributed_cloud_storag.Prelude.Int.{ℤ, eqz}
use distributed_cloud_storag.Kvstore.Config.{ServerInfo}
use distributed_cloud_storag.Master.State.{
  Primaries, Datagram, find_at, put_at, send_is_primary, send_new_secondary,
}
use distributed_cloud_storag.Master.Groups.{NotPrimary, InGroup, Sound, dead, secondary, primary}
use distributed_cloud_storag.Master.Heartbeat.{Round, welcome, greet, keep, greeted, revive}

-- A server with the port is alive.
abbrev pub awake : ℤ → ServerInfo → ServerInfo
awake tcp info =
    if eqz info.tcp_port tcp
    then if info.is_dead then record info { is_dead = false } else info
    else info

-- The last server with the port.
abbrev pub last_port : ℤ → List ServerInfo → Option ServerInfo → Option ServerInfo
last_port tcp [] found = found
last_port tcp (info ∷ infos) found =
    last_port tcp infos (if eqz info.tcp_port tcp then some info else found)

awake-primary : (tcp : ℤ) (info : ServerInfo) → (awake tcp info).is_primary ≡ info.is_primary
awake-primary tcp info = ground arith

awake-group : (tcp : ℤ) (info : ServerInfo) → (awake tcp info).replica_group ≡ info.replica_group
awake-group tcp info = ground arith

awake-live : (tcp : ℤ) (info : ServerInfo) → info.is_dead ≡ false → awake tcp info ≡ info
awake-live tcp info h = ground arith

pub awake-All-NotPrimary :
    (tcp : ℤ) (infos : List ServerInfo)
    → All NotPrimary infos
    → All NotPrimary (map (awake tcp) infos)
awake-All-NotPrimary tcp [] h = h
awake-All-NotPrimary tcp (info ∷ infos) h =
    (awake-primary tcp info ∙ h.0, awake-All-NotPrimary tcp infos h.1)

pub idle-NotPrimary : (infos : List ServerInfo) → Sound none infos → All NotPrimary infos
idle-NotPrimary [] s = tt
idle-NotPrimary (info ∷ infos) (dead np d s) = (np, idle-NotPrimary infos s)

pub awake-All-InGroup :
    (tcp g : ℤ) (infos : List ServerInfo)
    → All (InGroup g) infos
    → All (InGroup g) (map (awake tcp) infos)
awake-All-InGroup tcp g [] h = h
awake-All-InGroup tcp g (info ∷ infos) h =
    (awake-group tcp info ∙ h.0, awake-All-InGroup tcp g infos h.1)

pub awake-Sound :
    (tcp : ℤ) (p : ServerInfo) (infos : List ServerInfo)
    → Sound (some p) infos
    → Sound (some p) (map (awake tcp) infos)
awake-Sound tcp p [] s = elim s [ ]
awake-Sound tcp p (info ∷ infos) (secondary h s) =
    secondary (awake-primary tcp info ∙ h) (awake-Sound tcp p infos s)
awake-Sound tcp p (info ∷ infos) (primary h live rest) =
    coe 1 0 (i. Sound (some p) (awake-live tcp p live i ∷ map (awake tcp) infos))
      (primary h live (awake-All-NotPrimary tcp infos rest))

-- The loop goes through: the servers, the primaries and the last server with the port are these.
abbrev pub Goes : Option Round → List ServerInfo → Primaries → Option ServerInfo → Type 0
Goes r infos ps found = (out : List Datagram) × (r ≡ some (infos, (ps, (found, out))))

pub keep-Goes :
    {r : Option Round} {infos : List ServerInfo} {ps : Primaries} {found : Option ServerInfo}
    (info : ServerInfo) (mail : List Datagram)
    → Goes r infos ps found
    → Goes (keep info mail r) (info ∷ infos) ps found
unfolding keep
keep-Goes info mail (out, e) = (mail ++ out, rw e)

greet-some :
    (info : ServerInfo) (ps : Primaries) (p : ServerInfo)
    → find_at info.replica_group ps ≡ some p
    → (mail : List Datagram) × (greet info ps ≡ some mail)
unfolding greet
greet-some info ps p h = (
  send_is_primary info.is_primary info p none
      ∷ (if info.is_primary then [] else send_new_secondary p info ∷ []),
  rw (greet, h),
)

pub greeted-Goes :
    {r : Option Round} {infos : List ServerInfo} {ps : Primaries} {found : Option ServerInfo}
    (info : ServerInfo) (primaries : Primaries) (p : ServerInfo)
    → find_at info.replica_group primaries ≡ some p
    → Goes r infos ps found
    → Goes (greeted info (greet info primaries) r) (info ∷ infos) ps found
unfolding greeted keep
greeted-Goes info primaries p h (out, e) =
    let (mail, told) = greet-some info primaries p h in (mail ++ out, rw (told, e))

module _ (g tcp : ℤ) (info : ServerInfo) (infos : List ServerInfo) (ps : Primaries)
    (found : Option ServerInfo) where
  pub revive-passed :
      eqz info.tcp_port tcp ≡ false
      → revive g tcp (info ∷ infos) ps found ≡ keep info [] (revive g tcp infos ps found)
  unfolding revive
  revive-passed h = ground arith

  revive-alive :
      eqz info.tcp_port tcp ≡ true
      → info.is_dead ≡ false
      → revive g tcp (info ∷ infos) ps found ≡ keep info [] (revive g tcp infos ps (some info))
  unfolding revive
  revive-alive h d = ground arith

  pub revive-revived :
      (w : ServerInfo × Primaries)
      → welcome g info ps ≡ w
      → eqz info.tcp_port tcp ≡ true
      → info.is_dead ≡ true
      → revive g tcp (info ∷ infos) ps found
        ≡ greeted w.0 (greet w.0 w.1) (revive g tcp infos w.1 (some info))
  unfolding revive
  revive-revived w e h d = rw (h, d, e)

pub transport_along :
    {r r' : Option Round} {infos infos' : List ServerInfo} {ps : Primaries}
    {found found' : Option ServerInfo}
    → r ≡ r'
    → infos' ≡ infos
    → found' ≡ found
    → Goes r' infos' ps found'
    → Goes r infos ps found
transport_along e ei ef (out, h) = (out, e ∙ h ∙ rw (ei, ef))

module _ (g tcp : ℤ) where
  welcome-some :
      (info : ServerInfo) (ps : Primaries) (p : ServerInfo)
      → find_at g ps ≡ some p
      → welcome g info ps ≡ (record info { is_dead = false }, ps)
  unfolding welcome
  welcome-some info ps p h = rw (welcome, h)

  pub welcome-none :
      (info : ServerInfo) (ps : Primaries)
      → find_at g ps ≡ none
      → welcome g info ps ≡ (
        record info { is_dead = false; is_primary = true },
        put_at g (record info { is_dead = false; is_primary = true }) ps,
      )
  unfolding welcome
  welcome-none info ps h = rw (welcome, h)

  pub revive_led :
      (infos : List ServerInfo) (ps : Primaries) (p : ServerInfo) (found : Option ServerInfo)
      → find_at g ps ≡ some p
      → All (InGroup g) infos
      → Goes (revive g tcp infos ps found) (map (awake tcp) infos) ps (last_port tcp infos found)
  unfolding revive
  revive_led [] ps p found h a = ([], refl)
  revive_led (info ∷ infos) ps p found h a = elim (Bool-cases (eqz info.tcp_port tcp)) [
    | inr other ↦
        transport_along (revive-passed g tcp info infos ps found other) (rw other) (rw other)
          (keep-Goes info [] (revive_led infos ps p found h a.1))
    | inl same ↦ elim (Bool-cases info.is_dead) [
      | inr live ↦
          transport_along (revive-alive g tcp info infos ps found same live) (rw (same, live))
            (rw same) (keep-Goes info [] (revive_led infos ps p (some info) h a.1))
      | inl d ↦
          transport_along
            (revive-revived g tcp info infos ps found _ (welcome-some info ps p h) same d)
            (rw (same, d)) (rw same)
            (greeted-Goes (record info { is_dead = false }) ps p (ap (λ k. find_at k ps) a.0 ∙ h)
              (revive_led infos ps p (some info) h a.1))
    ]
  ]
