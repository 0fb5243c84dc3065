-- ===== src/Master/Heartbeat/Settled.antt =====
-- A heartbeat leaves a sound group: at most one primary, which is alive.
use distributed_cloud_storag.Prelude.{
  ◌≡◌, refl, sym, ap, ◌∙◌, true, false, Bool-cases, Option-cases, inl, inr, List, [], ◌∷◌, map,
  ◌&&◌, Option, none, some, arith, All,
}
use distributed_cloud_storag.Prelude.Int.{ℤ, eqz, eqz_refl}
use distributed_cloud_storag.Kvstore.Config.{ServerInfo}
use distributed_cloud_storag.Master.State.{Primaries, find_at, put_at}
use distributed_cloud_storag.Master.Groups.{
  InGroup, Sound, nil, dead, secondary, primary, find_at-put_at,
}
use distributed_cloud_storag.Master.Heartbeat.Revival.{
  last_port, Goes, awake, awake-All-NotPrimary, awake-All-InGroup, awake-Sound, idle-NotPrimary,
  transport_along, keep-Goes, greeted-Goes, revive-passed, revive-revived, welcome-none, revive_led,
}
use distributed_cloud_storag.Master.Heartbeat.{Round, revive}

-- A server with the port is alive.
abbrev pub Heard : ℤ → ServerInfo → Type 0
Heard tcp info = (eqz info.tcp_port tcp && info.is_dead) ≡ false

awake-Heard : (tcp : ℤ) (info : ServerInfo) → Heard tcp (awake tcp info)
awake-Heard tcp info = ground arith

awake-All-Heard : (tcp : ℤ) (infos : List ServerInfo) → All (Heard tcp) (map (awake tcp) infos)
awake-All-Heard tcp [] = tt
awake-All-Heard tcp (info ∷ infos) = (awake-Heard tcp info, awake-All-Heard tcp infos)

-- The loop goes through, and leaves a sound group and the primaries of the other groups.
abbrev pub Settled : ℤ → ℤ → Primaries → Option Round → Option ServerInfo → Type 0
Settled g tcp ps r found =
    (infos : List ServerInfo) × (ps' : Primaries) × Goes r infos ps' found
    × Sound (find_at g ps') infos
    × All (InGroup g) infos
    × All (Heard tcp) infos
    × ((h : ℤ) → eqz g h ≡ false → find_at h ps' ≡ find_at h ps)

revive_nil :
    (g tcp : ℤ) (ps : Primaries) (found : Option ServerInfo)
    → revive g tcp [] ps found ≡ some ([], (ps, (found, [])))
unfolding revive
revive_nil g tcp ps found = refl

pub with_idle :
    (r : Option ServerInfo) {info : ServerInfo} {infos : List ServerInfo}
    → info.is_primary ≡ false
    → info.is_dead ≡ true
    → Sound r infos
    → Sound r (info ∷ infos)
with_idle none np d s = dead np d s
with_idle (some p) np d s = secondary np s

pub as_sound :
    {r r' : Option ServerInfo} {infos : List ServerInfo} → r ≡ r' → Sound r' infos → Sound r infos
as_sound {infos = infos} e s = coe 1 0 (i. Sound (e i) infos) s

module _ (g tcp : ℤ) where
  revive_first :
      (info : ServerInfo) (infos : List ServerInfo) (ps : Primaries) (found : Option ServerInfo)
      → find_at g ps ≡ none
      → eqz info.tcp_port tcp ≡ true
      → info.is_dead ≡ true
      → Sound none infos
      → All (InGroup g) (info ∷ infos)
      → Settled g tcp ps (revive g tcp (info ∷ infos) ps found) (last_port tcp (info ∷ infos) found)
  revive_first info infos ps found h same d s a =
      let p = record info { is_dead = false; is_primary = true } in
      let registered : find_at g (put_at g p ps) ≡ some p =
        find_at-put_at g g p ps ∙ rw (eqz_refl g) in
      (
        p ∷ map (awake tcp) infos,
        put_at g p ps,
        transport_along
            (revive-revived g tcp info infos ps found _ (welcome-none g tcp info ps h) same d) refl
            (rw same)
            (greeted-Goes p (put_at g p ps) p (ap (λ k. find_at k (put_at g p ps)) a.0 ∙ registered)
              (revive_led g tcp infos (put_at g p ps) p (some info) registered a.1)),
        as_sound registered
            (primary refl refl (awake-All-NotPrimary tcp infos (idle-NotPrimary infos s))),
        (a.0, awake-All-InGroup tcp g infos a.1),
        (ground arith, awake-All-Heard tcp infos),
        λ k ne. find_at-put_at g k p ps ∙ rw ne,
      )

  revive_idle :
      (infos : List ServerInfo) (ps : Primaries) (found : Option ServerInfo)
      → find_at g ps ≡ none
      → Sound none infos
      → All (InGroup g) infos
      → Settled g tcp ps (revive g tcp infos ps found) (last_port tcp infos found)
  revive_idle [] ps found h s a =
      ([], ps, ([], revive_nil g tcp ps found), as_sound h nil, a, tt, λ k ne. refl)
  revive_idle (info ∷ infos) ps found h (dead np d s) a =
      elim (Bool-cases (eqz info.tcp_port tcp)) [
        | inr other ↦
            let (infos', ps', goes, sound, all, heard, others) =
              revive_idle infos ps found h s a.1 in
            (
              info ∷ infos',
              ps',
              transport_along (revive-passed g tcp info infos ps found other) refl (rw other)
                  (keep-Goes info [] goes),
              with_idle (find_at g ps') np d sound,
              (a.0, all),
              (ground arith, heard),
              others,
            )
        | inl same ↦ revive_first info infos ps found h same d s a
      ]

  pub revive_sound :
      (infos : List ServerInfo) (ps : Primaries) (found : Option ServerInfo)
      → Sound (find_at g ps) infos
      → All (InGroup g) infos
      → Settled g tcp ps (revive g tcp infos ps found) (last_port tcp infos found)
  revive_sound infos ps found s a = elim (Option-cases (find_at g ps)) [
    | inl h ↦ revive_idle infos ps found h (as_sound (sym h) s) a
    | inr (p, h) ↦ (
      map (awake tcp) infos,
      ps,
      revive_led g tcp infos ps p found h a,
      as_sound h (awake-Sound tcp p infos (as_sound (sym h) s)),
      awake-All-InGroup tcp g infos a,
      awake-All-Heard tcp infos,
      λ k ne. refl,
    )
  ]
