-- ===== src/Master/Takeover.antt =====
-- From the death of a primary to the server that takes its place: `checkHeartbeats` of
-- backend/kvstore/master.cc and `receiveStatus` of kvstore.cc together.
use distributed_cloud_storag.Prelude.{
  ◌≡◌, refl, ap, ◌∙◌, Bool, true, false, List, [], ◌∷◌, ◌++◌, Option, some, if◌then◌else◌, map, All,
}
use distributed_cloud_storag.Prelude.Dict.{Bytes}
use distributed_cloud_storag.Prelude.Int.{ℤ}
use distributed_cloud_storag.Kvstore.Config.{ServerInfo, group_of, set_group}
use distributed_cloud_storag.Kvstore.Server.{Server}
use distributed_cloud_storag.Kvstore.Status.{
  same_address, as_primary, update_group, peer_died, receive_status,
}
use distributed_cloud_storag.Master.State.{Master, Datagram, find_at, send_is_primary}
use distributed_cloud_storag.Master.Groups.{IsSound}
use distributed_cloud_storag.Master.Expiry.{bury}
use distributed_cloud_storag.Master.Expiry.Failover.{first_primary, mail_behind, mail_failover}
use distributed_cloud_storag.Master.Expiry.Death.{gone, remembered, Stranger, mail_all}
use distributed_cloud_storag.Master.Expiry.Bury.{bury_lem}
use distributed_cloud_storag.Master.Entries.{own, fallen}
use distributed_cloud_storag.Master.Mail.{receive_status-status_message}
use distributed_cloud_storag.Master.Mail.Address.{IsAddressed}

abbrev IsDown : ServerInfo → Type 0
IsDown info = info.is_dead ≡ true

abbrev pub promoted : ServerInfo → ServerInfo
promoted info = record info { is_primary = true }

first_primary-append :
    (pre : List ServerInfo) (q : ServerInfo) (post : List ServerInfo)
    → All IsDown pre
    → q.is_dead ≡ false
    → first_primary (pre ++ q ∷ post) ≡ pre ++ promoted q ∷ post
first_primary-append [] q post h live = rw live
first_primary-append (x ∷ pre) q post h live =
    ap (λ b. if b then x ∷ first_primary (pre ++ q ∷ post) else promoted x ∷ (pre ++ q ∷ post)) h.0
    ∙ ap (λ l. x ∷ l) (first_primary-append pre q post h.1 live)

mail_failover-append :
    (d : ServerInfo) (pre : List ServerInfo) (q : ServerInfo) (post : List ServerInfo)
    → All IsDown pre
    → q.is_dead ≡ false
    → mail_failover d (pre ++ q ∷ post)
      ≡ send_is_primary true (promoted q) (promoted q) (some d) ∷ mail_behind (promoted q) d post
mail_failover-append d [] q post h live =
    ap
      (λ b.
        if b
        then mail_failover d post
        else send_is_primary true (promoted q) (promoted q) (some d)
          ∷ mail_behind (promoted q) d post)
      live
mail_failover-append d (x ∷ pre) q post h live =
    ap
      (λ b.
        if b
        then mail_failover d (pre ++ q ∷ post)
        else send_is_primary true (promoted x) (promoted x) (some d)
          ∷ mail_behind (promoted x) d (pre ++ q ∷ post))
      h.0
    ∙ mail_failover-append d pre q post h.1 live

-- The new primary: it takes itself for primary and alive, and the server that died for dead.
abbrev pub taking_over : ServerInfo → Server → Server
taking_over d s =
    let me = record s.info { is_primary = true; is_dead = false } in
    let g = me.replica_group in
    let led = set_group g (map (own me) (group_of g s.servers)) s.servers in
    record s { info = me; servers = set_group s.group (map (fallen d) (group_of s.group led)) led }

-- What the new primary makes of its mail.
receive_status-promoted :
    (d q : ServerInfo) (s : Server)
    → IsAddressed q
    → IsAddressed d
    → receive_status (send_is_primary true (promoted q) (promoted q) (some (remembered d))).body s
      ≡ some (taking_over d s)
unfolding send_is_primary as_primary peer_died update_group same_address
receive_status-promoted d q s aq ad =
    receive_status-status_message true (promoted q) (some (remembered d)) s
      (record { ip = aq.ip; port = aq.port; is_port = aq.is_port; in_range = aq.in_range })
      (refl, record { ip = ad.ip; port = ad.port; is_port = ad.is_port; in_range = ad.in_range })

send_is_primary-to :
    (b : Bool) (recv p : ServerInfo) (d : Option ServerInfo)
    → ((send_is_primary b recv p d).ip ≡ recv.ip)
      × ((send_is_primary b recv p d).port ≡ recv.udp_port2)
unfolding send_is_primary
send_is_primary-to b recv p d = (refl, refl)

-- In a sound state the primary of a group dies, which is alone at its address, and a server of the
-- group is alive; the addresses of both can be sent. Then the first live one is made primary, and the
-- first mail goes to its status port. A server that gets this mail is primary and alive, in its own
-- entry as well, and marks the server that died dead and no primary; it is not changed otherwise. The
-- master's state is sound again.
pub takeover :
    (g : ℤ) (ip : Bytes) (tcp : ℤ) (m : Master) (pre : List ServerInfo) (info : ServerInfo)
    (post below : List ServerInfo) (next : ServerInfo) (above : List ServerInfo)
    → IsSound m
    → group_of g m.servers ≡ pre ++ info ∷ post
    → All (Stranger ip tcp) pre
    → same_address ip tcp info ≡ true
    → All (Stranger ip tcp) post
    → info.is_primary ≡ true
    → pre ++ gone info ∷ post ≡ below ++ next ∷ above
    → All IsDown below
    → next.is_dead ≡ false
    → IsAddressed info
    → IsAddressed next
    → (m' : Master) × (mail : Datagram) × (out : List Datagram) × (bury g ip tcp m
        ≡ some (m', mail ∷ out))
      × (group_of g m'.servers ≡ below ++ promoted next ∷ above)
      × (mail.ip ≡ next.ip)
      × (mail.port ≡ next.udp_port2)
      × ((s : Server) → receive_status mail.body s ≡ some (taking_over info s))
      × IsSound m'
takeover g ip tcp m pre info post below next above sound e hp h hq led split down live ai an =
    let infos = pre ++ gone info ∷ post in
    let (m', b, servers, sound') = bury_lem g ip tcp m pre info post sound e hp h hq in
    let p = promoted next in
    let lost = remembered info in
    let r = find_at g m.primaries in
    let mailed =
      ap (λ c. if c then mail_failover lost infos else mail_all r lost infos) led
      ∙ ap (mail_failover lost) split
      ∙ mail_failover-append lost below next above down live in
    let kept =
      ap (λ c. if c then first_primary infos else infos) led
      ∙ ap first_primary split
      ∙ first_primary-append below next above down live in
    let to = send_is_primary-to true p p (some (remembered info)) in
    (
      m',
      send_is_primary true p p (some (remembered info)),
      mail_behind p (remembered info) above,
      b ∙ ap (λ l. some (m', l)) mailed,
      servers ∙ kept,
      to.0,
      to.1,
      λ s. receive_status-promoted info next s an ai,
      sound',
    )
