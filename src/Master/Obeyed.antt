-- ===== src/Master/Obeyed.antt =====
-- What a server knows after a status message of the master: `receiveStatus` of
-- backend/kvstore/kvstore.cc, field by field.
use distributed_cloud_storag.Prelude.{
  ◌≡◌, refl, sym, ◌∙◌, Bool, true, false, map, Option, none, some, if◌then◌else◌,
}
use distributed_cloud_storag.Prelude.Int.{ℤ, eqz, eqz_refl}
use distributed_cloud_storag.Kvstore.Config.{ServerInfo, group_of}
use distributed_cloud_storag.Kvstore.Server.{Server}
use distributed_cloud_storag.Kvstore.Status.{
  same_address, update_group, last_at, as_primary, as_secondary, new_secondary, peer_died,
  receive_status,
}
use distributed_cloud_storag.Master.State.{status_message, send_new_secondary}
use distributed_cloud_storag.Master.Mail.{
  IsNamed, receive_status-status_message, receive_status-send_new_secondary,
}
use distributed_cloud_storag.Master.Mail.Address.{IsAddressed}
use distributed_cloud_storag.Master.Entries.{
  listed, own, fallen, following, entry_after, Follows, group_of-update_group, group_of-twice, seen,
  last_seen-Follows,
}

abbrev pub Led : Bool → ServerInfo → Server → Server → Type 0
Led true p s s' = s'.primary ≡ s.primary
Led false p s s' = Follows (listed p (group_of s.group s.servers)) p s.primary s'.primary

-- The receiver once it has the mail.
abbrev pub receiver : Bool → Server → ServerInfo
receiver b s = record s.info { is_primary = b; is_dead = false }

pub record Obeyed (b : Bool) (p : ServerInfo) (d : Option ServerInfo) (s s' : Server) : Type 0 where
  pub info : s'.info ≡ receiver b s
  pub entries :
      (g : ℤ)
      → group_of g s'.servers ≡ (
          if eqz s.group g
          then map (entry_after b p d (receiver b s)) (group_of s.group s.servers)
          else group_of g s.servers)
  pub primary : Led b p s s'
  pub table : s'.table ≡ s.table
  pub files : s'.files ≡ s.files

-- The primary that a secondary follows.
as_secondary-Follows :
    (p : ServerInfo) (s : Server)
    → s.group ≡ s.info.replica_group
    → Led false p s (as_secondary (p.ip, p.tcp_port) s)
unfolding as_secondary same_address
as_secondary-Follows p s e =
    let me = receiver false s in
    let found : group_of s.info.replica_group
          (update_group s.info.replica_group (seen p me) s.servers)
        ≡ map (seen p me) (group_of s.group s.servers) =
      group_of-update_group s.info.replica_group s.info.replica_group (seen p me) s.servers
      ∙ rw (eqz_refl s.info.replica_group) (λ i. map (seen p me) (group_of (sym e i) s.servers)) in
    coe 1 0
      (i.
        Follows (listed p (group_of s.group s.servers)) p s.primary
          (last_at (p.ip, p.tcp_port) (found i) s.primary))
      (last_seen-Follows p me (group_of s.group s.servers) s.primary)

-- The addresses that the mail holds are those of servers that can be addressed, and the receiver is
-- of the group that it takes itself for. The mail of `sendIsPrimary` then makes it primary, or
-- secondary, and alive, in its own entry as well. The named primary, if it is listed, is marked and
-- followed by a secondary; the server that died, if one is named, is marked dead and no primary. No
-- other entry of the group, no other group, and neither the table nor a file is changed.
pub receive_status-Obeyed :
    (b : Bool) (p : ServerInfo) (d : Option ServerInfo) (s : Server)
    → IsAddressed p
    → IsNamed d
    → s.group ≡ s.info.replica_group
    → (s' : Server) × (receive_status (status_message b p d) s ≡ some s') × Obeyed b p d s s'
unfolding as_primary as_secondary peer_died same_address
receive_status-Obeyed true p none s a n e = (
  as_primary s,
  receive_status-status_message true p none s a n,
  record {
    info = refl;
    entries = λ g.
        (λ i. group_of g (update_group (sym e i) (own (receiver true s)) s.servers))
        ∙ group_of-update_group s.group g (own (receiver true s)) s.servers;
    primary = refl;
    table = refl;
    files = refl;
  },
)
receive_status-Obeyed true p (some d) s a n e = (
  _,
  receive_status-status_message true p (some d) s a n,
  record {
    info = refl;
    entries = λ g.
        (λ i. group_of g (
          update_group s.group (fallen d)
            (update_group (sym e i) (own (receiver true s)) s.servers)))
        ∙ group_of-twice s.group g (own (receiver true s)) (fallen d) s.servers;
    primary = refl;
    table = refl;
    files = refl;
  },
)
receive_status-Obeyed false p none s a n e = (
  _,
  receive_status-status_message false p none s a n,
  record {
    info = refl;
    entries = λ g.
        (λ i. group_of g (update_group (sym e i) (seen p (receiver false s)) s.servers))
        ∙ group_of-update_group s.group g (seen p (receiver false s)) s.servers;
    primary = as_secondary-Follows p s e;
    table = refl;
    files = refl;
  },
)
receive_status-Obeyed false p (some d) s a n e = (
  _,
  receive_status-status_message false p (some d) s a n,
  record {
    info = refl;
    entries = λ g.
        (λ i. group_of g (
          update_group s.group (fallen d)
            (update_group (sym e i) (seen p (receiver false s)) s.servers)))
        ∙ group_of-twice s.group g (seen p (receiver false s)) (fallen d) s.servers;
    primary = as_secondary-Follows p s e;
    table = refl;
    files = refl;
  },
)

-- The receiver once it has the news of a secondary.
pub record Joined (d : ServerInfo) (s s' : Server) : Type 0 where
  pub info : s'.info ≡ receiver true s
  pub entries :
      (g : ℤ)
      → group_of g s'.servers ≡ (
          if eqz s.info.replica_group g
          then map
              (λ x. following d (own (receiver true s) x))
              (group_of s.info.replica_group s.servers)
          else group_of g s.servers)
  pub primary : s'.primary ≡ s.primary
  pub table : s'.table ≡ s.table
  pub files : s'.files ≡ s.files

-- A server that gets the mail of `sendNewSecondaryInfoToPrimary`, which names a server that can be
-- addressed, is primary and alive, in its own entry as well; the entry of the server that the mail
-- names is marked alive and no primary; and no other entry of the group, no other group, and neither
-- the table nor a file is changed.
pub receive_status-Joined :
    (p d : ServerInfo) (s : Server)
    → IsAddressed d
    → (s' : Server) × (receive_status (send_new_secondary p d).body s ≡ some s') × Joined d s s'
unfolding as_primary new_secondary same_address
receive_status-Joined p d s a = (
  _,
  receive_status-send_new_secondary p d s a,
  record {
    info = refl;
    entries =
        λ g. group_of-twice s.info.replica_group g (own (receiver true s)) (following d) s.servers;
    primary = refl;
    table = refl;
    files = refl;
  },
)
