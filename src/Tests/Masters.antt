-- ===== src/Tests/Masters.antt =====
-- The master of the sample group.
use distributed_cloud_storag.Prelude.{
  ℕ, ◌≡◌, refl, Bool, true, false, ◌⊎◌, List, [], ◌∷◌, some, arith, ◌<◌, All,
}
use distributed_cloud_storag.Prelude.Dict.{eqb, insert}
use distributed_cloud_storag.Prelude.Int.{pos, eqz}
use distributed_cloud_storag.Text.{codes}
use distributed_cloud_storag.Text.Decimal.{to_string}
use distributed_cloud_storag.Kvstore.Config.{group_of, set_group}
use distributed_cloud_storag.Kvstore.Server.{Server}
use distributed_cloud_storag.Kvstore.Status.{same_address, heartbeat_message, receive_status}
use distributed_cloud_storag.Master.State.{
  Master, Datagram, find_at, put_at, status_message, send_new_secondary,
}
use distributed_cloud_storag.Master.Groups.{nil, primary, IsSound, update-IsSound}
use distributed_cloud_storag.Master.Request.{next_of}
use distributed_cloud_storag.Master.Request.Answer.{NoneAlive, AnswersFirst, choose_server_lem}
use distributed_cloud_storag.Master.Heartbeat.{heartbeat_key, recv_heartbeat, buffer_size}
use distributed_cloud_storag.Master.Heartbeat.Settled.{Heard}
use distributed_cloud_storag.Master.Heartbeat.Message.{recv_heartbeat_lem}
use distributed_cloud_storag.Master.Expiry.{bury}
use distributed_cloud_storag.Master.Expiry.Death.{gone, servers_after, mail_after}
use distributed_cloud_storag.Master.Expiry.Bury.{bury_lem}
use distributed_cloud_storag.Master.Mail.Address.{IsIp, IsAddressed}
use distributed_cloud_storag.Master.Obeyed.{
  Obeyed, Joined, receive_status-Obeyed, receive_status-Joined,
}
use distributed_cloud_storag.Master.Takeover.{promoted, taking_over, takeover}
use distributed_cloud_storag.Smtp.Address.{Reads, Ends, extract_ip_and_port-choose_server}
use distributed_cloud_storag.Tests.Sample.{info_at, infos, server_at}

abbrev nobody : Master
nobody = record { servers = []; primaries = []; next = []; seen = [] }

nobody-IsSound : IsSound nobody
unfolding find_at group_of
nobody-IsSound g = (nil, tt)

abbrev master : Master
master = record {
  servers = set_group (pos 1) infos [];
  primaries = put_at (pos 1) (info_at 8000 true false) [];
  next = [];
  seen = [];
}

master-IsSound : IsSound master
unfolding find_at put_at eqz
master-IsSound =
    update-IsSound nobody (pos 1) infos (put_at (pos 1) (info_at 8000 true false) []) []
      nobody-IsSound (primary refl refl (refl, (refl, tt))) (refl, (refl, (refl, tt)))
      (λ h e. ground arith)

choose_server_lem_example : NoneAlive (pos 1) master ⊎ AnswersFirst (pos 1) master
unfolding next_of find_at group_of set_group eqz
choose_server_lem_example = choose_server_lem (pos 1) master (omega arith)

extract_ip_and_port-choose_server_example : Reads (pos 1) master [] ⊎ Ends (pos 1) master []
unfolding next_of find_at group_of set_group eqz
extract_ip_and_port-choose_server_example =
    extract_ip_and_port-choose_server (pos 1) master [] (omega arith)
      (
        (omega arith, (8000, refl, omega arith)),
        ((omega arith, (8001, refl, omega arith)), ((omega arith, (8002, refl, omega arith)), tt)),
      )
      tt

-- The primary dies: it is the first of the group.
bury_lem_example :
    (m' : Master) × (bury (pos 1) (codes "127.0.0.1") (pos 8000) master
      ≡ some (
        m',
        mail_after (find_at (pos 1) master.primaries) (info_at 8000 true false) (
            gone (info_at 8000 true false)
            ∷ info_at 8001 false false
            ∷ info_at 8002 false true
            ∷ []),
      ))
    × (group_of (pos 1) m'.servers
        ≡ servers_after (info_at 8000 true false) (
            gone (info_at 8000 true false)
            ∷ info_at 8001 false false
            ∷ info_at 8002 false true
            ∷ []))
    × IsSound m'
unfolding group_of set_group eqz same_address eqb
bury_lem_example =
    bury_lem (pos 1) (codes "127.0.0.1") (pos 8000) master [] (info_at 8000 true false)
      (info_at 8001 false false ∷ info_at 8002 false true ∷ []) master-IsSound refl tt refl
      (refl, (refl, tt))

recv_heartbeat_lem_example :
    (m' : Master) × (out : List Datagram) × (recv_heartbeat 5
        (heartbeat_message (server_at 8002 false))
        master
      ≡ some (m', out))
    × (m'.seen ≡ insert (heartbeat_key (info_at 8002 false true)) 5 [])
    × All (Heard (pos 8002)) (group_of (pos 1) m'.servers)
    × IsSound m'
unfolding group_of set_group eqz heartbeat_message to_string buffer_size
recv_heartbeat_lem_example =
    recv_heartbeat_lem 5 1 8002 (server_at 8002 false) master (info_at 8002 false true) refl refl
      (omega arith) (omega arith) (omega arith) refl master-IsSound

local-IsIp : IsIp (codes "127.0.0.1")
local-IsIp = omega arith

addressed : (port : ℕ) → (p d : Bool) → port < 100000 → IsAddressed (info_at port p d)
addressed port p d l = record {
  ip = local-IsIp;
  port = port;
  is_port = refl;
  in_range = omega (arith, l);
}

-- The secondary at 8002 is told that the one at 8001 is primary since the one at 8000 died.
receive_status-Obeyed_example :
    (s' : Server) × (receive_status
        (status_message false (info_at 8001 true false) (some (info_at 8000 true true)))
        (server_at 8002 false)
      ≡ some s')
    × Obeyed false
        (info_at 8001 true false)
        (some (info_at 8000 true true))
        (server_at 8002 false)
        s'
receive_status-Obeyed_example =
    receive_status-Obeyed false (info_at 8001 true false) (some (info_at 8000 true true))
      (server_at 8002 false) (addressed 8001 true false (omega arith))
      (refl, addressed 8000 true true (omega arith)) refl

receive_status-Joined_example :
    (s' : Server) × (receive_status
        (send_new_secondary (info_at 8000 true false) (info_at 8002 false false)).body
        (server_at 8000 true)
      ≡ some s')
    × Joined (info_at 8002 false false) (server_at 8000 true) s'
receive_status-Joined_example =
    receive_status-Joined (info_at 8000 true false) (info_at 8002 false false) (server_at 8000 true)
      (addressed 8002 false false (omega arith))

-- The one at 8000 dies, and the one at 8001 takes over.
takeover_example :
    (m' : Master) × (mail : Datagram) × (out : List Datagram) × (bury
        (pos 1)
        (codes "127.0.0.1")
        (pos 8000)
        master
      ≡ some (m', mail ∷ out))
    × (group_of (pos 1) m'.servers
        ≡ gone (info_at 8000 true false)
          ∷ promoted (info_at 8001 false false)
          ∷ info_at 8002 false true
          ∷ [])
    × (mail.ip ≡ codes "127.0.0.1")
    × (mail.port ≡ pos 10001)
    × ((s : Server) → receive_status mail.body s ≡ some (taking_over (info_at 8000 true false) s))
    × IsSound m'
unfolding group_of set_group eqz same_address eqb
takeover_example =
    takeover (pos 1) (codes "127.0.0.1") (pos 8000) master [] (info_at 8000 true false)
      (info_at 8001 false false ∷ info_at 8002 false true ∷ [])
      (gone (info_at 8000 true false) ∷ []) (info_at 8001 false false)
      (info_at 8002 false true ∷ []) master-IsSound refl tt refl (refl, (refl, tt)) refl refl
      (refl, tt) refl (addressed 8000 true false (omega arith))
      (addressed 8001 false false (omega arith))
