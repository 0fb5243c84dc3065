-- ===== src/Tests/Mails.antt =====
-- Mails that reach the SMTP server, and what becomes of them.
use distributed_cloud_storag.Prelude.{
  ◌+◌, ◌≡◌, ◌≢◌, refl, true, false, [], ◌∷◌, some, arith, ◌/◌, ◌%◌,
}
use distributed_cloud_storag.Prelude.Dict.{Bytes, eqb}
use distributed_cloud_storag.Prelude.Int.{ℤ, pos}
use distributed_cloud_storag.Text.{codes, to_lower}
use distributed_cloud_storag.Text.Find.{find, find_byte, behind, up_to, starts_with}
use distributed_cloud_storag.Text.Decimal.{stoi}
use distributed_cloud_storag.Kvstore.Config.{group_of}
use distributed_cloud_storag.Kvstore.Table.{get}
use distributed_cloud_storag.Kvstore.Handle.{ok_reply}
use distributed_cloud_storag.Kvstore.Connection.{Connection, receive}
use distributed_cloud_storag.Kvstore.Cluster.{Cluster, cluster_net, is_live}
use distributed_cloud_storag.Kvstore.Cluster.Peer.{Carried, IsReady}
use distributed_cloud_storag.Smtp.Text.{
  verb_of, same_letters, extract_ip_and_port, split_address, port_of, with_port, is_empty,
  local_part,
}
use distributed_cloud_storag.Smtp.State.{World, fresh, send_response, bad_sequence}
use distributed_cloud_storag.Smtp.Commands.{noop_command, command}
use distributed_cloud_storag.Smtp.Delivery.{is_complete, put_mail}
use distributed_cloud_storag.Smtp.Connection.{
  Conn, greeted, next_line, moved_on, after_command, at_line_end, round, lines, all_lines,
  read_commands, receive_in, serve_from, handle_connection,
}
use distributed_cloud_storag.Smtp.Connection
use distributed_cloud_storag.Smtp.Connection.Rounds.{Sound}
use distributed_cloud_storag.Smtp.Connection.Sound.{handle_connection-Sound}
use distributed_cloud_storag.Smtp.Connection.Mail.{Arrives}
use distributed_cloud_storag.Smtp.Line.{idle}
use distributed_cloud_storag.Smtp.Valid.{IsSender}
use distributed_cloud_storag.Smtp.Exchange.{exchange, mail_sent, handle_connection-exchange}
use distributed_cloud_storag.Smtp.Stored.{IsBase64, mail_key, receive-put_mail}
use distributed_cloud_storag.Tests.Sample.{server_at, context_of}

-- An encoder for the tests: two letters for a byte.
abbrev pub letters : Bytes → Bytes
letters [] = []
letters (b ∷ s) = (b'A' + b / 16) ∷ (b'A' + b % 16) ∷ letters s

pub letters-Carried : (s : Bytes) → Carried (letters s)
letters-Carried [] = (tt, tt)
letters-Carried (b ∷ s) =
    let (c, r) = letters-Carried s in
    ((omega arith, (omega arith, c)), (omega arith, (omega arith, r)))

pub letters-IsBase64 : IsBase64 letters
letters-IsBase64 = record { carried = letters-Carried; full = full }
  where
    full : (s : Bytes) → s ≢ [] → letters s ≢ []
    full [] n = absurd (n refl)
    full (b ∷ s) n = λ e. cc

abbrev pub answer : Bytes
answer = codes "SERVER_INFO:127.0.0.1:5000\r\n"

abbrev pub world : World
world = record {
  base64 = letters;
  date = λ user. codes "Mon";
  server_of = λ user. some answer;
  reaches = λ server. true;
  queue_opens = λ user. true;
}

abbrev pub server : Bytes × ℤ
server = (codes "127.0.0.1", pos 5000)

pub answer_read : extract_ip_and_port answer ≡ some server
unfolding extract_ip_and_port split_address port_of with_port find find_byte behind up_to
    starts_with stoi
answer_read = refl

bob-IsSender : IsSender (codes "bob@x")
unfolding find_byte is_empty local_part
bob-IsSender = (3, refl, refl)

two_pieces : Arrives (codes "Hi") [] (codes "Hi\r\n." ∷ codes "\r\n" ∷ [])
unfolding is_complete eqb
two_pieces = ((λ e. cc), refl, ((λ e. cc), refl))

handle_connection-exchange_example :
    handle_connection world
      (exchange (codes "me") (codes "bob@x") (codes "ann") (codes "Hi\r\n." ∷ codes "\r\n" ∷ []))
    ≡ some (idle (mail_sent world (codes "bob@x") (codes "ann") (codes "Hi") server))
handle_connection-exchange_example =
    handle_connection-exchange world (codes "me") (codes "bob@x") (codes "ann") (codes "Hi") answer
      (codes "Hi\r\n." ∷ codes "\r\n" ∷ []) server (omega arith) (omega arith) (omega arith)
      (λ e. cc) (omega arith) bob-IsSender (λ e. cc) (omega arith) (omega arith) two_pieces refl
      answer_read refl

-- A client that says NOOP before HELO.
abbrev after_noop : Conn
after_noop = record greeted {
  session = record fresh {
    sent = codes "220 localhost service ready\r\n" ∷ codes "503 Bad Sequence of Commands\r\n" ∷ [];
  };
}

noop_run : handle_connection world (codes "noop\r\n" ∷ []) ≡ some after_noop
unfolding handle_connection serve_from Connection.receive receive_in read_commands all_lines lines
    round at_line_end after_command moved_on next_line find starts_with verb_of same_letters
    to_lower command noop_command bad_sequence send_response
noop_run = refl

abbrev pub peers : Cluster
peers p = server_at 8001 false

peers-IsReady : (p : ℤ) → IsReady (peers p)
peers-IsReady p = record { enabled = refl; awake = refl; secondary = refl }

abbrev pub waiting : Connection Cluster
waiting = record { context = context_of (server_at 8000 true) peers; command = []; sent = [] }

handle_connection-Sound_example : Sound after_noop
handle_connection-Sound_example =
    handle_connection-Sound world (codes "noop\r\n" ∷ []) after_noop noop_run

receive-put_mail_example :
    (k' : Connection Cluster) × (receive
        (cluster_net 7)
        7
        (put_mail world (codes "bob@x") (codes "ann") (codes "Hi"))
        waiting
      ≡ some k')
    × (k'.sent ≡ ok_reply ∷ [])
    × (get k'.context.server.table (codes "ann") (mail_key world (codes "bob@x") (codes "ann"))
        ≡ some (letters (codes "Hi")))
    × ((p : ℤ)
        → is_live p (group_of (pos 1) waiting.context.server.servers) ≡ true
        → get
            (k'.context.world p).table
            (codes "ann")
            (mail_key world (codes "bob@x") (codes "ann"))
          ≡ some (letters (codes "Hi")))
receive-put_mail_example =
    receive-put_mail world 7 (codes "bob@x") (codes "ann") (codes "Hi") letters-IsBase64 waiting
      (omega arith, omega arith) (omega arith, omega arith) (λ e. cc) refl refl refl refl
      peers-IsReady
