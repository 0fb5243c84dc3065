-- ===== src/Tests/Senders.antt =====
-- Senders, recipients and deliveries of the SMTP server.
use distributed_cloud_storag.Prelude.{
  ◌+◌, ◌≡◌, refl, false, ◌||◌, ◌==◌, [], ◌∷◌, ◌++◌, some, arith, if◌then◌else◌, length, inl,
}
use distributed_cloud_storag.Prelude.Dict.{Bytes, eqb}
use distributed_cloud_storag.Text.{codes}
use distributed_cloud_storag.Text.Find.{find_byte}
use distributed_cloud_storag.Kvstore.Split.{split_command}
use distributed_cloud_storag.Kvstore.Framing.Frames.{crlf}
use distributed_cloud_storag.Kvstore.Handle.{from_frontend, handle_command}
use distributed_cloud_storag.Kvstore.Recovery.Writes.{put, params}
use distributed_cloud_storag.Kvstore.Cluster.{cluster_net}
use distributed_cloud_storag.Smtp.Text.{mail, rcpt, between, angles, is_empty, is_local}
use distributed_cloud_storag.Smtp.State.{
  helo_received, mail_from_received, rcpt_to_received, Session, fresh, send_response,
}
use distributed_cloud_storag.Smtp.Commands.{goes_on, fault, command}
use distributed_cloud_storag.Smtp.Delivery.{put_mail, deliver}
use distributed_cloud_storag.Smtp.Delivery.Mails.{all_puts, delivered, deliver_lem}
use distributed_cloud_storag.Smtp.Connection.{Conn, greeted, lines, all_lines}
use distributed_cloud_storag.Smtp.Connection.Fuel.{lines_enough}
use distributed_cloud_storag.Smtp.Senders.{mail_command_lem, rcpt_command-fault}
use distributed_cloud_storag.Smtp.Stored.{put_mail-injected}
use distributed_cloud_storag.Tests.Mails.{world, waiting}

abbrev asked : Session
asked = record fresh {
  state = rcpt_to_received;
  mail_from = codes "bob@x";
  rcpt_to = codes "ann" ∷ [];
  rcpt_to_relay = codes "eve@y" ∷ [];
}

deliver_lem_example :
    deliver world (codes "Hi\r\n") asked
    ≡ delivered world
        (codes "Hi\r\n")
        asked
        (all_puts world (codes "bob@x") (codes "Hi\r\n") (codes "ann" ∷ []))
deliver_lem_example = deliver_lem world (codes "Hi\r\n") asked

abbrev two_lines : Conn
two_lines = record greeted { buffer = codes "NOOP\r\nHELO me\r\n" }

lines_enough_example : lines (100 + length two_lines.buffer) two_lines ≡ all_lines two_lines
lines_enough_example = lines_enough two_lines 100

-- A user with a name of one letter cannot send.
abbrev greeting : Session
greeting = record fresh { state = helo_received }

short_line :
    between (codes "MAIL FROM:<b@localhost>\r\n") ≡ some (codes "b" ++ b'@' ∷ codes "localhost")
unfolding between angles find_byte
short_line = refl

mail_command_lem_example :
    command mail (codes "MAIL FROM:<b@localhost>\r\n") greeting
    ≡ goes_on (
        let kept = record greeting { mail_from = codes "b@localhost" } in
        if length (codes "b") == 1 || is_empty (codes "localhost")
        then send_response (codes "501 Syntax Error, local or domain part empty") kept
        else record (send_response (codes "250 OK : Sender ok\r\n") kept) {
          state = mail_from_received;
        })
mail_command_lem_example =
    mail_command_lem (codes "MAIL FROM:<b@localhost>\r\n") (codes "b") (codes "localhost") greeting
      refl short_line (omega arith)

long_line : between (codes "RCPT TO:<benjamin@y>\r\n") ≡ some (codes "benjamin" ++ b'@' ∷ codes "y")
unfolding between angles find_byte
long_line = refl

elsewhere : is_local (codes "benjamin" ++ b'@' ∷ codes "y") ≡ false
unfolding is_local eqb
elsewhere = refl

abbrev named : Session
named = record fresh { state = mail_from_received; mail_from = codes "bob@x" }

rcpt_command-fault_example : command rcpt (codes "RCPT TO:<benjamin@y>\r\n") named ≡ fault
rcpt_command-fault_example =
    rcpt_command-fault (codes "RCPT TO:<benjamin@y>\r\n") (codes "benjamin") (codes "y") named
      (inl refl) long_line elsewhere (omega arith) (omega arith)

put_mail-injected_example :
    (text : Bytes) × (put_mail world (codes "bob@x") (codes "ann,password,x") (codes "Hi")
      ≡ text ++ crlf [])
    × (handle_command (cluster_net 7) (split_command text) from_frontend waiting.context
        ≡ handle_command
            (cluster_net 7)
            (params (put (codes "ann") (codes "password") (codes "x")))
            from_frontend
            waiting.context)
put_mail-injected_example =
    put_mail-injected (cluster_net 7) world (codes "bob@x") (codes "ann") (codes "password")
      (codes "x") (codes "Hi") from_frontend waiting.context (omega arith) (omega arith)
      (omega arith)
