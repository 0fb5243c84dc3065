-- ===== src/Smtp/Exchange.antt =====
-- A whole exchange with the SMTP server: one mail for one local user.
use distributed_cloud_storag.Prelude.{
  ◌≡◌, ◌≢◌, refl, ap, ◌∙◌, true, List, [], ◌∷◌, ◌++◌, Option, none, some, arith, if◌then◌else◌,
}
use distributed_cloud_storag.Prelude.Dict.{Bytes}
use distributed_cloud_storag.Prelude.Int.{ℤ}
use distributed_cloud_storag.Text.{codes}
use distributed_cloud_storag.Text.Find.{Lacks, find, starts_with, find_byte-Lacks, up_to}
use distributed_cloud_storag.Smtp.Text.{name_of, extract_ip_and_port, verb_of}
use distributed_cloud_storag.Smtp.State.{
  helo_received, mail_from_received, rcpt_to_received, Session, World, fresh,
}
use distributed_cloud_storag.Smtp.Commands.{Outcome, command}
use distributed_cloud_storag.Smtp.Delivery.{put_mail, deliver, some_recipient}
use distributed_cloud_storag.Smtp.Delivery.Mails.{
  joined, one_put, put_where, all_puts, delivered, deliver_lem,
}
use distributed_cloud_storag.Smtp.Valid.{IsSender}
use distributed_cloud_storag.Smtp.Connection.{
  Conn, next_line, lines, all_lines, resumed, past_line, after_delivery, after_mail, serve_from,
  handle_connection,
}
use distributed_cloud_storag.Smtp.Connection.Mail.{Arrives, serve_from-Arrives}
use distributed_cloud_storag.Smtp.Line.{line, IsLine, after_one, idle, receive_one}
use distributed_cloud_storag.Smtp.Dialogue.{
  helo_line, mail_line, rcpt_line, said, hello, sender_accepted, receiver_accepted, mail_asked,
  helo_goes_on, mail_goes_on, rcpt_goes_on, data_reads_mail,
}

-- What the client sends: three commands, DATA and the mail in pieces.
abbrev pub exchange : Bytes → Bytes → Bytes → List Bytes → List Bytes
exchange host from user pieces =
    line (helo_line host)
    ∷ line (mail_line from)
    ∷ line (rcpt_line user)
    ∷ line (codes "DATA")
    ∷ pieces

-- The session behind it.
abbrev pub mail_sent : World → Bytes → Bytes → Bytes → Bytes × ℤ → Session
mail_sent w from user m server = record fresh {
  state = helo_received;
  sent =
      codes "220 localhost service ready\r\n"
      ∷ (mail_asked ++ codes "250 OK : Email Sent\r\n" ∷ []);
  puts = (server, put_mail w from user (m ++ codes "\r\n")) ∷ [];
}

module _ (w : World) where
  abbrev then_serve : List Bytes → Option Conn → Option Conn
  then_serve reads none = none
  then_serve reads (some c) = serve_from w reads c

  step :
      (s : Session) (body : Bytes) (reads : List Bytes) (o : Outcome)
      → IsLine body
      → command (verb_of (line body)) (line body) s ≡ o
      → serve_from w (line body ∷ reads) (idle s) ≡ then_serve reads (after_one s (line body) o)
  unfolding serve_from
  step s body reads o h e =
      ap (then_serve reads) (receive_one s body h w ∙ ap (after_one s (line body)) e)

  name_of_user : (user : Bytes) → Lacks b'@' user → name_of user ≡ user
  unfolding name_of up_to
  name_of_user user h = ap (λ o. up_to o user) (find_byte-Lacks b'@' user h)

  one_command :
      (from user m info : Bytes) (server : Bytes × ℤ)
      → Lacks b'@' user
      → w.server_of user ≡ some info
      → extract_ip_and_port info ≡ some server
      → w.reaches server ≡ true
      → all_puts w from m (user ∷ []) ≡ some ((server, put_mail w from user m) ∷ [])
  one_command from user m info server a e x r =
      (λ i.
        joined (one_put w from m (name_of_user user a i) (w.server_of (name_of_user user a i)))
          (some []))
      ∙ (λ i. joined (one_put w from m user (e i)) (some []))
      ∙ (λ i. joined (put_where w from m user (x i)) (some []))
      ∙ (λ i. some ((if r i then (server, put_mail w from user m) ∷ [] else []) ++ []))

  after_data :
      (from user m info : Bytes) (server : Bytes × ℤ) (c : Conn)
      → c.buffer ≡ line (codes "DATA")
      → c.session ≡ said mail_asked rcpt_to_received from (user ∷ [])
      → Lacks b'@' user
      → w.server_of user ≡ some info
      → extract_ip_and_port info ≡ some server
      → w.reaches server ≡ true
      → after_mail w (m ++ codes "\r\n") c ≡ some (idle (mail_sent w from user m server))
  unfolding after_mail after_delivery resumed past_line next_line find starts_with all_lines lines
      some_recipient
  after_data from user m info server c b s a e x r =
      let t = said mail_asked rcpt_to_received from (user ∷ []) in
      (λ i. after_delivery (b i) (deliver w (m ++ codes "\r\n") (s i)))
      ∙ (λ i. after_delivery (line (codes "DATA")) (deliver_lem w (m ++ codes "\r\n") t i))
      ∙ (λ i. after_delivery (line (codes "DATA")) (
          delivered w (m ++ codes "\r\n") t
            (one_command from user (m ++ codes "\r\n") info server a e x r i)))

  -- A client says HELO with some text, names a sender with an "@" and two parts that are not empty
  -- (the first of them less its last byte, unless the "@" stands first), names a user at localhost,
  -- and sends DATA and then a mail in pieces that has an end only in the last one. Each line fits
  -- and has neither "\r" nor NUL; sender and user have no ">", and the user is not empty and has no
  -- "@". If the master names a server for the user that can be reached, then each line is answered
  -- with its positive reply, the mail and the line end before the dot are put to that server for the
  -- user under the sender, and the connection waits for a command, with neither sender nor
  -- recipient.
  pub handle_connection-exchange :
      (host from user m info : Bytes) (pieces : List Bytes) (server : Bytes × ℤ)
      → IsLine (helo_line host)
      → IsLine (mail_line from)
      → IsLine (rcpt_line user)
      → host ≢ []
      → Lacks b'>' from
      → IsSender from
      → user ≢ []
      → Lacks b'@' user
      → Lacks b'>' user
      → Arrives m [] pieces
      → w.server_of user ≡ some info
      → extract_ip_and_port info ≡ some server
      → w.reaches server ≡ true
      → handle_connection w (exchange host from user pieces)
        ≡ some (idle (mail_sent w from user m server))
  unfolding handle_connection
  handle_connection-exchange host from user m info pieces server lh lf lu hn fg (at, fa, ft) un ua
        ug arrives e x r =
      let asked = said mail_asked rcpt_to_received from (user ∷ []) in
      let reading : Conn = record {
        session = asked;
        buffer = line (codes "DATA");
        content = some [];
        connected = true;
      } in
      let after_user = line (codes "DATA") ∷ pieces in
      let after_sender = line (rcpt_line user) ∷ after_user in
      let after_hello = line (mail_line from) ∷ after_sender in
      step fresh (helo_line host) after_hello _ lh (helo_goes_on host hn)
      ∙ step (said hello helo_received [] []) (mail_line from) after_sender _ lf
          (mail_goes_on from at fg fa ft)
      ∙ step (said sender_accepted mail_from_received from []) (rcpt_line user) after_user _ lu
          (rcpt_goes_on from user un ua ug)
      ∙ step (said receiver_accepted rcpt_to_received from (user ∷ [])) (codes "DATA") pieces _
          (omega arith) (data_reads_mail from user)
      ∙ serve_from-Arrives w m [] pieces reading refl refl arrives
      ∙ after_data from user m info server reading refl refl ua e x r
