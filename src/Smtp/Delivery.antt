-- ===== src/Smtp/Delivery.antt =====
-- DATA of smtp/smtpServer.cc: the end of a mail, and what is done with one.
pub mod Mails
use distributed_cloud_storag.Prelude.{
  ◌-◌, ◌+◌, Bool, true, false, ◌&&◌, ◌||◌, List, [], ◌∷◌, ◌++◌, Option, none, some, leb,
  if◌then◌else◌, length, take, drop,
}
use distributed_cloud_storag.Prelude.Dict.{Bytes, eqb}
use distributed_cloud_storag.Prelude.Int.{ℤ}
use distributed_cloud_storag.Text.{codes}
use distributed_cloud_storag.Text.Cstring.{c_string}
use distributed_cloud_storag.Smtp.Text.{name_of, extract_ip_and_port}
use distributed_cloud_storag.Smtp.State.{Session, World, relay, send_response, cleared}

-- The last five bytes of what was read are "\r\n.\r\n".
unfoldable pub is_complete : Bytes → Bool
is_complete content =
    leb 5 (length content) && eqb (drop (length content - 5) content) (codes "\r\n.\r\n")

-- email_content.erase(email_content.length() - 3)
unfoldable pub without_dot : Bytes → Bytes
without_dot content = take (length content - 3) content

-- fprintf ends a text at its first NUL.
unfoldable pub queued : Bytes → Bytes → Bytes → Bytes
queued from to content =
    codes "From <" ++ (from ++ (codes ">\nTo <" ++ (to ++ (codes ">\n" ++ c_string content))))

unfoldable pub reported : Bool × Session → Session
unfolding send_response cleared
reported (true, s) = cleared (send_response (codes "250 OK : Email Sent\r\n") s)
reported (false, s) =
    cleared (send_response (codes "554 Data Transfer Failed, restart process again\r\n") s)

unfoldable pub some_recipient : List Bytes → Bool
some_recipient [] = false
some_recipient (r ∷ rs) = true

module _ (w : World) where
  unfoldable pub put_mail : Bytes → Bytes → Bytes → Bytes
  put_mail from user content =
      codes "PUT "
      ++ (user
          ++ (codes ",/emails/"
              ++ (from
                  ++ (codes "/"
                      ++ (w.base64 (w.date user)
                          ++ (codes "," ++ (w.base64 content ++ codes "\r\n")))))))

  -- The master names the server, which is then sent the command.
  unfoldable pub put_to : Bytes → Bytes → Option (Bytes × ℤ) → Session → Option Session
  unfolding put_mail
  put_to user content none s = none
  put_to user content (some server) s = some (
      if w.reaches server
      then record s { puts = s.puts ++ (server, put_mail s.mail_from user content) ∷ [] }
      else s)

  unfoldable pub store_mail : Bytes → Bytes → Option Bytes → Session → Option Session
  unfolding put_to
  store_mail user content none s = some s
  store_mail user content (some info) s = put_to user content (extract_ip_and_port info) s

  -- The loop over rcptTo. A mail that could not be sent to a server counts as sent.
  unfoldable pub store_all : List Bytes → Bytes → Session → Option Session
  unfolding store_mail
  store_all [] content s = some s
  store_all (r ∷ rs) content s = elim (store_mail (name_of r) content (w.server_of (name_of r)) s) [
    | none ↦ none
    | some s' ↦ store_all rs content s'
  ]

  -- The loop over rcptToRelay, and whether a mail was added.
  unfoldable pub queue_all : List Bytes → Bytes → Bool → Session → Bool × Session
  unfolding queued
  queue_all [] content success s = (success, s)
  queue_all (r ∷ rs) content success s = queue_all rs content (success || w.queue_opens r) (
      if w.queue_opens r
      then record s { mqueue = s.mqueue ++ queued s.mail_from r content; runs = s.runs + 1 }
      else s)

  unfoldable pub relay_mail : Bytes → Bool → Session → Bool × Session
  unfolding queue_all
  relay_mail content success s =
      if relay then queue_all s.rcpt_to_relay content success s else (success, s)

  -- A mail to all its recipients. `none` is an exception in the reading of the master's reply.
  unfoldable pub deliver : Bytes → Session → Option Session
  unfolding store_all relay_mail some_recipient reported
  deliver content s = elim (store_all s.rcpt_to content s) [
    | none ↦ none
    | some s' ↦ some (reported (relay_mail content (some_recipient s.rcpt_to) s'))
  ]
