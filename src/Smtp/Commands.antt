-- ===== src/Smtp/Commands.antt =====
-- The commands of a client up to DATA: the branches of `handle_connection` in smtp/smtpServer.cc.
use distributed_cloud_storag.Prelude.{
  ℕ, ◌+◌, ◌||◌, Option, none, some, leb, if◌then◌else◌, length, drop,
}
use distributed_cloud_storag.Prelude.Dict.{Bytes, eqb}
use distributed_cloud_storag.Text.{codes}
use distributed_cloud_storag.Text.Find.{find_byte}
use distributed_cloud_storag.Smtp.Text.{
  Verb, helo, mail, rcpt, text_follows, rset, noop, quit, unknown, between, local_part, is_empty,
  is_local, name_of, insert_text,
}
use distributed_cloud_storag.Smtp.State.{
  SmtpState, initial, helo_received, mail_from_received, rcpt_to_received, Session, relay,
  send_response, bad_sequence, invalid501_response, cleared,
}

-- HELO looks at all that is behind it in the buffer.
unfoldable pub helo_text : Bytes → Session → Session
unfolding send_response
helo_text rest s =
    if eqb rest (codes "\r\n")
    then send_response (codes "501 Syntax error in parameters or arguments\r\n") s
    else send_response (codes "250 localhost\r\n") (record s { state = helo_received })

unfoldable pub helo_command : Bytes → SmtpState → Session → Session
unfolding helo_text bad_sequence
helo_command text initial s = helo_text (drop 5 text) s
helo_command text helo_received s = helo_text (drop 5 text) s
helo_command text _ s = bad_sequence s

-- The sender is kept before it is looked at.
unfoldable pub sender_at : Bytes → Option ℕ → Session → Session
unfolding send_response
sender_at email none s = send_response (codes "501 Syntax Error, No @ provided\r\n") s
sender_at email (some at) s =
    if is_empty (local_part at email) || is_empty (drop (at + 1) email)
    then send_response (codes "501 Syntax Error, local or domain part empty") s
    else record (send_response (codes "250 OK : Sender ok\r\n") s) { state = mail_from_received }

unfoldable pub sender : Option Bytes → Session → Session
unfolding sender_at send_response
sender none s = send_response invalid501_response s
sender (some email) s = sender_at email (find_byte b'@' email) (record s { mail_from = email })

unfoldable pub mail_command : Bytes → SmtpState → Session → Session
unfolding sender bad_sequence
mail_command text helo_received s = sender (between text) s
mail_command text _ s = bad_sequence s

-- The parts that are tested are those of the sender, at the place of the recipient's "@". `none` is
-- the exception of substr.
unfoldable pub relayed_at : Bytes → Option ℕ → Session → Option Session
unfolding send_response
relayed_at email none s = some (send_response (codes "501 Syntax Error, No @ provided\r\n") s)
relayed_at email (some at) s =
    if leb (at + 1) (length s.mail_from)
    then some (
        if is_empty (local_part at s.mail_from) || is_empty (drop (at + 1) s.mail_from)
        then send_response (codes "501 Syntax Error, local or domain part empty") s
        else send_response (codes "251 User not local : will forward to mqueue file\r\n")
            (record s {
              state = rcpt_to_received;
              rcpt_to_relay = insert_text email s.rcpt_to_relay;
            }))
    else none

unfoldable pub recipient_email : Bytes → Session → Option Session
unfolding relayed_at send_response
recipient_email email s =
    if is_local email
    then some (record (send_response (codes "250 OK : Receiver ok\r\n") s) {
      state = rcpt_to_received;
      rcpt_to = insert_text (name_of email) s.rcpt_to;
    })
    else if relay
    then relayed_at email (find_byte b'@' email) s
    else some
        (send_response (codes "553 Requested action not taken: mailbox name not allowed\r\n") s)

unfoldable pub recipient : Option Bytes → Session → Option Session
unfolding recipient_email send_response
recipient none s = some (send_response invalid501_response s)
recipient (some email) s = recipient_email email s

unfoldable pub rcpt_command : Bytes → SmtpState → Session → Option Session
unfolding recipient bad_sequence
rcpt_command text mail_from_received s = recipient (between text) s
rcpt_command text rcpt_to_received s = recipient (between text) s
rcpt_command text _ s = some (bad_sequence s)

-- RSET sends no reply where it is accepted.
unfoldable pub rset_command : SmtpState → Session → Session
unfolding cleared bad_sequence
rset_command initial s = bad_sequence s
rset_command _ s = cleared s

unfoldable pub noop_command : SmtpState → Session → Session
unfolding send_response bad_sequence
noop_command initial s = bad_sequence s
noop_command _ s = send_response (codes "250 OK\r\n") s

-- What a command leaves: a session that goes on, one that reads a mail, one that has ended, or an
-- exception.
pub data Outcome : Type 0 where
  goes_on : Session → Outcome
  reads_mail : Session → Outcome
  ended : Session → Outcome
  fault : Outcome

unfoldable pub data_command : SmtpState → Session → Outcome
unfolding send_response bad_sequence
data_command rcpt_to_received s =
    reads_mail (send_response (codes "354 Start mail input; end with <CRLF>.<CRLF>\r\n") s)
data_command _ s = goes_on (bad_sequence s)

unfoldable pub outcome_of : Option Session → Outcome
outcome_of none = fault
outcome_of (some s) = goes_on s

unfoldable pub command : Verb → Bytes → Session → Outcome
unfolding helo_command mail_command rcpt_command data_command rset_command noop_command
    send_response outcome_of
command helo text s = goes_on (helo_command text s.state s)
command mail text s = goes_on (mail_command text s.state s)
command rcpt text s = outcome_of (rcpt_command text s.state s)
command text_follows text s = data_command s.state s
command rset text s = goes_on (rset_command s.state s)
command noop text s = goes_on (noop_command s.state s)
command quit text s = ended (send_response (codes "221 Service closing transmission channel\r\n") s)
command unknown text s =
    goes_on (send_response (codes "500 syntax error, command unrecognized\r\n") s)
