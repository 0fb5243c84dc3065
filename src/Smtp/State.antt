-- ===== src/Smtp/State.antt =====
-- What the thread of a connection keeps in smtp/smtpServer.cc, and what it has sent.
use distributed_cloud_storag.Prelude.{ℕ, Bool, true, List, [], ◌∷◌, ◌++◌, Option}
use distributed_cloud_storag.Prelude.Dict.{Bytes}
use distributed_cloud_storag.Prelude.Int.{ℤ}
use distributed_cloud_storag.Text.{codes}

pub data SmtpState : Type 0 where
  initial helo_received mail_from_received rcpt_to_received : SmtpState

-- `sent` are the replies to the client, `puts` the commands to key-value servers with their
-- address, `mqueue` is what was added to the file of mails to others, and `runs` the number of
-- times that smtpec was started.
pub record Session : Type 0 where
  pub state : SmtpState
  pub mail_from : Bytes
  pub rcpt_to : List Bytes
  pub rcpt_to_relay : List Bytes
  pub sent : List Bytes
  pub puts : List ((Bytes × ℤ) × Bytes)
  pub mqueue : Bytes
  pub runs : ℕ

-- The flag is set at the start, and the option -r can only set it again.
abbrev pub relay : Bool
relay = true

-- The library and the processes that a delivery calls: the base64 encoder of OpenSSL; the time as a
-- text; the bytes that the master sent, unless a socket failed; whether a server takes the
-- connection and the command; and whether the file can be opened and locked.
pub record World : Type 0 where
  pub base64 : Bytes → Bytes
  pub date : Bytes → Bytes
  pub server_of : Bytes → Option Bytes
  pub reaches : Bytes × ℤ → Bool
  pub queue_opens : Bytes → Bool

unfoldable pub send_response : Bytes → Session → Session
send_response m s = record s { sent = s.sent ++ m ∷ [] }

unfoldable pub bad_sequence : Session → Session
unfolding send_response
bad_sequence s = send_response (codes "503 Bad Sequence of Commands\r\n") s

abbrev pub invalid501_response : Bytes
invalid501_response = codes "501 Syntax error in parameters or arguments\r\n"

-- mailFrom.clear(), rcptTo.clear(), rcptToRelay.clear() and the state behind them
unfoldable pub cleared : Session → Session
cleared s = record s { state = helo_received; mail_from = []; rcpt_to = []; rcpt_to_relay = [] }

-- The session once the greeting is sent.
abbrev pub fresh : Session
fresh = record {
  state = initial;
  mail_from = [];
  rcpt_to = [];
  rcpt_to_relay = [];
  sent = codes "220 localhost service ready\r\n" ∷ [];
  puts = [];
  mqueue = [];
  runs = 0;
}
