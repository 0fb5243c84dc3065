-- ===== src/Smtp/Connection.antt =====
-- The loop of `handle_connection` in smtp/smtpServer.cc, with what each call of `recv` gave.
pub mod Rounds
pub mod Sound
pub mod Fuel
pub mod Mail
use distributed_cloud_storag.Prelude.{
  ℕ, zero, suc, ◌+◌, Bool, true, false, List, [], ◌∷◌, ◌++◌, Option, none, some, leb, ltb,
  if◌then◌else◌, length, drop,
}
use distributed_cloud_storag.Prelude.Dict.{Bytes}
use distributed_cloud_storag.Text.{codes}
use distributed_cloud_storag.Text.Find.{find, holds_no}
use distributed_cloud_storag.Smtp.Text.{verb_of}
use distributed_cloud_storag.Smtp.State.{Session, World, fresh}
use distributed_cloud_storag.Smtp.Commands.{Outcome, goes_on, reads_mail, ended, fault, command}
use distributed_cloud_storag.Smtp.Delivery.{is_complete, without_dot, deliver}

-- `buffer` is the text in the buffer; `content` is the mail that DATA has read so far, while its
-- loop runs, and then the line of DATA still stands in the buffer.
pub record Conn : Type 0 where
  pub session : Session
  pub buffer : Bytes
  pub content : Option Bytes
  pub connected : Bool

abbrev pub buffer_size : ℕ
buffer_size = 1001

abbrev pub greeted : Conn
greeted = record { session = fresh; buffer = []; content = none; connected = true }

-- The line that ends at `n` is moved out of the buffer. The move reads four bytes more than the
-- text has; `none` is a read behind the buffer.
unfoldable pub next_line : ℕ → Bytes → Option Bytes
next_line n buffer =
    if leb (length buffer + 4) buffer_size then some (drop (n + 2) buffer) else none

-- A round of the loop over the lines: an exception, the end of the loop, or one line less.
pub data Round : Type 0 where
  faulted : Round
  stops : Conn → Round
  again : Conn → Round

unfoldable pub moved_on : Conn → Session → Option Bytes → Round
moved_on c s none = faulted
moved_on c s (some rest) = again (record c { session = s; buffer = rest })

unfoldable pub after_command : Conn → ℕ → Outcome → Round
unfolding next_line moved_on
after_command c n fault = faulted
after_command c n (ended s) = stops (record c { session = s; connected = false })
after_command c n (reads_mail s) = stops (record c { session = s; content = some [] })
after_command c n (goes_on s) = moved_on c s (next_line n c.buffer)

unfoldable pub at_line_end : Conn → Option ℕ → Round
unfolding after_command
at_line_end c none = stops c
at_line_end c (some n) = after_command c n (command (verb_of c.buffer) c.buffer c.session)

unfoldable pub round : Conn → Round
unfolding at_line_end
round c = at_line_end c (find (codes "\r\n") c.buffer)

-- The lines in the buffer, until one starts a mail or ends the connection.
unfoldable pub lines : ℕ → Conn → Option Conn
unfolding round
lines zero c = some c
lines (suc fuel) c = elim (round c) [
  | faulted ↦ none
  | stops c' ↦ some c'
  | again c' ↦ lines fuel c'
]

-- Each round takes two bytes at least, so the length of the buffer is enough.
unfoldable pub all_lines : Conn → Option Conn
unfolding lines
all_lines c = lines (length c.buffer) c

-- The line of DATA is taken off, and the lines behind it are read.
unfoldable pub resumed : Session → Option Bytes → Option Conn
unfolding all_lines
resumed s none = none
resumed s (some rest) =
    all_lines (record { session = s; buffer = rest; content = none; connected = true })

unfoldable pub past_line : Bytes → Option ℕ → Option Bytes
unfolding next_line
past_line buffer none = none
past_line buffer (some n) = next_line n buffer

unfoldable pub after_delivery : Bytes → Option Session → Option Conn
unfolding resumed past_line
after_delivery buffer none = none
after_delivery buffer (some s) = resumed s (past_line buffer (find (codes "\r\n") buffer))

-- What is behind the loop of DATA: the mail is sent.
unfoldable pub after_mail : World → Bytes → Conn → Option Conn
unfolding after_delivery
after_mail w content c = after_delivery c.buffer (deliver w content c.session)

-- `none`: a byte is written behind the buffer. A NUL among the bytes, which would hide what is
-- behind it, is not modelled, and `none` too.
unfoldable pub read_commands : Bytes → Conn → Option Conn
unfolding all_lines
read_commands [] c = some (record c { connected = false })
read_commands (b ∷ bytes) c =
    if ltb (length (c.buffer ++ b ∷ bytes)) buffer_size
    then if holds_no 0 (b ∷ bytes)
      then all_lines (record c { buffer = c.buffer ++ b ∷ bytes })
      else none
    else none

unfoldable pub read_mail : World → Bytes → Bytes → Conn → Option Conn
unfolding after_mail
read_mail w content [] c = after_mail w content c
read_mail w content (b ∷ bytes) c =
    let all = content ++ b ∷ bytes in
    if is_complete all
    then after_mail w (without_dot all) c
    else some (record c { content = some all })

-- One call of `recv`. No bytes are a connection that the client has closed.
unfoldable pub receive_in : World → Option Bytes → Bytes → Conn → Option Conn
unfolding read_commands read_mail
receive_in w none bytes c = read_commands bytes c
receive_in w (some content) bytes c = read_mail w content bytes c

unfoldable pub receive : World → Bytes → Conn → Option Conn
unfolding receive_in
receive w bytes c = if c.connected then receive_in w c.content bytes c else some c

-- A connection from its greeting on.
unfoldable pub serve_from : World → List Bytes → Conn → Option Conn
unfolding receive
serve_from w [] c = some c
serve_from w (bytes ∷ reads) c = elim (receive w bytes c) [
  | none ↦ none
  | some c' ↦ serve_from w reads c'
]

unfoldable pub handle_connection : World → List Bytes → Option Conn
unfolding serve_from
handle_connection w reads = serve_from w reads greeted
