-- ===== src/Smtp/External.antt =====
-- The delivery of a mail to another server: `attemptDelivery`, and the loop over servers in `main`,
-- of smtp/smtpec.cc.
pub mod Accepted
use distributed_cloud_storag.Prelude.{
  Bool, true, false, ◌&&◌, ◌||◌, List, [], ◌∷◌, ◌++◌, Option, none, some, ◌==◌, if◌then◌else◌, drop,
}
use distributed_cloud_storag.Prelude.Dict.{Bytes, eqb}
use distributed_cloud_storag.Text.{codes}
use distributed_cloud_storag.Text.Find.{find_byte, behind, starts_with}
use distributed_cloud_storag.Smtp.Queue.{EmailInfo}

-- ".*\r\n" matches a text to its end; the dot stands for any byte but "\r" and "\n".
unfoldable ends_line : Bytes → Bool
ends_line [] = false
ends_line (c ∷ s) =
    let rest = ends_line s in
    if c == b'\r' then eqb s (codes "\n") else if c == b'\n' then false else rest

unfoldable matches_code : Bytes → Bytes → Bool
unfolding ends_line
matches_code code reply = starts_with (code ++ codes " ") reply && ends_line (drop 4 reply)

-- SERVICE_READY
unfoldable pub is_service_ready : Bytes → Bool
unfolding matches_code
is_service_ready reply = matches_code (codes "220") reply

unfoldable pub is_ok_response : Bytes → Bool
unfolding matches_code
is_ok_response reply = matches_code (codes "250") reply || matches_code (codes "354") reply

-- The commands in their order.
unfoldable pub commands_for : EmailInfo → List Bytes
commands_for e =
    (codes "HELO "
      ++ (drop (behind (find_byte b'@' e.sender_email)) e.sender_email ++ codes "\r\n"))
    ∷ (codes "MAIL FROM: <" ++ (e.sender_email ++ codes ">\r\n"))
    ∷ (codes "RCPT TO: <" ++ (e.recipient ++ codes ">\r\n"))
    ∷ codes "DATA\r\n"
    ∷ []

-- What is sent behind "354".
unfoldable pub content_of : EmailInfo → List Bytes
content_of e = e.content ∷ codes "\r\n" ∷ codes ".\r\n" ∷ []

-- What `recv` gave, call by call: bytes, none of them where the peer has closed or says no more,
-- or `none` for an error, of which the length -1 throws an exception.
abbrev pub Received : Type 0
Received = List (Option Bytes)

abbrev next_reply : Received → Option Bytes
next_reply [] = some []
next_reply (r ∷ rs) = r

abbrev later_replies : Received → Received
later_replies [] = []
later_replies (r ∷ rs) = rs

-- Whether each reply was as expected, what was sent, and the replies to come. `none` is the
-- exception.
abbrev pub Exchange : Type 0
Exchange = Option (Bool × List Bytes × Received)

unfoldable pub send_commands : List Bytes → Received → List Bytes → Exchange
send_commands [] rs sent = some (true, sent, rs)
send_commands (c ∷ cs) rs sent = elim (next_reply rs) [
  | none ↦ none
  | some reply ↦
      let rest = send_commands cs (later_replies rs) (sent ++ c ∷ []) in
      if is_ok_response reply then rest else some (false, sent ++ c ∷ [], later_replies rs)
]

unfoldable pub final_reply : List Bytes → Option Bytes → Option (Bool × List Bytes)
final_reply sent none = none
final_reply sent (some reply) = some (is_ok_response reply, sent)

unfoldable pub after_commands : EmailInfo → Exchange → Option (Bool × List Bytes)
unfolding content_of final_reply
after_commands e none = none
after_commands e (some (false, sent, rs)) = some (false, sent)
after_commands e (some (true, sent, rs)) = final_reply (sent ++ content_of e) (next_reply rs)

unfoldable pub after_greeting : EmailInfo → Option Bytes → Received → Option (Bool × List Bytes)
unfolding send_commands after_commands commands_for
after_greeting e none rs = none
after_greeting e (some greeting) rs =
    if is_service_ready greeting
    then after_commands e (send_commands (commands_for e) rs [])
    else some (false, [])

-- Whether the mail was delivered, and what was sent.
unfoldable pub attempt_delivery : EmailInfo → Received → Option (Bool × List Bytes)
unfolding after_greeting
attempt_delivery e rs = after_greeting e (next_reply rs) (later_replies rs)

-- The loop over the servers of a domain, each of which gave its replies: it ends at the first that
-- took the mail.
unfoldable try_servers : EmailInfo → List Received → Option EmailInfo
unfolding attempt_delivery
try_servers e [] = some e
try_servers e (rs ∷ servers) = elim (attempt_delivery e rs) [
  | none ↦ none
  | some (true, sent) ↦ some (record e { sent = true })
  | some (false, sent) ↦ try_servers e servers
]
