-- ===== src/Frontend/Mail/Sent.antt =====
-- A mail of the frontend: through the SMTP server, and back into subject and message.
use distributed_cloud_storag.Prelude.{
  ℕ, suc, ◌+◌, ◌≡◌, ◌≢◌, refl, sym, ap, ◌∙◌, true, false, ◌||◌, List, [], ◌∷◌, ◌++◌, append_assoc,
  some, arith, ◌==◌, length, take, drop, last_or, take-append, drop-append-suc, All-append,
}
use distributed_cloud_storag.Prelude.Dict.{Bytes}
use distributed_cloud_storag.Prelude.Int.{ℤ}
use distributed_cloud_storag.Text.{codes}
use distributed_cloud_storag.Text.Find.{
  Lacks, find, starts_with, find_byte, find_byte-append, behind,
}
use distributed_cloud_storag.Smtp.Text.{extract_ip_and_port, is_empty}
use distributed_cloud_storag.Smtp.State.{World}
use distributed_cloud_storag.Smtp.Connection.{handle_connection}
use distributed_cloud_storag.Smtp.Connection.Mail.{InPieces}
use distributed_cloud_storag.Smtp.Line.{IsLine, idle, line}
use distributed_cloud_storag.Smtp.Valid.{IsSender}
use distributed_cloud_storag.Smtp.Dialogue.{mail_line, rcpt_line}
use distributed_cloud_storag.Smtp.Senders.{tested_local}
use distributed_cloud_storag.Smtp.Exchange.{mail_sent, handle_connection-exchange}
use distributed_cloud_storag.Frontend.Mail.{
  domain_of, message_data, mail_message, without_spaces, is_nil, to_last, up_to_last, trimmed,
  with_message, subject_line, behind_subject, extract_subject_and_message,
}

-- The mail without its end.
abbrev mail_header : Bytes → Bytes → Bytes
mail_header from to = codes "From: <" ++ (from ++ (codes ">\r\nTo: <" ++ (to ++ codes ">\r\n")))

abbrev pub mail_body : Bytes → Bytes → Bytes → Bytes → Bytes
mail_body from to subject message =
    mail_header from to
    ++ (codes "Subject: " ++ (subject ++ (codes "\r\n" ++ (message ++ codes "\r\n"))))

message_data-mail_body :
    (from to subject message : Bytes)
    → message_data from to subject message ≡ mail_body from to subject message ++ codes "\r\n.\r\n"
unfolding message_data
message_data-mail_body from to subject message = simp append_assoc

domain_of-localhost :
    (user : Bytes) → Lacks b'@' user → domain_of (user ++ codes "@localhost") ≡ codes "localhost"
unfolding domain_of behind
domain_of-localhost user h =
    (λ i.
      drop (behind (find_byte-append b'@' user (codes "localhost") h i))
        (user ++ codes "@localhost"))
    ∙ drop-append-suc user b'@' (codes "localhost")

abbrev at_localhost : Bytes → Bytes
at_localhost user = user ++ codes "@localhost"

mail_message-lines :
    (username user subject message : Bytes)
    → Lacks b'@' user
    → mail_message username (at_localhost user) subject message
      ≡ line (mail_line (at_localhost username))
        ∷ line (rcpt_line user)
        ∷ line (codes "DATA")
        ∷ (mail_body (at_localhost username) (at_localhost user) subject message
            ++ codes "\r\n.\r\n")
        ∷ []
unfolding mail_message
mail_message-lines username user subject message h =
    (λ i. messages (domain_of-localhost user h i)) ∙ (λ i.
      first i
      ∷ second i
      ∷ codes "DATA\r\n"
      ∷ message_data-mail_body (at_localhost username) (at_localhost user) subject message i
      ∷ [])
  where
    messages : Bytes → List Bytes
    messages domain =
        (codes "MAIL FROM:<" ++ ((username ++ b'@' ∷ domain) ++ codes ">\r\n"))
        ∷ (codes "RCPT TO:<" ++ (at_localhost user ++ codes ">\r\n"))
        ∷ codes "DATA\r\n"
        ∷ message_data (username ++ b'@' ∷ domain) (at_localhost user) subject message
        ∷ []

    first :
        codes "MAIL FROM:<" ++ (at_localhost username ++ codes ">\r\n")
        ≡ line (mail_line (at_localhost username))
    first = simp append_assoc

    second : codes "RCPT TO:<" ++ (at_localhost user ++ codes ">\r\n") ≡ line (rcpt_line user)
    second = simp append_assoc

at_localhost-IsSender :
    (username : Bytes)
    → Lacks b'@' username
    → length username ≢ 1
    → IsSender (at_localhost username)
unfolding is_empty
at_localhost-IsSender username h n =
    let one : (length username == 1) ≡ false = ground arith in
    (
      length username,
      find_byte-append b'@' username (codes "localhost") h,
      (λ i.
          (tested_local username (codes "localhost") ∙ one) i
          || is_empty (drop-append-suc username b'@' (codes "localhost") i)),
    )

-- The first three texts of a list and then other pieces.
abbrev pub arriving : List Bytes → List Bytes → List Bytes
arriving sent pieces = codes "HELO tester\r\n" ∷ (take 3 sent ++ pieces)

-- A user writes a mail to a user at localhost. The frontend says HELO and sends what `mail_message`
-- gives, each text in one read but the last, which arrives in pieces of which only the last ends as a
-- mail does. The lines fit and have neither "\r" nor NUL, the names have neither "@" nor ">", the
-- sender's name is not just one byte and the other is not empty, and the master names a server for
-- the user that can be reached. Then each line is answered with its positive reply, and the mail,
-- which is its header lines, the subject and the message, is put to that server for the user, under
-- the sender at localhost.
pub mail_message-sent :
    (w : World) (username user subject message info : Bytes) (pieces : List Bytes)
    (server : Bytes × ℤ)
    → IsLine (mail_line (at_localhost username))
    → IsLine (rcpt_line user)
    → Lacks b'@' username
    → Lacks b'>' username
    → length username ≢ 1
    → user ≢ []
    → Lacks b'@' user
    → Lacks b'>' user
    → InPieces (last_or (mail_message username (at_localhost user) subject message) []) [] pieces
    → w.server_of user ≡ some info
    → extract_ip_and_port info ≡ some server
    → w.reaches server ≡ true
    → handle_connection w
        (arriving (mail_message username (at_localhost user) subject message) pieces)
      ≡ some (
          idle (
            mail_sent w
              (at_localhost username)
              user
              (mail_body (at_localhost username) (at_localhost user) subject message)
              server))
mail_message-sent w username user subject message info pieces server lf lu a g n un ua ug pieced e x
      r =
    let sent = mail_message-lines username user subject message ua in
    (λ i. handle_connection w (arriving (sent i) pieces))
    ∙ handle_connection-exchange w (codes "tester") (at_localhost username) user
        (mail_body (at_localhost username) (at_localhost user) subject message) info pieces server
        (omega arith) lf lu (λ z. cc) (All-append _ username (codes "@localhost") g (omega arith))
        (at_localhost-IsSender username a n) un ua ug
        (coe 0 1 (i. InPieces (last_or (sent i) []) [] pieces) pieced) e x r

find-subject :
    (s rest : Bytes)
    → Lacks b'S' s
    → find (codes "Subject:") (s ++ (codes "Subject:" ++ rest)) ≡ some (length s)
unfolding find starts_with
find-subject [] rest h = refl
find-subject (x ∷ s) rest h = ground (arith, find-subject s rest h.1)

without_spaces-cr : (s : Bytes) → without_spaces (s ++ b'\r' ∷ []) ≡ without_spaces s ++ b'\r' ∷ []
unfolding without_spaces
without_spaces-cr [] = refl
without_spaces-cr (c ∷ s) = ground (arith, without_spaces-cr s)

to_last-cr : (s : Bytes) → to_last (s ++ b'\r' ∷ []) ≡ s ++ b'\r' ∷ []
unfolding to_last is_nil
to_last-cr [] = refl
to_last-cr (c ∷ []) = ground arith
to_last-cr (c ∷ d ∷ s) = ground (arith, to_last-cr (d ∷ s))

trimmed-cr :
    (s : Bytes) → trimmed (b' ' ∷ (s ++ b'\r' ∷ [])) ≡ some (without_spaces s ++ b'\r' ∷ [])
unfolding trimmed without_spaces
trimmed-cr s = ap up_to_last (without_spaces-cr s) ∙ last (without_spaces s)
  where
    last : (x : Bytes) → up_to_last (x ++ b'\r' ∷ []) ≡ some (x ++ b'\r' ∷ [])
    last [] = unfold up_to_last in (unfold to_last in (unfold is_nil in refl))
    last (c ∷ x) = unfold up_to_last in (ap some (to_last-cr (c ∷ x)))

drop-append_more : (k : ℕ) (f t : Bytes) → drop (length f + k) (f ++ t) ≡ drop k t
drop-append_more k [] t = let e : 0 + k ≡ k = omega arith in λ i. drop (e i) t
drop-append_more k (x ∷ f) t =
    let e : suc (length f) + k ≡ suc (length f + k) = omega arith in
    (λ i. drop (e i) (x ∷ (f ++ t))) ∙ drop-append_more k f t

-- The frontend takes the subject and the message out of a mail that it sent, if the subject has no
-- newline and neither address has an "S". The subject comes without the spaces before it and with
-- the "\r" of its line end, and the message with the line ends behind it.
pub extract_subject_and_message-mail_body :
    (from to subject message : Bytes)
    → Lacks b'S' from
    → Lacks b'S' to
    → Lacks b'\n' subject
    → extract_subject_and_message (mail_body from to subject message ++ codes "\r\n")
      ≡ some (without_spaces subject ++ codes "\r", message ++ codes "\r\n\r\n")
unfolding extract_subject_and_message behind_subject subject_line with_message
extract_subject_and_message-mail_body from to subject message hf ht hs =
    let front = mail_header from to in
    let rest = b' ' ∷ (subject ++ b'\r' ∷ b'\n' ∷ (message ++ codes "\r\n\r\n")) in
    let e : mail_body from to subject message ++ codes "\r\n"
        ≡ front ++ (codes "Subject:" ++ rest) =
      simp append_assoc in
    let tail = message ++ codes "\r\n\r\n" in
    let line_text = b' ' ∷ (subject ++ codes "\r") in
    let shape : line_text ++ b'\n' ∷ tail ≡ rest =
      ap (λ t. b' ' ∷ t) (append_assoc subject (codes "\r") (b'\n' ∷ tail)) in
    let behind_mark : drop (length front + 8) (front ++ (codes "Subject:" ++ rest)) ≡ rest =
      drop-append_more 8 front (codes "Subject:" ++ rest) in
    let lacks : Lacks b'S' front =
      All-append _ (codes "From: <") (from ++ (codes ">\r\nTo: <" ++ (to ++ codes ">\r\n")))
        (omega arith)
        (All-append _ from (codes ">\r\nTo: <" ++ (to ++ codes ">\r\n")) hf (
          All-append _ (codes ">\r\nTo: <") (to ++ codes ">\r\n") (omega arith)
            (All-append _ to (codes ">\r\n") ht (omega arith)))) in
    (λ i. extract_subject_and_message (e i))
    ∙ (λ i. behind_subject (front ++ (codes "Subject:" ++ rest)) (find-subject front rest lacks i))
    ∙ (λ i. subject_line (behind_mark i) (find_byte b'\n' (behind_mark i)))
    ∙ (λ i. subject_line (sym shape i) (find_byte b'\n' (sym shape i)))
    ∙ (λ i. subject_line (line_text ++ b'\n' ∷ tail) (
        find_byte-append b'\n' line_text tail
          (omega arith, All-append _ subject (codes "\r") hs (omega arith)) i))
    ∙ (λ i.
        with_message (trimmed (take-append line_text (b'\n' ∷ tail) i))
          (drop-append-suc line_text b'\n' tail i))
    ∙ (λ i. with_message (trimmed-cr subject i) tail)
