-- ===== src/Smtp/Dialogue.antt =====
-- A mail from the greeting to the store.
use distributed_cloud_storag.Prelude.{
  ℕ, ◌+◌, ◌-◌, ◌≡◌, ◌≢◌, refl, sym, ap, ◌∙◌, true, false, ◌&&◌, ◌||◌, List, [], ◌∷◌, ◌++◌,
  append_assoc, drop-append-suc, none, some, arith, leb, ltb, if◌then◌else◌, length, take, drop,
  length-append, take-append, drop-append, All-append,
}
use distributed_cloud_storag.Prelude.Dict.{Bytes, eqb, eqb_ne, eqb_refl}
use distributed_cloud_storag.Text.{codes}
use distributed_cloud_storag.Text.Find.{Lacks, find_byte, find_byte-append, up_to}
use distributed_cloud_storag.Smtp.Text.{
  helo, mail, rcpt, verb_of, same_letters, angles, between, local_part, is_empty, is_local, name_of,
  insert_text,
}
use distributed_cloud_storag.Smtp.State.{
  SmtpState, helo_received, mail_from_received, rcpt_to_received, Session, fresh, send_response,
}
use distributed_cloud_storag.Smtp.Commands.{
  helo_text, helo_command, sender_at, sender, mail_command, recipient_email, recipient, relayed_at,
  rcpt_command, goes_on, reads_mail, outcome_of, data_command, command,
}
use distributed_cloud_storag.Smtp.Line.{line}

abbrev pub helo_line : Bytes → Bytes
helo_line host = codes "HELO " ++ host

abbrev pub mail_line : Bytes → Bytes
mail_line from = codes "MAIL FROM:<" ++ (from ++ codes ">")

abbrev pub rcpt_line : Bytes → Bytes
rcpt_line user = codes "RCPT TO:<" ++ (user ++ codes "@localhost>")

helo_verb : (t : Bytes) → verb_of (codes "HELO " ++ t) ≡ helo
unfolding verb_of same_letters
helo_verb t = refl

mail_verb : (t : Bytes) → verb_of (codes "MAIL FROM:" ++ t) ≡ mail
unfolding verb_of same_letters
mail_verb t = refl

rcpt_verb : (t : Bytes) → verb_of (codes "RCPT TO:" ++ t) ≡ rcpt
unfolding verb_of same_letters
rcpt_verb t = refl

-- The text between angles, behind a text with none.
between_angles :
    (front s rest : Bytes)
    → Lacks b'<' front
    → Lacks b'>' front
    → Lacks b'>' s
    → between (front ++ b'<' ∷ (s ++ b'>' ∷ rest)) ≡ some s
unfolding between angles
between_angles front s rest l g h =
    let t = front ++ b'<' ∷ (s ++ b'>' ∷ rest) in
    let e : (front ++ b'<' ∷ s) ++ b'>' ∷ rest ≡ t = append_assoc front (b'<' ∷ s) (b'>' ∷ rest) in
    let close : find_byte b'>' t ≡ some (length (front ++ b'<' ∷ s)) =
      (λ i. find_byte b'>' (sym e i))
      ∙ find_byte-append b'>' (front ++ b'<' ∷ s) rest
          (All-append _ front (b'<' ∷ s) g (omega arith, h)) in
    let n = length-append front (b'<' ∷ s) in
    let before : ltb (length front) (length (front ++ b'<' ∷ s)) ≡ true = ground (arith, n) in
    let width : length (front ++ b'<' ∷ s) - length front - 1 ≡ length s = omega (arith, n) in
    (λ i. angles t (find_byte-append b'<' front (s ++ b'>' ∷ rest) l i) (close i))
    ∙ (λ i.
        if before i
        then some (take (width i) (drop-append-suc front b'<' (s ++ b'>' ∷ rest) i))
        else none)
    ∙ ap some (take-append s (b'>' ∷ rest))

-- The replies of the dialogue and the sessions in it.
abbrev pub said : List Bytes → SmtpState → Bytes → List Bytes → Session
said replies a from users = record fresh {
  state = a;
  mail_from = from;
  rcpt_to = users;
  sent = codes "220 localhost service ready\r\n" ∷ replies;
}

abbrev pub hello : List Bytes
hello = codes "250 localhost\r\n" ∷ []

abbrev pub sender_accepted : List Bytes
sender_accepted = codes "250 localhost\r\n" ∷ codes "250 OK : Sender ok\r\n" ∷ []

abbrev pub receiver_accepted : List Bytes
receiver_accepted = sender_accepted ++ codes "250 OK : Receiver ok\r\n" ∷ []

abbrev pub mail_asked : List Bytes
mail_asked = receiver_accepted ++ codes "354 Start mail input; end with <CRLF>.<CRLF>\r\n" ∷ []

pub helo_goes_on :
    (host : Bytes)
    → host ≢ []
    → command (verb_of (line (helo_line host))) (line (helo_line host)) fresh
      ≡ goes_on (said hello helo_received [] [])
unfolding command helo_command helo_text send_response
helo_goes_on host n =
    let e : eqb (line host) (codes "\r\n") ≡ false = eqb_ne _ _ (no_host host n) in
    (λ i. command (helo_verb (line host) i) (line (helo_line host)) fresh) ∙ (λ i. goes_on (
      if e i
      then send_response (codes "501 Syntax error in parameters or arguments\r\n") fresh
      else said hello helo_received [] []))
  where
    no_host : (h : Bytes) → h ≢ [] → line h ≢ codes "\r\n"
    no_host [] k = absurd (k refl)
    no_host (x ∷ h) k =
        λ q. omega (arith, ap (λ (l : Bytes). length l) q, length-append h (codes "\r\n"))

pub mail_goes_on :
    (from : Bytes) (at : ℕ)
    → Lacks b'>' from
    → find_byte b'@' from ≡ some at
    → (is_empty (local_part at from) || is_empty (drop (at + 1) from)) ≡ false
    → command
        (verb_of (line (mail_line from)))
        (line (mail_line from))
        (said hello helo_received [] [])
      ≡ goes_on (said sender_accepted mail_from_received from [])
unfolding command mail_command sender sender_at send_response
mail_goes_on from at g e f =
    let s = said hello helo_received [] [] in
    let t : line (mail_line from) ≡ codes "MAIL FROM:" ++ b'<' ∷ (from ++ b'>' ∷ codes "\r\n") =
      ap (λ r. codes "MAIL FROM:<" ++ r) (append_assoc from (codes ">") (codes "\r\n")) in
    (λ i. command (verb_of (t i)) (t i) s)
    ∙ (λ i.
        command (mail_verb (b'<' ∷ (from ++ b'>' ∷ codes "\r\n")) i)
          (codes "MAIL FROM:" ++ b'<' ∷ (from ++ b'>' ∷ codes "\r\n")) s)
    ∙ (λ i. goes_on (
        sender
          (between_angles (codes "MAIL FROM:") from (codes "\r\n") (omega arith) (omega arith) g i)
          s))
    ∙ (λ i. goes_on (sender_at from (e i) (record s { mail_from = from })))
    ∙ (λ i. goes_on (
        if f i
        then send_response (codes "501 Syntax Error, local or domain part empty")
            (record s { mail_from = from })
        else said sender_accepted mail_from_received from []))

localhost_lem : (user : Bytes) → user ≢ [] → is_local (user ++ codes "@localhost") ≡ true
unfolding is_local
localhost_lem user n =
    let e = length-append user (codes "@localhost") in
    let l : leb 10 (length (user ++ codes "@localhost")) ≡ true = ground (arith, e) in
    let k : length (user ++ codes "@localhost") - 10 ≡ length user = omega (arith, e) in
    (λ i. l i && eqb (drop (k i) (user ++ codes "@localhost")) (codes "@localhost"))
    ∙ (λ i. eqb (drop-append user (codes "@localhost") i) (codes "@localhost"))
    ∙ eqb_refl (codes "@localhost")

name_of_local : (user : Bytes) → Lacks b'@' user → name_of (user ++ codes "@localhost") ≡ user
unfolding name_of up_to
name_of_local user h =
    ap (λ o. up_to o (user ++ codes "@localhost"))
      (find_byte-append b'@' user (codes "localhost") h)
    ∙ take-append user (codes "@localhost")

pub rcpt_goes_on :
    (from user : Bytes)
    → user ≢ []
    → Lacks b'@' user
    → Lacks b'>' user
    → command
        (verb_of (line (rcpt_line user)))
        (line (rcpt_line user))
        (said sender_accepted mail_from_received from [])
      ≡ goes_on (said receiver_accepted rcpt_to_received from (user ∷ []))
unfolding command rcpt_command recipient recipient_email send_response outcome_of insert_text
rcpt_goes_on from user n a g =
    let s = said sender_accepted mail_from_received from [] in
    let email = user ++ codes "@localhost" in
    let text = codes "RCPT TO:" ++ b'<' ∷ (email ++ b'>' ∷ codes "\r\n") in
    let t : line (rcpt_line user) ≡ text =
      ap (λ r. codes "RCPT TO:<" ++ r)
        (append_assoc user (codes "@localhost>") (codes "\r\n")
          ∙ sym (append_assoc user (codes "@localhost") (codes ">\r\n"))) in
    (λ i. command (verb_of (t i)) (t i) s)
    ∙ (λ i. command (rcpt_verb (b'<' ∷ (email ++ b'>' ∷ codes "\r\n")) i) text s)
    ∙ (λ i. outcome_of (
        recipient
          (between_angles (codes "RCPT TO:") email (codes "\r\n") (omega arith) (omega arith)
            (All-append _ user (codes "@localhost") g (omega arith)) i)
          s))
    ∙ (λ i. outcome_of (
        if localhost_lem user n i
        then some
            (said receiver_accepted rcpt_to_received from (insert_text (name_of_local user a i) []))
        else relayed_at email (find_byte b'@' email) s))

pub data_reads_mail :
    (from user : Bytes)
    → command
        (verb_of (codes "DATA\r\n"))
        (codes "DATA\r\n")
        (said receiver_accepted rcpt_to_received from (user ∷ []))
      ≡ reads_mail (said mail_asked rcpt_to_received from (user ∷ []))
unfolding command verb_of same_letters data_command send_response
data_reads_mail from user = refl
