-- ===== src/Smtp/Senders.antt =====
-- Which senders MAIL takes, and which recipients RCPT cannot take.
use distributed_cloud_storag.Prelude.{
  ℕ, ◌+◌, ◌≤◌, ◌≡◌, refl, ap, ◌∙◌, false, ◌||◌, ◌⊎◌, inl, inr, [], ◌∷◌, ◌++◌, none, some, arith,
  leb, ◌==◌, if◌then◌else◌, length, drop-append-suc,
}
use distributed_cloud_storag.Prelude.Dict.{Bytes}
use distributed_cloud_storag.Text.{codes}
use distributed_cloud_storag.Text.Find.{Lacks, find_byte-append}
use distributed_cloud_storag.Smtp.Text.{mail, rcpt, between, local_part, is_empty, is_local}
use distributed_cloud_storag.Smtp.State.{
  helo_received, mail_from_received, rcpt_to_received, Session, send_response,
}
use distributed_cloud_storag.Smtp.Commands.{
  sender_at, sender, mail_command, relayed_at, recipient_email, recipient, rcpt_command, goes_on,
  fault, outcome_of, command,
}

-- The local part that is tested is empty exactly where there is one byte before the "@".
pub tested_local :
    (local domain : Bytes)
    → is_empty (local_part (length local) (local ++ b'@' ∷ domain)) ≡ (length local == 1)
unfolding local_part is_empty
tested_local [] domain = refl
tested_local (x ∷ []) domain = refl
tested_local (x ∷ y ∷ local) domain = ground arith

-- A sender of the form "local@domain", with no "@" in the local part, in the state HeloReceived:
-- it is refused if the local part has exactly one byte or the domain is empty, and accepted
-- otherwise; it is kept in any case.
pub mail_command_lem :
    (text local domain : Bytes) (s : Session)
    → s.state ≡ helo_received
    → between text ≡ some (local ++ b'@' ∷ domain)
    → Lacks b'@' local
    → command mail text s
      ≡ goes_on (
          let kept = record s { mail_from = local ++ b'@' ∷ domain } in
          if length local == 1 || is_empty domain
          then send_response (codes "501 Syntax Error, local or domain part empty") kept
          else record (send_response (codes "250 OK : Sender ok\r\n") kept) {
            state = mail_from_received;
          })
unfolding command mail_command sender sender_at
mail_command_lem text local domain s e b l =
    let email = local ++ b'@' ∷ domain in
    (λ i. goes_on (mail_command text (e i) s))
    ∙ (λ i. goes_on (sender (b i) s))
    ∙ (λ i.
        goes_on (
          sender_at email (find_byte-append b'@' local domain l i)
            (record s { mail_from = email })))
    ∙ (λ i. goes_on (
        if tested_local local domain i || is_empty (drop-append-suc local b'@' domain i)
        then send_response (codes "501 Syntax Error, local or domain part empty")
            (record s { mail_from = email })
        else record (send_response (codes "250 OK : Sender ok\r\n")
            (record s { mail_from = email })) { state = mail_from_received }))

too_far :
    (email : Bytes) (at : ℕ) (s : Session)
    → length s.mail_from ≤ at
    → relayed_at email (some at) s ≡ none
unfolding relayed_at
too_far email at s h =
    let short : leb (at + 1) (length s.mail_from) ≡ false = ground arith in rw short refl

recipient_none :
    (text local domain : Bytes) (s : Session)
    → between text ≡ some (local ++ b'@' ∷ domain)
    → is_local (local ++ b'@' ∷ domain) ≡ false
    → Lacks b'@' local
    → length s.mail_from ≤ length local
    → recipient (between text) s ≡ none
unfolding recipient recipient_email
recipient_none text local domain s b far l h =
    let email = local ++ b'@' ∷ domain in
    (λ i. recipient (b i) s)
    ∙ rw far refl
    ∙ (λ i. relayed_at email (find_byte-append b'@' local domain l i) s)
    ∙ too_far email (length local) s h

-- A recipient elsewhere whose local part is no shorter than the whole address of the sender, where a
-- recipient is allowed, is an exception of substr, which ends the server.
pub rcpt_command-fault :
    (text local domain : Bytes) (s : Session)
    → (s.state ≡ mail_from_received) ⊎ (s.state ≡ rcpt_to_received)
    → between text ≡ some (local ++ b'@' ∷ domain)
    → is_local (local ++ b'@' ∷ domain) ≡ false
    → Lacks b'@' local
    → length s.mail_from ≤ length local
    → command rcpt text s ≡ fault
unfolding command outcome_of
rcpt_command-fault text local domain s allowed b far l h = ap outcome_of (elim allowed [
  | inl e ↦ (λ i. rcpt_command text (e i) s) ∙ unfold rcpt_command in (ends)
  | inr e ↦ (λ i. rcpt_command text (e i) s) ∙ unfold rcpt_command in (ends)
])
  where
    ends : recipient (between text) s ≡ none
    ends = recipient_none text local domain s b far l h
