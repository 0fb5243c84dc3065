-- ===== src/Smtp/Protocol.antt =====
-- The dialogue of SMTP as the server keeps it: which reply may follow in which state.
use distributed_cloud_storag.Prelude.{
  ℕ, ◌+◌, append-nil, ◌≡◌, ◌≢◌, refl, sym, Bool, true, false, ◌||◌, ◌⊎◌, inl, inr, List, [], ◌∷◌,
  ◌++◌, Option, none, some, leb, if◌then◌else◌, length, get_or, drop,
}
use distributed_cloud_storag.Prelude.Dict.{Bytes, eqb}
use distributed_cloud_storag.Text.{codes}
use distributed_cloud_storag.Text.Find.{find_byte}
use distributed_cloud_storag.Smtp.Text.{
  Verb, helo, mail, rcpt, text_follows, rset, noop, quit, unknown, between, local_part, is_empty,
  is_local,
}
use distributed_cloud_storag.Smtp.State.{
  SmtpState, initial, helo_received, mail_from_received, rcpt_to_received, Session, send_response,
  bad_sequence, cleared,
}
use distributed_cloud_storag.Smtp.Commands.{
  helo_text, helo_command, sender_at, sender, mail_command, relayed_at, recipient_email, recipient,
  rcpt_command, rset_command, noop_command, Outcome, goes_on, reads_mail, ended, fault,
  data_command, outcome_of, command,
}

-- A reply in the 500s.
abbrev IsRefusal : Bytes → Type 0
IsRefusal m = get_or m 0 0 ≡ b'5'

-- `Step a r b`: in the state `a` the server may send the replies `r` and be in the state `b` then.
pub data Step : SmtpState → List Bytes → SmtpState → Type 0 where
  hello :
      {a : SmtpState} {r : List Bytes}
      → (a ≡ initial) ⊎ (a ≡ helo_received)
      → r ≡ codes "250 localhost\r\n" ∷ []
      → Step a r helo_received
  sender_ok :
      {a : SmtpState} {r : List Bytes}
      → a ≡ helo_received
      → r ≡ codes "250 OK : Sender ok\r\n" ∷ []
      → Step a r mail_from_received
  receiver_ok :
      {a : SmtpState} {r : List Bytes}
      → (a ≡ mail_from_received) ⊎ (a ≡ rcpt_to_received)
      → (r ≡ codes "250 OK : Receiver ok\r\n" ∷ [])
        ⊎ (r ≡ codes "251 User not local : will forward to mqueue file\r\n" ∷ [])
      → Step a r rcpt_to_received
  mail_starts :
      {a : SmtpState} {r : List Bytes}
      → a ≡ rcpt_to_received
      → r ≡ codes "354 Start mail input; end with <CRLF>.<CRLF>\r\n" ∷ []
      → Step a r a
  mail_ends :
      {a : SmtpState} {r : List Bytes}
      → a ≡ rcpt_to_received
      → (r ≡ codes "250 OK : Email Sent\r\n" ∷ [])
        ⊎ (r ≡ codes "554 Data Transfer Failed, restart process again\r\n" ∷ [])
      → Step a r helo_received
  reset : {a : SmtpState} {r : List Bytes} → a ≢ initial → r ≡ [] → Step a r helo_received
  nothing_done :
      {a : SmtpState} {r : List Bytes} → a ≢ initial → r ≡ codes "250 OK\r\n" ∷ [] → Step a r a
  refused : {a : SmtpState} {r : List Bytes} (m : Bytes) → IsRefusal m → r ≡ m ∷ [] → Step a r a
  farewell :
      {a : SmtpState} {r : List Bytes}
      → r ≡ codes "221 Service closing transmission channel\r\n" ∷ []
      → Step a r a

-- What a session has sent, and its state, when it is `t` after `s`.
abbrev pub Moves : Session → Session → Type 0
Moves s t = (r : List Bytes) × (t.sent ≡ s.sent ++ r) × Step s.state r t.state

-- Nothing is asked of an exception.
abbrev MovesSome : Session → Option Session → Type 0
MovesSome s none = Unit
MovesSome s (some t) = Moves s t

abbrev pub MovesTo : Session → Outcome → Type 0
MovesTo s (goes_on t) = Moves s t
MovesTo s (reads_mail t) = Moves s t × (t.state ≡ rcpt_to_received)
MovesTo s (ended t) = Moves s t
MovesTo s fault = Unit

refusal : (m : Bytes) (s : Session) → IsRefusal m → Moves s (send_response m s)
unfolding send_response
refusal m s h = (m ∷ [], refl, refused m h refl)

in_if {ℓ κ} :
    {A : Type ℓ} (P : A → Type κ) (b : Bool) {x y : A} → P x → P y → P (if b then x else y)
in_if P true hx hy = hx
in_if P false hx hy = hy

module _ (s : Session) where
  helo_command-Moves :
      (text : Bytes) (a : SmtpState) → s.state ≡ a → Moves s (helo_command text a s)
  unfolding helo_command helo_text send_response bad_sequence
  helo_command-Moves text initial e =
      in_if (Moves s) (eqb (drop 5 text) (codes "\r\n")) (refusal _ s refl)
        (_, refl, hello (inl e) refl)
  helo_command-Moves text helo_received e =
      in_if (Moves s) (eqb (drop 5 text) (codes "\r\n")) (refusal _ s refl)
        (_, refl, hello (inr e) refl)
  helo_command-Moves text mail_from_received e = refusal _ s refl
  helo_command-Moves text rcpt_to_received e = refusal _ s refl

  sender_at-Moves :
      (email : Bytes) (at : Option ℕ)
      → s.state ≡ helo_received
      → Moves s (sender_at email at (record s { mail_from = email }))
  unfolding sender_at send_response
  sender_at-Moves email none e = refusal _ (record s { mail_from = email }) refl
  sender_at-Moves email (some at) e =
      in_if (Moves s) (is_empty (local_part at email) || is_empty (drop (at + 1) email))
        (refusal _ (record s { mail_from = email }) refl) (_, refl, sender_ok e refl)

  sender-Moves : (o : Option Bytes) → s.state ≡ helo_received → Moves s (sender o s)
  unfolding sender
  sender-Moves none e = refusal _ s refl
  sender-Moves (some email) e = sender_at-Moves email (find_byte b'@' email) e

  mail_command-Moves :
      (text : Bytes) (a : SmtpState) → s.state ≡ a → Moves s (mail_command text a s)
  unfolding mail_command bad_sequence
  mail_command-Moves text initial e = refusal _ s refl
  mail_command-Moves text helo_received e = sender-Moves (between text) e
  mail_command-Moves text mail_from_received e = refusal _ s refl
  mail_command-Moves text rcpt_to_received e = refusal _ s refl

  relayed_at-Moves :
      (email : Bytes) (at : Option ℕ)
      → (s.state ≡ mail_from_received) ⊎ (s.state ≡ rcpt_to_received)
      → MovesSome s (relayed_at email at s)
  unfolding relayed_at send_response
  relayed_at-Moves email none e = refusal _ s refl
  relayed_at-Moves email (some at) e =
      in_if (MovesSome s) (leb (at + 1) (length s.mail_from))
        (in_if (Moves s)
          (is_empty (local_part at s.mail_from) || is_empty (drop (at + 1) s.mail_from))
          (refusal _ s refl) (_, refl, receiver_ok e (inr refl)))
        tt

  recipient-Moves :
      (o : Option Bytes)
      → (s.state ≡ mail_from_received) ⊎ (s.state ≡ rcpt_to_received)
      → MovesSome s (recipient o s)
  unfolding recipient recipient_email send_response
  recipient-Moves none e = refusal _ s refl
  recipient-Moves (some email) e =
      in_if (MovesSome s) (is_local email) (_, refl, receiver_ok e (inl refl))
        (relayed_at-Moves email (find_byte b'@' email) e)

  rcpt_command-Moves :
      (text : Bytes) (a : SmtpState) → s.state ≡ a → MovesSome s (rcpt_command text a s)
  unfolding rcpt_command bad_sequence
  rcpt_command-Moves text initial e = refusal _ s refl
  rcpt_command-Moves text helo_received e = refusal _ s refl
  rcpt_command-Moves text mail_from_received e = recipient-Moves (between text) (inl e)
  rcpt_command-Moves text rcpt_to_received e = recipient-Moves (between text) (inr e)

  rset_command-Moves : (a : SmtpState) → s.state ≡ a → Moves s (rset_command a s)
  unfolding rset_command bad_sequence cleared
  rset_command-Moves initial e = refusal _ s refl
  rset_command-Moves helo_received e = ([], sym (append-nil _), reset (λ z. cc) refl)
  rset_command-Moves mail_from_received e = ([], sym (append-nil _), reset (λ z. cc) refl)
  rset_command-Moves rcpt_to_received e = ([], sym (append-nil _), reset (λ z. cc) refl)

  noop_command-Moves : (a : SmtpState) → s.state ≡ a → Moves s (noop_command a s)
  unfolding noop_command bad_sequence send_response
  noop_command-Moves initial e = refusal _ s refl
  noop_command-Moves helo_received e = (_, refl, nothing_done (λ z. cc) refl)
  noop_command-Moves mail_from_received e = (_, refl, nothing_done (λ z. cc) refl)
  noop_command-Moves rcpt_to_received e = (_, refl, nothing_done (λ z. cc) refl)

  data_command-Moves : (a : SmtpState) → s.state ≡ a → MovesTo s (data_command a s)
  unfolding data_command bad_sequence send_response
  data_command-Moves initial e = refusal _ s refl
  data_command-Moves helo_received e = refusal _ s refl
  data_command-Moves mail_from_received e = refusal _ s refl
  data_command-Moves rcpt_to_received e = ((_, refl, mail_starts e refl), e)

  outcome_of-Moves : (o : Option Session) → MovesSome s o → MovesTo s (outcome_of o)
  unfolding outcome_of
  outcome_of-Moves none h = tt
  outcome_of-Moves (some t) h = h

  -- Every command is one step of the dialogue.
  pub command-Moves : (v : Verb) (text : Bytes) → MovesTo s (command v text s)
  unfolding command send_response
  command-Moves helo text = helo_command-Moves text s.state refl
  command-Moves mail text = mail_command-Moves text s.state refl
  command-Moves rcpt text = outcome_of-Moves _ (rcpt_command-Moves text s.state refl)
  command-Moves text_follows text = data_command-Moves s.state refl
  command-Moves rset text = rset_command-Moves s.state refl
  command-Moves noop text = noop_command-Moves s.state refl
  command-Moves quit text = (_, refl, farewell refl)
  command-Moves unknown text = refusal _ s refl
