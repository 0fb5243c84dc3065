-- ===== src/Smtp/Valid.antt =====
-- What holds of the sender and the recipients of a session in each of its states.
use distributed_cloud_storag.Prelude.{
  ℕ, ◌+◌, ◌≡◌, ◌≢◌, refl, Bool, true, false, ◌||◌, ◌⊎◌, inl, inr, List, [], ◌∷◌, Option, none, some,
  arith, leb, if◌then◌else◌, length, drop,
}
use distributed_cloud_storag.Prelude.Dict.{Bytes, eqb}
use distributed_cloud_storag.Text.{codes}
use distributed_cloud_storag.Text.Find.{find_byte}
use distributed_cloud_storag.Smtp.Text.{
  Verb, helo, mail, rcpt, text_follows, rset, noop, quit, unknown, between, local_part, is_empty,
  is_local, name_of, insert_text,
}
use distributed_cloud_storag.Smtp.State.{
  SmtpState, initial, helo_received, mail_from_received, rcpt_to_received, Session, send_response,
  bad_sequence, cleared,
}
use distributed_cloud_storag.Smtp.Commands.{
  helo_text, helo_command, sender_at, sender, mail_command, relayed_at, recipient_email, recipient,
  rcpt_command, rset_command, noop_command, Outcome, goes_on, reads_mail, ended, fault,
  data_command, outcome_of, command,
}

-- An address with an "@", of which neither part that is tested is empty.
abbrev pub IsSender : Bytes → Type 0
IsSender email =
    (at : ℕ) × (find_byte b'@' email ≡ some at)
    × ((is_empty (local_part at email) || is_empty (drop (at + 1) email)) ≡ false)

abbrev NoRecipient : Session → Type 0
NoRecipient s = (s.rcpt_to ≡ []) × (s.rcpt_to_relay ≡ [])

abbrev SomeRecipient : Session → Type 0
SomeRecipient s = (s.rcpt_to ≢ []) ⊎ (s.rcpt_to_relay ≢ [])

abbrev ValidIn : SmtpState → Session → Type 0
ValidIn initial s = (s.mail_from ≡ []) × NoRecipient s
ValidIn helo_received s = NoRecipient s
ValidIn mail_from_received s = IsSender s.mail_from × NoRecipient s
ValidIn rcpt_to_received s = IsSender s.mail_from × SomeRecipient s

abbrev pub Valid : Session → Type 0
Valid s = ValidIn s.state s

abbrev ValidSome : Option Session → Type 0
ValidSome none = Unit
ValidSome (some s) = Valid s

abbrev pub ValidOutcome : Outcome → Type 0
ValidOutcome (goes_on s) = Valid s
ValidOutcome (reads_mail s) = Valid s
ValidOutcome (ended s) = Valid s
ValidOutcome fault = Unit

insert_text-ne-nil : (x : Bytes) (ys : List Bytes) → insert_text x ys ≢ []
unfolding insert_text
insert_text-ne-nil x [] = λ e. cc
insert_text-ne-nil x (y ∷ ys) = λ e. ground arith

-- A reply changes nothing that is kept.
replied : (m : Bytes) (a : SmtpState) (s : Session) → ValidIn a s → ValidIn a (send_response m s)
unfolding send_response
replied m initial s h = h
replied m helo_received s h = h
replied m mail_from_received s h = h
replied m rcpt_to_received s h = h

in_if {ℓ κ} :
    {A : Type ℓ} (P : A → Type κ) (b : Bool) {x y : A}
    → (b ≡ true → P x)
    → (b ≡ false → P y)
    → P (if b then x else y)
in_if P true hx hy = hx refl
in_if P false hx hy = hy refl

module _ (s : Session) where
  refusal : (m : Bytes) → Valid s → Valid (send_response m s)
  unfolding send_response
  refusal m h = replied m s.state s h

  no_recipient : (a : SmtpState) → (a ≡ initial) ⊎ (a ≡ helo_received) → ValidIn a s → NoRecipient s
  no_recipient initial e (h, n) = n
  no_recipient helo_received e h = h
  no_recipient mail_from_received (inl e) h = cc
  no_recipient mail_from_received (inr e) h = cc
  no_recipient rcpt_to_received (inl e) h = cc
  no_recipient rcpt_to_received (inr e) h = cc

  helo_text-Valid : (rest : Bytes) → NoRecipient s → Valid s → Valid (helo_text rest s)
  unfolding helo_text send_response
  helo_text-Valid rest n h = in_if Valid (eqb rest (codes "\r\n")) (λ _. refusal _ h) (λ _. n)

  helo_command-Valid :
      (text : Bytes) (a : SmtpState) → s.state ≡ a → Valid s → Valid (helo_command text a s)
  unfolding helo_command bad_sequence
  helo_command-Valid text initial e h =
      helo_text-Valid (drop 5 text) (no_recipient s.state (inl e) h) h
  helo_command-Valid text helo_received e h =
      helo_text-Valid (drop 5 text) (no_recipient s.state (inr e) h) h
  helo_command-Valid text mail_from_received e h = refusal _ h
  helo_command-Valid text rcpt_to_received e h = refusal _ h

  sender-Valid : (o : Option Bytes) → s.state ≡ helo_received → Valid s → Valid (sender o s)
  unfolding sender sender_at send_response
  sender-Valid none e h = refusal _ h
  sender-Valid (some email) e h =
      let n = no_recipient s.state (inr e) h in
      let kept : ValidIn s.state (record s { mail_from = email }) =
        coe 1 0 (i. ValidIn (e i) (record s { mail_from = email })) n in
      elim (find_byte b'@' email)
          as (λ at.
            find_byte b'@' email ≡ at
            → Valid (sender_at email at (record s { mail_from = email }))) [
              | none ↦ λ _. replied _ s.state (record s { mail_from = email }) kept
              | some at ↦ λ found.
                  in_if Valid (is_empty (local_part at email) || is_empty (drop (at + 1) email))
                    (λ _. replied _ s.state (record s { mail_from = email }) kept)
                    (λ full. ((at, found, full), n))
            ]
        refl

  mail_command-Valid :
      (text : Bytes) (a : SmtpState) → s.state ≡ a → Valid s → Valid (mail_command text a s)
  unfolding mail_command bad_sequence
  mail_command-Valid text initial e h = refusal _ h
  mail_command-Valid text helo_received e h = sender-Valid (between text) e h
  mail_command-Valid text mail_from_received e h = refusal _ h
  mail_command-Valid text rcpt_to_received e h = refusal _ h

  recipient-Valid : (o : Option Bytes) → IsSender s.mail_from → Valid s → ValidSome (recipient o s)
  unfolding recipient recipient_email relayed_at send_response
  recipient-Valid none f h = refusal _ h
  recipient-Valid (some email) f h =
      in_if ValidSome (is_local email)
        (λ _. (f, inl (insert_text-ne-nil (name_of email) s.rcpt_to)))
        λ _. elim (find_byte b'@' email) as (λ at. ValidSome (relayed_at email at s)) [
          | none ↦ refusal _ h
          | some at ↦
              in_if ValidSome (leb (at + 1) (length s.mail_from))
                (λ _.
                  in_if Valid
                    (is_empty (local_part at s.mail_from) || is_empty (drop (at + 1) s.mail_from))
                    (λ _. refusal _ h) (λ _. (f, inr (insert_text-ne-nil email s.rcpt_to_relay))))
                (λ _. tt)
        ]

  rcpt_command-Valid :
      (text : Bytes) (a : SmtpState) → s.state ≡ a → Valid s → ValidSome (rcpt_command text a s)
  unfolding rcpt_command bad_sequence
  rcpt_command-Valid text initial e h = refusal _ h
  rcpt_command-Valid text helo_received e h = refusal _ h
  rcpt_command-Valid text mail_from_received e h =
      recipient-Valid (between text) (coe 0 1 (i. ValidIn (e i) s) h).0 h
  rcpt_command-Valid text rcpt_to_received e h =
      recipient-Valid (between text) (coe 0 1 (i. ValidIn (e i) s) h).0 h

  rset_command-Valid : (a : SmtpState) → Valid s → Valid (rset_command a s)
  unfolding rset_command bad_sequence cleared
  rset_command-Valid initial h = refusal _ h
  rset_command-Valid helo_received h = (refl, refl)
  rset_command-Valid mail_from_received h = (refl, refl)
  rset_command-Valid rcpt_to_received h = (refl, refl)

  noop_command-Valid : (a : SmtpState) → Valid s → Valid (noop_command a s)
  unfolding noop_command bad_sequence
  noop_command-Valid initial h = refusal _ h
  noop_command-Valid helo_received h = refusal _ h
  noop_command-Valid mail_from_received h = refusal _ h
  noop_command-Valid rcpt_to_received h = refusal _ h

  data_command-Valid : (a : SmtpState) → Valid s → ValidOutcome (data_command a s)
  unfolding data_command bad_sequence
  data_command-Valid initial h = refusal _ h
  data_command-Valid helo_received h = refusal _ h
  data_command-Valid mail_from_received h = refusal _ h
  data_command-Valid rcpt_to_received h = refusal _ h

  outcome_of-Valid : (o : Option Session) → ValidSome o → ValidOutcome (outcome_of o)
  unfolding outcome_of
  outcome_of-Valid none h = tt
  outcome_of-Valid (some t) h = h

  -- Every command keeps a session valid.
  pub command-Valid : (v : Verb) (text : Bytes) → Valid s → ValidOutcome (command v text s)
  unfolding command
  command-Valid helo text h = helo_command-Valid text s.state refl h
  command-Valid mail text h = mail_command-Valid text s.state refl h
  command-Valid rcpt text h = outcome_of-Valid _ (rcpt_command-Valid text s.state refl h)
  command-Valid text_follows text h = data_command-Valid s.state h
  command-Valid rset text h = rset_command-Valid s.state h
  command-Valid noop text h = noop_command-Valid s.state h
  command-Valid quit text h = refusal _ h
  command-Valid unknown text h = refusal _ h
