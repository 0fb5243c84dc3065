-- ===== src/Smtp/Connection/Sound.antt =====
-- Whatever a client sends, a connection of the SMTP server stays sound.
use distributed_cloud_storag.Prelude.{
  ℕ, ◌<◌, ◌≡◌, refl, Bool, true, false, ◌||◌, inl, inr, List, [], ◌∷◌, ◌++◌, Option, none, some,
  arith, ltb, if◌then◌else◌, length,
}
use distributed_cloud_storag.Prelude.Dict.{Bytes}
use distributed_cloud_storag.Text.{codes}
use distributed_cloud_storag.Text.Find.{find, holds_no}
use distributed_cloud_storag.Smtp.State.{helo_received, rcpt_to_received, Session, World}
use distributed_cloud_storag.Smtp.Delivery.{is_complete, without_dot, deliver, some_recipient}
use distributed_cloud_storag.Smtp.Delivery.Mails.{
  all_puts, queueable, end_reply, delivered, deliver_lem,
}
use distributed_cloud_storag.Smtp.Protocol.{Step, mail_ends, Moves}
use distributed_cloud_storag.Smtp.Valid.{Valid}
use distributed_cloud_storag.Smtp.Connection.{
  Conn, buffer_size, greeted, resumed, past_line, after_delivery, all_lines, after_mail,
  read_commands, read_mail, receive_in, receive, serve_from, handle_connection,
}
use distributed_cloud_storag.Smtp.Connection.Rounds.{
  Reached, begins, IsReading, Sound, SoundSome, NextFits, ltb-true, moved, next_line-fits,
  lines-Sound,
}

-- What a delivery leaves.
abbrev Delivered : Session → Option Session → Type 0
Delivered s none = Unit
Delivered s (some t) = Valid t × Moves s t

end_step : (b : Bool) → Step rcpt_to_received (end_reply b ∷ []) helo_received
end_step true = mail_ends refl (inl refl)
end_step false = mail_ends refl (inr refl)

deliver-Delivered :
    (w : World) (content : Bytes) (s : Session)
    → s.state ≡ rcpt_to_received
    → Delivered s (deliver w content s)
deliver-Delivered w content s e =
    coe 1 0 (i. Delivered s (deliver_lem w content s i))
      (elim (all_puts w s.mail_from content s.rcpt_to)
        as (λ o. Delivered s (delivered w content s o)) [
          | none ↦ tt
          | some l ↦
              let b = some_recipient s.rcpt_to || some_recipient (queueable w s.rcpt_to_relay) in
              (
                (refl, refl),
                (
                  end_reply b ∷ [],
                  refl,
                  coe 1 0 (i. Step (e i) (end_reply b ∷ []) helo_received) (end_step b),
                ),
              )
        ])

resumed-Sound :
    (t : Session) (o : Option Bytes)
    → Valid t
    → Reached t.sent t.state
    → NextFits o
    → SoundSome (resumed t o)
unfolding resumed all_lines
resumed-Sound t none v r f = tt
resumed-Sound t (some rest) v r f =
    lines-Sound (length rest)
      (record { session = t; buffer = rest; content = none; connected = true })
      (record { valid = v; reached = r; reading = tt; fits = f }) refl

past_line-fits :
    (buffer : Bytes) (o : Option ℕ) → length buffer < buffer_size → NextFits (past_line buffer o)
unfolding past_line
past_line-fits buffer none h = tt
past_line-fits buffer (some n) h = next_line-fits n buffer h

after_delivery-Sound :
    (c : Conn) (o : Option Session)
    → Sound c
    → Delivered c.session o
    → SoundSome (after_delivery c.buffer o)
unfolding after_delivery
after_delivery-Sound c none h d = tt
after_delivery-Sound c (some t) h (v, m) =
    resumed-Sound t (past_line c.buffer (find (codes "\r\n") c.buffer)) v
      (moved c.session t h.reached m) (past_line-fits c.buffer _ h.fits)

after_mail-Sound :
    (w : World) (content : Bytes) (c : Conn)
    → Sound c
    → c.session.state ≡ rcpt_to_received
    → SoundSome (after_mail w content c)
unfolding after_mail
after_mail-Sound w content c h e =
    after_delivery-Sound c _ h (deliver-Delivered w content c.session e)

read_mail-Sound :
    (w : World) (content bytes : Bytes) (c : Conn)
    → Sound c
    → c.session.state ≡ rcpt_to_received
    → SoundSome (read_mail w content bytes c)
unfolding read_mail
read_mail-Sound w content [] c h e = after_mail-Sound w content c h e
read_mail-Sound w content (b ∷ bytes) c h e =
    let all = content ++ b ∷ bytes in
    elim (is_complete all)
      as (λ t.
        SoundSome (
          if t then after_mail w (without_dot all) c else some (record c { content = some all }))) [
            | true ↦ after_mail-Sound w (without_dot all) c h e
            | false ↦ record { valid = h.valid; reached = h.reached; reading = e; fits = h.fits }
          ]

read_commands-Sound :
    (bytes : Bytes) (c : Conn) → Sound c → c.content ≡ none → SoundSome (read_commands bytes c)
unfolding read_commands all_lines
read_commands-Sound [] c h e = record {
  valid = h.valid;
  reached = h.reached;
  reading = h.reading;
  fits = h.fits;
}
read_commands-Sound (b ∷ bytes) c h e =
    let text = c.buffer ++ b ∷ bytes in
    let whole : length text < buffer_size → SoundSome (all_lines (record c { buffer = text })) =
      λ f.
        lines-Sound (length text) (record c { buffer = text })
          (record { valid = h.valid; reached = h.reached; reading = h.reading; fits = f }) e in
    let nul : length text < buffer_size
        → SoundSome
            (if holds_no 0 (b ∷ bytes) then all_lines (record c { buffer = text }) else none) =
      λ f.
        elim (holds_no 0 (b ∷ bytes))
          as (λ t. SoundSome (if t then all_lines (record c { buffer = text }) else none)) [
            | true ↦ whole f
            | false ↦ tt
          ] in
    elim (ltb (length text) buffer_size)
        as (λ t.
          ltb (length text) buffer_size ≡ t
          → SoundSome (
              if t
              then if holds_no 0 (b ∷ bytes) then all_lines (record c { buffer = text }) else none
              else none)) [ true ↦ λ f. nul (ltb-true _ _ f) | false ↦ λ _. tt ]
      refl

receive-Sound : (w : World) (bytes : Bytes) (c : Conn) → Sound c → SoundSome (receive w bytes c)
unfolding receive
receive-Sound w bytes c h =
    elim c.connected as (λ t. SoundSome (if t then receive_in w c.content bytes c else some c)) [
      | false ↦ h
      | true ↦ received c.content refl
    ]
  where
    received : (o : Option Bytes) → c.content ≡ o → SoundSome (receive_in w o bytes c)
    received none e = unfold receive_in in (read_commands-Sound bytes c h e)
    received (some content) e =
        unfold receive_in in
        (read_mail-Sound w content bytes c h (coe 0 1 (i. IsReading (e i) c.session) h.reading))

serve_from-Sound :
    (w : World) (reads : List Bytes) (c : Conn) → Sound c → SoundSome (serve_from w reads c)
unfolding serve_from
serve_from-Sound w [] c h = h
serve_from-Sound w (bytes ∷ reads) c h =
    elim (receive w bytes c)
        as (λ o.
          SoundSome o
          → SoundSome
              (elim o as (λ _. Option Conn) [ none ↦ none | some c' ↦ serve_from w reads c' ])) [
                | none ↦ λ _. tt
                | some c' ↦ λ v. serve_from-Sound w reads c' v
              ]
      (receive-Sound w bytes c h)

-- Whatever a client sends, and in whatever pieces it arrives: unless an exception ends the server or
-- a byte is read or written behind the buffer, the replies so far are those of steps of the
-- dialogue that lead from the greeting to the state of the session; in the states HeloReceived and
-- before there are no recipients, with a sender there is an "@" and neither of the parts that are
-- tested is empty, and in RcptToReceived there is a recipient; a mail is read only in that state;
-- and the text in the buffer is shorter than the buffer.
pub handle_connection-Sound :
    (w : World) (reads : List Bytes) (c : Conn) → handle_connection w reads ≡ some c → Sound c
unfolding handle_connection
handle_connection-Sound w reads c e = coe 0 1 (i. SoundSome (e i)) (
    serve_from-Sound w reads greeted (record {
      valid = (refl, (refl, refl));
      reached = begins refl refl;
      reading = tt;
      fits = omega arith;
    }))
