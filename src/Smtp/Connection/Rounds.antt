-- ===== src/Smtp/Connection/Rounds.antt =====
-- What holds of a connection of the SMTP server at every moment, and that the lines keep it.
use distributed_cloud_storag.Prelude.{
  ℕ, zero, suc, ◌+◌, ◌<◌, ◌≡◌, refl, ◌∙◌, true, false, List, [], ◌∷◌, ◌++◌, Option, none, some,
  arith, leb, ltb, if◌then◌else◌, length, drop,
}
use distributed_cloud_storag.Prelude.Dict.{Bytes}
use distributed_cloud_storag.Text.{codes}
use distributed_cloud_storag.Text.Find.{find}
use distributed_cloud_storag.Smtp.Text.{verb_of}
use distributed_cloud_storag.Smtp.State.{SmtpState, initial, rcpt_to_received, Session}
use distributed_cloud_storag.Smtp.Commands.{Outcome, goes_on, reads_mail, ended, fault, command}
use distributed_cloud_storag.Smtp.Protocol.{Step, MovesTo, Moves, command-Moves}
use distributed_cloud_storag.Smtp.Valid.{Valid, ValidOutcome, command-Valid}
use distributed_cloud_storag.Smtp.Connection.{
  Conn, buffer_size, Round, faulted, stops, again, moved_on, after_command, at_line_end, round,
  next_line, lines,
}

-- The replies that steps of the dialogue send one after another, and the state that they lead to.
pub data Reached : List Bytes → SmtpState → Type 0 where
  begins :
      {sent : List Bytes} {a : SmtpState}
      → sent ≡ codes "220 localhost service ready\r\n" ∷ []
      → a ≡ initial
      → Reached sent a
  after_step :
      {sent all r : List Bytes} {a b : SmtpState}
      → Reached sent a
      → Step a r b
      → all ≡ sent ++ r
      → Reached all b

-- A mail is read only for a session with recipients.
abbrev pub IsReading : Option Bytes → Session → Type 0
IsReading none s = Unit
IsReading (some content) s = s.state ≡ rcpt_to_received

pub record Sound (c : Conn) : Type 0 where
  pub valid : Valid c.session
  pub reached : Reached c.session.sent c.session.state
  pub reading : IsReading c.content c.session
  pub fits : length c.buffer < buffer_size

abbrev pub SoundSome : Option Conn → Type 0
SoundSome none = Unit
SoundSome (some c) = Sound c

length-drop : {A : Type 0} (n : ℕ) (xs : List A) (k : ℕ) → length xs < k → length (drop n xs) < k
length-drop zero xs k h = h
length-drop (suc n) [] k h = h
length-drop (suc n) (x ∷ xs) k h = length-drop n xs k (omega (arith, h))

pub ltb-true : (a b : ℕ) → ltb a b ≡ true → a < b
ltb-true a b h = ground arith

pub moved : (s t : Session) → Reached s.sent s.state → Moves s t → Reached t.sent t.state
moved s t h (r, e, step) = after_step h step e

abbrev SoundRound : Round → Type 0
SoundRound faulted = Unit
SoundRound (stops c) = Sound c
SoundRound (again c) = Sound c

abbrev pub NextFits : Option Bytes → Type 0
NextFits none = Unit
NextFits (some rest) = length rest < buffer_size

pub next_line-fits :
    (n : ℕ) (buffer : Bytes) → length buffer < buffer_size → NextFits (next_line n buffer)
unfolding next_line
next_line-fits n buffer h =
    elim (leb (length buffer + 4) buffer_size)
      as (λ b. NextFits (if b then some (drop (n + 2) buffer) else none)) [
        | true ↦ length-drop (n + 2) buffer buffer_size h
        | false ↦ tt
      ]

moved_on-Sound :
    (c : Conn) (s : Session) (o : Option Bytes)
    → c.content ≡ none
    → Valid s
    → Reached s.sent s.state
    → NextFits o
    → SoundRound (moved_on c s o)
unfolding moved_on
moved_on-Sound c s none e v r f = tt
moved_on-Sound c s (some rest) e v r f = record {
  valid = v;
  reached = r;
  reading = coe 1 0 (i. IsReading (e i) s) tt;
  fits = f;
}

after_command-Sound :
    (c : Conn) (n : ℕ) (o : Outcome)
    → Sound c
    → c.content ≡ none
    → ValidOutcome o
    → MovesTo c.session o
    → SoundRound (after_command c n o)
unfolding after_command
after_command-Sound c n fault h e v m = tt
after_command-Sound c n (ended s) h e v m = record {
  valid = v;
  reached = moved c.session s h.reached m;
  reading = coe 1 0 (i. IsReading (e i) s) tt;
  fits = h.fits;
}
after_command-Sound c n (reads_mail s) h e v (m, r) = record {
  valid = v;
  reached = moved c.session s h.reached m;
  reading = r;
  fits = h.fits;
}
after_command-Sound c n (goes_on s) h e v m =
    moved_on-Sound c s (next_line n c.buffer) e v (moved c.session s h.reached m)
      (next_line-fits n c.buffer h.fits)

round-Sound : (c : Conn) → Sound c → c.content ≡ none → SoundRound (round c)
unfolding round at_line_end
round-Sound c h e = elim (find (codes "\r\n") c.buffer) as (λ o. SoundRound (at_line_end c o)) [
  | none ↦ h
  | some n ↦
      after_command-Sound c n (command (verb_of c.buffer) c.buffer c.session) h e
        (command-Valid c.session (verb_of c.buffer) c.buffer h.valid)
        (command-Moves c.session (verb_of c.buffer) c.buffer)
]

-- A round that does not stop reads no mail.
abbrev SameContent : Conn → Round → Type 0
SameContent c (again c') = c'.content ≡ c.content
SameContent c _ = Unit

round-content : (c : Conn) → SameContent c (round c)
unfolding round at_line_end after_command moved_on
round-content c = elim (find (codes "\r\n") c.buffer) as (λ o. SameContent c (at_line_end c o)) [
  | none ↦ tt
  | some n ↦
      elim (command (verb_of c.buffer) c.buffer c.session)
        as (λ o. SameContent c (after_command c n o)) [
          | fault ↦ tt
          | ended s ↦ tt
          | reads_mail s ↦ tt
          | goes_on s ↦ elim (next_line n c.buffer) as (λ o. SameContent c (moved_on c s o)) [
            | none ↦ tt
            | some rest ↦ refl
          ]
        ]
]

abbrev lines_after : ℕ → Round → Option Conn
lines_after fuel faulted = none
lines_after fuel (stops c) = some c
lines_after fuel (again c) = lines fuel c

pub lines-Sound : (fuel : ℕ) (c : Conn) → Sound c → c.content ≡ none → SoundSome (lines fuel c)
unfolding lines
lines-Sound zero c h e = h
lines-Sound (suc fuel) c h e =
    elim (round c) as (λ r. SoundRound r → SameContent c r → SoundSome (lines_after fuel r)) [
      | faulted ↦ λ _ _. tt
      | stops c' ↦ λ v _. v
      | again c' ↦ λ v k. lines-Sound fuel c' v (k ∙ e)
    ]
      (round-Sound c h e) (round-content c)
