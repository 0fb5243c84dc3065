-- ===== src/Smtp/Line.antt =====
-- A read that is one line, when the buffer is empty.
use distributed_cloud_storag.Prelude.{
  ℕ, suc, ◌+◌, ◌≤◌, ◌≡◌, ◌≢◌, refl, sym, ap, ◌∙◌, true, false, [], ◌∷◌, ◌++◌, Option, none, some,
  arith, leb, ltb, if◌then◌else◌, length, drop, length-append, All-append,
}
use distributed_cloud_storag.Prelude.Dict.{Bytes}
use distributed_cloud_storag.Text.{codes}
use distributed_cloud_storag.Text.Find.{Lacks, holds_no, holds_no-Lacks, find, find-line_end}
use distributed_cloud_storag.Smtp.Text.{verb_of}
use distributed_cloud_storag.Smtp.State.{Session, World}
use distributed_cloud_storag.Smtp.Commands.{Outcome, goes_on, reads_mail, ended, fault, command}
use distributed_cloud_storag.Smtp.Connection.{
  Conn, buffer_size, Round, faulted, stops, again, moved_on, after_command, at_line_end, round,
  next_line, lines, all_lines, read_commands, receive_in, receive,
}

abbrev pub line : Bytes → Bytes
line body = body ++ codes "\r\n"

-- A text that fits in the buffer as a line, with no line end and no NUL.
abbrev pub IsLine : Bytes → Type 0
IsLine body = Lacks b'\r' body × Lacks 0 body × (length body ≤ 995)

-- What a connection with nothing in its buffer is after one line.
abbrev pub after_one : Session → Bytes → Outcome → Option Conn
after_one s text fault = none
after_one s text (ended t) =
    some (record { session = t; buffer = text; content = none; connected = false })
after_one s text (reads_mail t) =
    some (record { session = t; buffer = text; content = some []; connected = true })
after_one s text (goes_on t) =
    some (record { session = t; buffer = []; content = none; connected = true })

abbrev pub idle : Session → Conn
idle s = record { session = s; buffer = []; content = none; connected = true }

abbrev with_text : Session → Bytes → Conn
with_text s text = record { session = s; buffer = text; content = none; connected = true }

next_line_one : (body : Bytes) → length body ≤ 995 → next_line (length body) (line body) ≡ some []
unfolding next_line
next_line_one body h =
    let l : leb (length (line body) + 4) buffer_size ≡ true =
      ground (arith, length-append body (codes "\r\n")) in
    (λ i. if l i then some (drop (length body + 2) (line body)) else none) ∙ ap some (dropped body)
  where
    dropped : (s : Bytes) → drop (length s + 2) (s ++ codes "\r\n") ≡ []
    dropped [] = refl
    dropped (x ∷ s) =
        let e : suc (length s) + 2 ≡ suc (length s + 2) = omega arith in
        (λ i. drop (e i) (x ∷ (s ++ codes "\r\n"))) ∙ dropped s

module _ (s : Session) (body : Bytes) (h : IsLine body) where
  abbrev lines_after : ℕ → Round → Option Conn
  lines_after fuel faulted = none
  lines_after fuel (stops c) = some c
  lines_after fuel (again c) = lines fuel c

  round_one :
      round (with_text s (line body))
      ≡ after_command
          (with_text s (line body))
          (length body)
          (command (verb_of (line body)) (line body) s)
  unfolding round at_line_end
  round_one = ap (at_line_end (with_text s (line body))) (find-line_end body [] h.0)

  lines_one :
      (fuel : ℕ) (o : Outcome)
      → lines_after (suc fuel) (after_command (with_text s (line body)) (length body) o)
        ≡ after_one s (line body) o
  unfolding after_command
  lines_one fuel fault = refl
  lines_one fuel (ended t) = refl
  lines_one fuel (reads_mail t) = refl
  lines_one fuel (goes_on t) =
      ap (λ r. lines_after (suc fuel) (moved_on (with_text s (line body)) t r))
        (next_line_one body h.2)
      ∙ unfold moved_on lines round at_line_end find in refl

  all_lines_one :
      all_lines (with_text s (line body))
      ≡ after_one s (line body) (command (verb_of (line body)) (line body) s)
  unfolding all_lines lines
  all_lines_one =
      let e : length (line body) ≡ suc (suc (length body)) =
        omega (arith, length-append body (codes "\r\n")) in
      (λ i. lines (e i) (with_text s (line body)))
      ∙ ap (lines_after (suc (length body))) round_one
      ∙ lines_one (length body) (command (verb_of (line body)) (line body) s)

  Lacks-line : holds_no 0 (line body) ≡ true
  Lacks-line = holds_no-Lacks 0 (line body) (All-append _ body (codes "\r\n") h.1 (omega arith))

  read_one :
      (text : Bytes)
      → line body ≡ text
      → text ≢ []
      → read_commands text (idle s) ≡ all_lines (with_text s text)
  unfolding read_commands
  read_one [] e n = absurd (n refl)
  read_one (b ∷ bytes) e n =
      let f : ltb (length (b ∷ bytes)) buffer_size ≡ true =
        (λ i. ltb (length (sym e i)) buffer_size)
        ∙ ground (arith, length-append body (codes "\r\n")) in
      let z : holds_no 0 (b ∷ bytes) ≡ true = (λ i. holds_no 0 (sym e i)) ∙ Lacks-line in
      λ i. if f i then if z i then all_lines (with_text s (b ∷ bytes)) else none else none

  line-ne-nil : (t : Bytes) → line t ≢ []
  line-ne-nil [] = λ e. cc
  line-ne-nil (x ∷ t) = λ e. cc

  -- One read that is one line is one command.
  pub receive_one :
      (w : World)
      → receive w (line body) (idle s)
        ≡ after_one s (line body) (command (verb_of (line body)) (line body) s)
  unfolding receive receive_in
  receive_one w = read_one (line body) refl (line-ne-nil body) ∙ all_lines_one
