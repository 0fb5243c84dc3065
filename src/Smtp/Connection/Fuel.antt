-- ===== src/Smtp/Connection/Fuel.antt =====
-- The loop over the lines in the buffer comes to an end.
use distributed_cloud_storag.Prelude.{
  ℕ, zero, suc, ◌+◌, ◌≤◌, ◌≡◌, refl, ap, ◌∙◌, true, false, List, [], ◌∷◌, Option, none, some, arith,
  leb, if◌then◌else◌, length, drop,
}
use distributed_cloud_storag.Prelude.Dict.{Bytes}
use distributed_cloud_storag.Text.{codes}
use distributed_cloud_storag.Text.Find.{find, starts_with}
use distributed_cloud_storag.Smtp.Text.{verb_of}
use distributed_cloud_storag.Smtp.State.{Session}
use distributed_cloud_storag.Smtp.Commands.{Outcome, goes_on, reads_mail, ended, fault, command}
use distributed_cloud_storag.Smtp.Connection.{
  Conn, buffer_size, Round, faulted, stops, again, moved_on, after_command, at_line_end, round,
  next_line, lines, all_lines,
}

-- Where "\r\n" is found, the text has these two bytes from there on.
abbrev Inside : ℕ → Option ℕ → Type 0
Inside k none = Unit
Inside k (some n) = n + 2 ≤ k

find-Inside : (s : Bytes) → Inside (length s) (find (codes "\r\n") s)
unfolding find starts_with
find-Inside [] = tt
find-Inside (x ∷ []) = ground arith
find-Inside (x ∷ y ∷ s) = ground (arith, find-Inside (y ∷ s))

length-drop_le :
    {A : Type 0} (n : ℕ) (xs : List A) → n ≤ length xs → length (drop n xs) + n ≤ length xs
length-drop_le zero xs h = omega arith
length-drop_le (suc n) [] h = omega (arith, h)
length-drop_le (suc n) (x ∷ xs) h = omega (arith, length-drop_le n xs (omega (arith, h)))

-- A round that goes on leaves a shorter text.
abbrev Shorter : ℕ → Round → Type 0
Shorter k (again c) = length c.buffer ≤ k
Shorter k _ = Unit

plus_zero : (n : ℕ) → 0 + n ≡ n
plus_zero n = omega arith

plus_suc : (k n : ℕ) → suc k + n ≡ suc (k + n)
plus_suc k n = omega arith

moved_on-Shorter :
    (k n : ℕ) (c : Conn) (s : Session)
    → length c.buffer ≤ suc k
    → n + 2 ≤ length c.buffer
    → Shorter k (moved_on c s (next_line n c.buffer))
unfolding moved_on next_line
moved_on-Shorter k n c s h l =
    elim (leb (length c.buffer + 4) buffer_size)
      as (λ t. Shorter k (moved_on c s (if t then some (drop (n + 2) c.buffer) else none))) [
        | true ↦ omega (arith, h, length-drop_le (n + 2) c.buffer l)
        | false ↦ tt
      ]

after_command-Shorter :
    (k n : ℕ) (c : Conn) (o : Outcome)
    → length c.buffer ≤ suc k
    → n + 2 ≤ length c.buffer
    → Shorter k (after_command c n o)
unfolding after_command
after_command-Shorter k n c fault h l = tt
after_command-Shorter k n c (ended s) h l = tt
after_command-Shorter k n c (reads_mail s) h l = tt
after_command-Shorter k n c (goes_on s) h l = moved_on-Shorter k n c s h l

round-Shorter : (k : ℕ) (c : Conn) → length c.buffer ≤ suc k → Shorter k (round c)
unfolding round at_line_end
round-Shorter k c h =
    elim (find (codes "\r\n") c.buffer)
        as (λ o. Inside (length c.buffer) o → Shorter k (at_line_end c o)) [
          | none ↦ λ _. tt
          | some n ↦
              λ l. after_command-Shorter k n c (command (verb_of c.buffer) c.buffer c.session) h l
        ]
      (find-Inside c.buffer)

no_bytes : (s : Bytes) → length s ≤ 0 → s ≡ []
no_bytes [] h = refl
no_bytes (x ∷ s) h = absurd (omega (arith, h))

round_empty : (c : Conn) → c.buffer ≡ [] → round c ≡ stops c
unfolding round at_line_end find starts_with
round_empty c e = λ i. at_line_end c (find (codes "\r\n") (e i))

abbrev lines_after : ℕ → Round → Option Conn
lines_after fuel faulted = none
lines_after fuel (stops c) = some c
lines_after fuel (again c) = lines fuel c

one_more : (fuel : ℕ) (c : Conn) → length c.buffer ≤ fuel → lines (suc fuel) c ≡ lines fuel c
unfolding lines
one_more zero c h = ap (lines_after 0) (round_empty c (no_bytes c.buffer h))
one_more (suc fuel) c h =
    elim (round c) as (λ r. Shorter fuel r → lines_after (suc fuel) r ≡ lines_after fuel r) [
      | faulted ↦ λ _. refl
      | stops c' ↦ λ _. refl
      | again c' ↦ λ l. one_more fuel c' l
    ]
      (round-Shorter fuel c h)

-- The loop over the lines in the buffer ends by itself, within as many rounds as the text in the
-- buffer has bytes: more rounds give the same connection, or the same exception.
pub lines_enough : (c : Conn) (k : ℕ) → lines (k + length c.buffer) c ≡ all_lines c
unfolding all_lines
lines_enough c zero = λ i. lines (plus_zero (length c.buffer) i) c
lines_enough c (suc k) =
    (λ i. lines (plus_suc k (length c.buffer) i) c)
    ∙ one_more (k + length c.buffer) c (omega arith)
    ∙ lines_enough c k
