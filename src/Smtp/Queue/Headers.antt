-- ===== src/Smtp/Queue/Headers.antt =====
-- Mails as text in the queue, and how one line of it is read.
use distributed_cloud_storag.Prelude.{
  ◌-◌, ◌<◌, ◌≡◌, refl, sym, ◌∙◌, true, false, List, [], ◌∷◌, ◌++◌, append_assoc, some, arith, ltb,
  if◌then◌else◌, length, take, drop, length-append, take-append, drop-append, All, All-append,
}
use distributed_cloud_storag.Prelude.Dict.{Bytes}
use distributed_cloud_storag.Text.{codes}
use distributed_cloud_storag.Text.Find.{Lacks, find, starts_with}
use distributed_cloud_storag.Text.Cstring.{c_string, c_string-Lacks}
use distributed_cloud_storag.Smtp.Queue.{
  EmailInfo, Reader, is_found, contains, cut_at, behind_mark, address_in, email_of, begin_email,
  take_line, read_line, line_size, read_lines, last_email,
}

-- A mail in the queue: its content is lines.
pub record Queued : Type 0 where
  pub from : Bytes
  pub to : Bytes
  pub content : List Bytes

abbrev pub joined_lines : List Bytes → Bytes
joined_lines [] = []
joined_lines (l ∷ ls) = l ++ b'\n' ∷ joined_lines ls

abbrev pub header : Bytes → Bytes → Bytes → Bytes
header mark address end = mark ++ (address ++ b'>' ∷ end)

-- The text of a mail, of which the header lines end in `end` and the newline.
abbrev pub mail_text : Bytes → Queued → Bytes
mail_text end q =
    header (codes "From <") q.from end
    ++ (b'\n' ∷ (header (codes "To <") q.to end ++ b'\n' ∷ joined_lines q.content))

abbrev pub queue_of : Bytes → List Queued → Bytes
queue_of end [] = []
queue_of end (q ∷ qs) = mail_text end q ++ queue_of end qs

-- What is read for it.
abbrev pub info_of : Queued → EmailInfo
info_of q = record {
  recipient = q.to;
  sender_email = q.from;
  content = joined_lines q.content;
  sent = false;
}

abbrev pub infos_of : List Queued → List EmailInfo
infos_of [] = []
infos_of (q ∷ qs) = info_of q ∷ infos_of qs

-- A line that fits in the array, with neither a newline nor a NUL.
abbrev Fits : Bytes → Type 0
Fits l = Lacks b'\n' l × Lacks 0 l × (length l < line_size)

-- One that does not look like a header.
abbrev pub IsPlain : Bytes → Type 0
IsPlain l = Fits l × (contains (codes "From <") l ≡ false) × (contains (codes "To <") l ≡ false)

pub record IsQueued (end : Bytes) (q : Queued) : Type 0 where
  pub from_fits : Fits (header (codes "From <") q.from end)
  pub to_fits : Fits (header (codes "To <") q.to end)
  pub from_closed : Lacks b'>' q.from
  pub to_closed : Lacks b'>' q.to
  pub to_other : contains (codes "From <") (header (codes "To <") q.to end) ≡ false
  pub lines : All IsPlain q.content

no_blank : (s : Bytes) → Lacks b'\n' s → contains (codes "\n\n") s ≡ false
unfolding contains is_found find starts_with
no_blank [] h = refl
no_blank (x ∷ s) h = ground (arith, no_blank s h.1)

find-close : (s rest : Bytes) → Lacks b'>' s → find (codes ">") (s ++ b'>' ∷ rest) ≡ some (length s)
unfolding find starts_with
find-close [] rest h = refl
find-close (x ∷ s) rest h = ground (arith, find-close s rest h.1)

cut_at-header :
    (mark address end : Bytes)
    → Lacks b'>' mark
    → Lacks b'>' address
    → cut_at (length mark) (find (codes ">") (header mark address end)) (header mark address end)
      ≡ address
unfolding cut_at
cut_at-header mark address end hm ha =
    let line = header mark address end in
    let e : (mark ++ address) ++ b'>' ∷ end ≡ line = append_assoc mark address (b'>' ∷ end) in
    let n = length-append mark address in
    let f : find (codes ">") line ≡ some (length (mark ++ address)) =
      (λ i. find (codes ">") (sym e i))
      ∙ find-close (mark ++ address) end (All-append _ mark address hm ha) in
    let b : ltb (length (mark ++ address)) (length mark) ≡ false = ground (arith, n) in
    let k : length (mark ++ address) - length mark ≡ length address = omega (arith, n) in
    (λ i. cut_at (length mark) (f i) line)
    ∙ (λ i.
        if b i
        then drop (length mark) line
        else take (k i) (drop-append mark (address ++ b'>' ∷ end) i))
    ∙ take-append address (b'>' ∷ end)

address_in-from :
    (a end : Bytes) → Lacks b'>' a → address_in (codes "From <") (header (codes "From <") a end) ≡ a
unfolding address_in behind_mark find starts_with
address_in-from a end h = cut_at-header (codes "From <") a end (omega arith) h

address_in-to :
    (a end : Bytes) → Lacks b'>' a → address_in (codes "To <") (header (codes "To <") a end) ≡ a
unfolding address_in behind_mark find starts_with
address_in-to a end h = cut_at-header (codes "To <") a end (omega arith) h

-- A line that fits is taken as it is.
pub read_lines-Fits :
    (l : Bytes) (ls : List Bytes) (r : Reader)
    → Fits l
    → read_lines (l ∷ ls) r ≡ read_lines ls (take_line l r)
unfolding read_lines read_line
read_lines-Fits l ls r (n, z, s) =
    let b : ltb (length l) line_size ≡ true = ground (arith, s) in
    (λ i. if b i then read_lines ls (read_line (c_string l) r) else r)
    ∙ (λ i. read_lines ls (read_line (c_string-Lacks l z i) r))
    ∙ (λ i.
        read_lines ls
          (if no_blank l n i then record (take_line l r) { in_email = false } else take_line l r))

pub take_line-from :
    (a end : Bytes) (r : Reader)
    → Lacks b'>' a
    → take_line (header (codes "From <") a end) r ≡ record {
      emails = last_email r;
      content = if r.in_email then [] else r.content;
      in_email = true;
      sender_email = a;
      recipient = r.recipient;
    }
unfolding take_line begin_email last_email contains is_found find starts_with
take_line-from a end r h =
    elim r.in_email
      as (λ b.
        ◌≡◌ {A = Reader}
          (record (if b
            then record r { emails = r.emails ++ email_of r ∷ []; content = [] }
            else r) {
              in_email = true;
              sender_email = address_in (codes "From <") (header (codes "From <") a end);
            })
          (record {
            emails = if b then r.emails ++ email_of r ∷ [] else r.emails;
            content = if b then [] else r.content;
            in_email = true;
            sender_email = a;
            recipient = r.recipient;
          })) [
            | true ↦ λ i. record {
              emails = r.emails ++ email_of r ∷ [];
              content = [];
              in_email = true;
              sender_email = address_in-from a end h i;
              recipient = r.recipient;
            }
            | false ↦ λ i. record {
              emails = r.emails;
              content = r.content;
              in_email = true;
              sender_email = address_in-from a end h i;
              recipient = r.recipient;
            }
          ]

pub take_line-to :
    (a end : Bytes) (r : Reader)
    → Lacks b'>' a
    → contains (codes "From <") (header (codes "To <") a end) ≡ false
    → take_line (header (codes "To <") a end) r ≡ record r { recipient = a }
unfolding take_line
take_line-to a end r h c =
    let line = header (codes "To <") a end in
    let t : contains (codes "To <") line ≡ true =
      unfold contains in (unfold is_found in (unfold find in (unfold starts_with in refl))) in
    let kept = if r.in_email then record r { content = r.content ++ (line ++ b'\n' ∷ []) } else r in
    (λ i.
      if c i
      then begin_email line r
      else if t i
      then record r { recipient = address_in-to a end h i }
      else kept)

pub take_line-plain :
    (l : Bytes) (r : Reader)
    → IsPlain l
    → r.in_email ≡ true
    → take_line l r ≡ record r { content = r.content ++ (l ++ b'\n' ∷ []) }
unfolding take_line
take_line-plain l r (f, a, b) e = λ i.
    if a i
    then begin_email l r
    else if b i
    then record r { recipient = address_in (codes "To <") l }
    else if e i
    then record r { content = r.content ++ (l ++ b'\n' ∷ []) }
    else r
