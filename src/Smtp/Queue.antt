-- ===== src/Smtp/Queue.antt =====
-- The file of mails to others: `buildEmailInfo` and the writing back in `main` of smtp/smtpec.cc.
pub mod Headers
pub mod RoundTrip
pub mod Refill
use distributed_cloud_storag.Prelude.{
  ℕ, ◌+◌, ◌-◌, Bool, true, false, List, [], ◌∷◌, ◌++◌, Option, none, some, leb, ltb, if◌then◌else◌,
  length, take, drop,
}
use distributed_cloud_storag.Prelude.Dict.{Bytes}
use distributed_cloud_storag.Text.{codes}
use distributed_cloud_storag.Text.Find.{find}
use distributed_cloud_storag.Text.Cstring.{c_string}
use distributed_cloud_storag.Text.Getline.{getlines}

pub record EmailInfo : Type 0 where
  pub recipient : Bytes
  pub sender_email : Bytes
  pub content : Bytes
  pub sent : Bool

-- The global list of mails, and the variables of the loop.
pub record Reader : Type 0 where
  pub emails : List EmailInfo
  pub content : Bytes
  pub in_email : Bool
  pub sender_email : Bytes
  pub recipient : Bytes

unfoldable pub is_found : Option ℕ → Bool
is_found none = false
is_found (some n) = true

-- strstr(line, text)
unfoldable pub contains : Bytes → Bytes → Bool
unfolding is_found
contains text line = is_found (find text line)

-- substr(start, end - start), where the end is `npos` or before the start for the rest of the line
unfoldable pub cut_at : ℕ → Option ℕ → Bytes → Bytes
cut_at start none line = drop start line
cut_at start (some e) line =
    if ltb e start then drop start line else take (e - start) (drop start line)

unfoldable pub behind_mark : Option ℕ → Bytes → Bytes → Bytes
unfolding cut_at
behind_mark none mark line = cut_at (length mark - 1) (find (codes ">") line) line
behind_mark (some n) mark line = cut_at (n + length mark) (find (codes ">") line) line

-- The address between a mark and the first ">".
unfoldable pub address_in : Bytes → Bytes → Bytes
unfolding behind_mark
address_in mark line = behind_mark (find mark line) mark line

unfoldable pub email_of : Reader → EmailInfo
email_of r = record {
  recipient = r.recipient;
  sender_email = r.sender_email;
  content = r.content;
  sent = false;
}

-- A mail begins, and the one before it is kept.
unfoldable pub begin_email : Bytes → Reader → Reader
unfolding email_of address_in
begin_email line r =
    let kept =
      if r.in_email then record r { emails = r.emails ++ email_of r ∷ []; content = [] } else r in
    record kept { in_email = true; sender_email = address_in (codes "From <") line }

unfoldable pub take_line : Bytes → Reader → Reader
unfolding contains begin_email address_in
take_line line r =
    if contains (codes "From <") line
    then begin_email line r
    else if contains (codes "To <") line
    then record r { recipient = address_in (codes "To <") line }
    else if r.in_email
    then record r { content = r.content ++ (line ++ b'\n' ∷ []) }
    else r

-- A line has no line end in it, so the last test of the loop never holds.
unfoldable pub read_line : Bytes → Reader → Reader
unfolding take_line contains
read_line line r =
    if contains (codes "\n\n") line
    then record (take_line line r) { in_email = false }
    else take_line line r

abbrev pub line_size : ℕ
line_size = 4096

-- A line that does not fit in the array ends the loop.
unfoldable pub read_lines : List Bytes → Reader → Reader
unfolding read_line
read_lines [] r = r
read_lines (line ∷ ls) r =
    let rest = read_lines ls (read_line (c_string line) r) in
    if ltb (length line) line_size then rest else r

unfoldable pub last_email : Reader → List EmailInfo
unfolding email_of
last_email r = if r.in_email then r.emails ++ email_of r ∷ [] else r.emails

abbrev pub no_emails : Reader
no_emails = record {
  emails = [];
  content = [];
  in_email = false;
  sender_email = [];
  recipient = [];
}

unfoldable pub build_email_info : Bytes → List EmailInfo
unfolding read_lines last_email
build_email_info text = last_email (read_lines (getlines b'\n' text) no_emails)

-- The mails that were not sent, as they are written back.
unfoldable pub unsent_text : List EmailInfo → Bytes
unsent_text [] = []
unsent_text (e ∷ es) =
    let rest = unsent_text es in
    if e.sent
    then rest
    else codes "From <"
      ++ (e.sender_email
          ++ (codes ">\r\n"
              ++ (codes "To <" ++ (e.recipient ++ (codes ">\r\n" ++ (e.content ++ rest))))))
