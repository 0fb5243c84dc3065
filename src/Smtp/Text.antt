-- ===== src/Smtp/Text.antt =====
-- How smtp/smtpServer.cc reads a line of a client and the reply of the master.
use distributed_cloud_storag.Prelude.{
  ℕ, ◌+◌, ◌-◌, Bool, true, false, ◌&&◌, List, [], ◌∷◌, Option, none, some, leb, ltb, ◌==◌,
  if◌then◌else◌, length, take, drop,
}
use distributed_cloud_storag.Prelude.Dict.{Bytes, eqb}
use distributed_cloud_storag.Prelude.Int.{ℤ}
use distributed_cloud_storag.Text.{codes, to_lower}
use distributed_cloud_storag.Text.Find.{find, find_byte, behind, up_to}
use distributed_cloud_storag.Text.Decimal.{stoi}

-- Does a text start with `prefix`, whatever the case of the letters? The NUL behind the text is no
-- letter of a prefix, so the comparison ends there.
unfoldable pub same_letters : Bytes → Bytes → Bool
unfolding to_lower
same_letters [] text = true
same_letters (p ∷ prefix) [] = false
same_letters (p ∷ prefix) (c ∷ text) = to_lower c == to_lower p && same_letters prefix text

pub data Verb : Type 0 where
  helo mail rcpt text_follows rset noop quit unknown : Verb

-- The tests of the loop in their order, on all that is in the buffer.
unfoldable pub verb_of : Bytes → Verb
unfolding same_letters
verb_of text =
    if same_letters (codes "HELO ") text
    then helo
    else if same_letters (codes "MAIL FROM:") text
    then mail
    else if same_letters (codes "RCPT TO:") text
    then rcpt
    else if same_letters (codes "DATA\r\n") text
    then text_follows
    else if same_letters (codes "RSET\r\n") text
    then rset
    else if same_letters (codes "NOOP\r\n") text
    then noop
    else if same_letters (codes "QUIT\r\n") text
    then quit
    else unknown

unfoldable pub angles : Bytes → Option ℕ → Option ℕ → Option Bytes
angles text (some a) (some b) =
    if ltb a b then some (take (b - a - 1) (drop (a + 1) text)) else none
angles text _ _ = none

-- What stands between the first "<" and the first ">" of the buffer.
unfoldable pub between : Bytes → Option Bytes
unfolding angles
between text = angles text (find_byte b'<' text) (find_byte b'>' text)

-- email.substr(0, atPos - 1), where 0 - 1 is the greatest number
unfoldable pub local_part : ℕ → Bytes → Bytes
local_part at email = if at == 0 then email else take (at - 1) email

unfoldable pub is_empty : Bytes → Bool
is_empty [] = true
is_empty (c ∷ s) = false

unfoldable pub is_local : Bytes → Bool
is_local email = leb 10 (length email) && eqb (drop (length email - 10) email) (codes "@localhost")

-- email.substr(0, email.find('@'))
unfoldable pub name_of : Bytes → Bytes
name_of email = up_to (find_byte b'@' email) email

-- operator< of std::string
unfoldable precedes : Bytes → Bytes → Bool
precedes [] [] = false
precedes [] (b ∷ t) = true
precedes (a ∷ s) [] = false
precedes (a ∷ s) (b ∷ t) = if ltb a b then true else a == b && precedes s t

-- set<string>::insert: a list in order with no text twice
unfoldable pub insert_text : Bytes → List Bytes → List Bytes
unfolding precedes
insert_text x [] = x ∷ []
insert_text x (y ∷ ys) =
    let rest = insert_text x ys in
    if precedes x y then x ∷ y ∷ ys else if eqb x y then y ∷ ys else y ∷ rest

-- The number before the line end.
unfoldable pub port_of : Bytes → Option ℤ
port_of text = stoi (up_to (find (codes "\r\n") text) text)

unfoldable pub with_port : Bytes → Option ℤ → Option (Bytes × ℤ)
with_port ip none = none
with_port ip (some port) = some (ip, port)

-- With no second colon the search for the port starts at 0 again, since npos + 1 is 0.
unfoldable pub split_address : Bytes → Bytes → Option ℕ → Option (Bytes × ℤ)
unfolding port_of with_port
split_address info rest none = with_port rest (port_of info)
split_address info rest (some n) = with_port (take n rest) (port_of (drop (n + 1) rest))

-- The address between the colons and the port behind them. `none` is the exception of stoi.
unfoldable pub extract_ip_and_port : Bytes → Option (Bytes × ℤ)
unfolding split_address
extract_ip_and_port info =
    let rest = drop (behind (find_byte b':' info)) info in
    split_address info rest (find_byte b':' rest)
