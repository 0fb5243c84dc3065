-- ===== src/Frontend/Mail.antt =====
-- `mailMessage` of frontend/loginHelper.cc, and frontend/emailHelper.cc.
pub mod Sent
use distributed_cloud_storag.Prelude.{
  ℕ, ◌+◌, ◌-◌, Bool, true, false, ◌&&◌, List, [], ◌∷◌, ◌++◌, Option, none, some, ◌==◌,
  if◌then◌else◌, length, take, drop,
}
use distributed_cloud_storag.Prelude.Dict.{Bytes}
use distributed_cloud_storag.Text.{codes}
use distributed_cloud_storag.Text.Find.{find, find_byte, behind}

-- The domain of the sender is that of the recipient; the whole of it, if there is no "@".
unfoldable pub domain_of : Bytes → Bytes
domain_of to = drop (behind (find_byte b'@' to)) to

unfoldable pub message_data : Bytes → Bytes → Bytes → Bytes → Bytes
message_data from to subject message =
    codes "From: <"
    ++ (from
        ++ (codes ">\r\nTo: <"
            ++ (to
                ++ (codes ">\r\nSubject: "
                    ++ (subject ++ (codes "\r\n" ++ (message ++ codes "\r\n\r\n.\r\n")))))))

-- What is sent to the SMTP server, with a reply read after each of them and left aside.
unfoldable pub mail_message : Bytes → Bytes → Bytes → Bytes → List Bytes
unfolding domain_of message_data
mail_message username to subject message =
    let from = username ++ b'@' ∷ domain_of to in
    (codes "MAIL FROM:<" ++ (from ++ codes ">\r\n"))
    ∷ (codes "RCPT TO:<" ++ (to ++ codes ">\r\n"))
    ∷ codes "DATA\r\n"
    ∷ message_data from to subject message
    ∷ []

unfoldable pub without_spaces : Bytes → Bytes
without_spaces [] = []
without_spaces (c ∷ s) = let rest = without_spaces s in if c == b' ' then rest else c ∷ s

unfoldable pub is_nil : Bytes → Bool
is_nil [] = true
is_nil (c ∷ s) = false

unfoldable pub to_last : Bytes → Bytes
unfolding is_nil
to_last [] = []
to_last (c ∷ s) = let rest = to_last s in if is_nil rest && c == b' ' then [] else c ∷ rest

-- What lies between the first and the last byte that is no space. `none` is an exception of substr:
-- there is no such byte.
unfoldable pub up_to_last : Bytes → Option Bytes
unfolding to_last
up_to_last [] = none
up_to_last (c ∷ s) = some (to_last (c ∷ s))

unfoldable pub trimmed : Bytes → Option Bytes
unfolding without_spaces up_to_last
trimmed s = up_to_last (without_spaces s)

unfoldable pub with_message : Option Bytes → Bytes → Option (Bytes × Bytes)
with_message none message = none
with_message (some subject) message = some (subject, message)

-- The subject's line ends at the newline.
unfoldable pub subject_line : Bytes → Option ℕ → Option (Bytes × Bytes)
unfolding with_message trimmed
subject_line rest none = some ([], [])
subject_line rest (some n) = with_message (trimmed (take n rest)) (drop (n + 1) rest)

unfoldable pub behind_subject : Bytes → Option ℕ → Option (Bytes × Bytes)
unfolding subject_line
behind_subject email none = some ([], [])
behind_subject email (some n) =
    let rest = drop (n + 8) email in subject_line rest (find_byte b'\n' rest)

unfoldable pub extract_subject_and_message : Bytes → Option (Bytes × Bytes)
unfolding behind_subject
extract_subject_and_message email = behind_subject email (find (codes "Subject:") email)

unfoldable path_behind : Bytes → Option ℕ → Bytes
path_behind path none = []
path_behind path (some n) = drop (n + 6) path

unfoldable pub extract_path : Bytes → Bytes
unfolding path_behind
extract_path path = path_behind path (find (codes "drive/") path)
