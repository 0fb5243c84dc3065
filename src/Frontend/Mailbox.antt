-- ===== src/Frontend/Mailbox.antt =====
-- The mails of a user in the reply of the store to LIST: `extractEmails`, `get_mailbox`,
-- `getEmailContent` and `deleteEmail` of frontend/render.cc.
pub mod Listed
pub mod Store
use distributed_cloud_storag.Prelude.{
  ℕ, ◌+◌, List, [], ◌∷◌, ◌++◌, Option, none, some, leb, ltb, if◌then◌else◌, length, drop,
}
use distributed_cloud_storag.Prelude.Dict.{Bytes}
use distributed_cloud_storag.Text.{codes}
use distributed_cloud_storag.Text.Find.{find, find_byte, up_to, starts_with}
use distributed_cloud_storag.Text.Getline.{getlines}

-- The fields of an email that are filled in.
pub record Email : Type 0 where
  pub from : Bytes
  pub epoch_time : Bytes
  pub id : Bytes

-- What is behind pos1, the slash after the sender; without one it is npos, and npos + 1 is 0.
unfoldable pub behind_sender : Bytes → Option ℕ → Bytes
behind_sender line none = line
behind_sender line (some a) = drop (a + 1) (drop 8 line)

-- pos2, the first comma behind pos1, where `a` is counted from the eighth byte
unfoldable pub comma_at : Option ℕ → Option ℕ → Option ℕ
comma_at slash none = none
comma_at none (some k) = some k
comma_at (some a) (some k) = some (a + 9 + k)

-- The name, and the line from pos2 + 2 on, which is 1 for npos; `none` is an exception of substr.
unfoldable pub id_behind : Bytes → Bytes → Option ℕ → Option Bytes
id_behind username line none = some (username ++ (codes ",/" ++ drop 1 line))
id_behind username line (some c) =
    if ltb (length line) (c + 2) then none else some (username ++ (codes ",/" ++ drop (c + 2) line))

unfoldable pub with_id : Bytes → Bytes → Option Bytes → Option Email
with_id from time none = none
with_id from time (some id) = some (record { from = from; epoch_time = time; id = id })

unfoldable pub email_at : Bytes → Bytes → Option ℕ → Option Email
unfolding behind_sender comma_at id_behind with_id
email_at username line slash =
    let rest = behind_sender line slash in
    let comma = find_byte b',' rest in
    with_id (up_to slash (drop 8 line)) (up_to comma rest)
      (id_behind username line (comma_at slash comma))

unfoldable pub added : Option Email → Option (List Email) → Option (List Email)
added none rest = none
added (some e) none = none
added (some e) (some es) = some (e ∷ es)

-- Lines that do not start with "/emails/" are passed over.
unfoldable pub emails_in : Bytes → List Bytes → Option (List Email)
unfolding email_at added
emails_in username [] = some []
emails_in username (line ∷ ls) =
    let rest = emails_in username ls in
    if starts_with (codes "/emails/") line
    then added (email_at username line (find_byte b'/' (drop 8 line))) rest
    else rest

unfoldable pub extract_emails : Bytes → Bytes → Option (List Email)
unfolding emails_in
extract_emails username response = emails_in username (getlines b'\n' response)

unfoldable pub mailbox_command : Bytes → Bytes
mailbox_command username = codes "LIST " ++ (username ++ codes ",/emails\r\n")

-- The command for one mail.
unfoldable pub email_command : Bytes → Bytes
email_command id = codes "GET " ++ (id ++ codes "\r\n")
