-- ===== src/Frontend/Mailbox/Listed.antt =====
-- The mails that the store lists, as the mailbox shows them.
use distributed_cloud_storag.Prelude.{
  ◌+◌, ◌≡◌, refl, ap, ◌∙◌, List, [], ◌∷◌, ◌++◌, some, length, drop, take-append, drop-append-suc,
  All,
}
use distributed_cloud_storag.Prelude.Dict.{Bytes}
use distributed_cloud_storag.Text.{codes}
use distributed_cloud_storag.Text.Find.{
  Lacks, find_byte, find_byte-append, find_byte-Lacks, up_to, starts_with,
}
use distributed_cloud_storag.Text.Getline.{getlines, getlines-append}
use distributed_cloud_storag.Frontend.Mailbox.{
  Email, behind_sender, comma_at, id_behind, with_id, email_at, added, emails_in, extract_emails,
}

-- A mail in the store: its sender, and its time as the SMTP server encoded it.
pub record Stored : Type 0 where
  pub from : Bytes
  pub time : Bytes

-- Its column.
abbrev pub key_of : Stored → Bytes
key_of m = codes "/emails/" ++ (m.from ++ b'/' ∷ m.time)

abbrev pub listing : List Stored → Bytes
listing [] = codes "\r\n"
listing (m ∷ ms) = key_of m ++ b'\n' ∷ listing ms

-- Its entry in the mailbox, of which the id is the row and the column in the store.
abbrev pub entry_of : Bytes → Stored → Email
entry_of username m = record {
  from = m.from;
  epoch_time = m.time;
  id = username ++ b',' ∷ key_of m;
}

abbrev pub entries_of : Bytes → List Stored → List Email
entries_of username [] = []
entries_of username (m ∷ ms) = entry_of username m ∷ entries_of username ms

pub record IsListed (m : Stored) : Type 0 where
  pub from_lacks : Lacks b'/' m.from
  pub time_lacks : Lacks b',' m.time
  pub one_line : Lacks b'\n' (key_of m)

email_at-entry :
    (username : Bytes) (m : Stored)
    → IsListed m
    → email_at username (key_of m) (find_byte b'/' (drop 8 (key_of m))) ≡ some (entry_of username m)
unfolding email_at behind_sender comma_at id_behind with_id up_to
email_at-entry username m h =
    let tail = m.from ++ b'/' ∷ m.time in
    let rest = drop (length m.from + 1) tail in
    let t : rest ≡ m.time = drop-append-suc m.from b'/' m.time in
    (λ i. email_at username (key_of m) (find_byte-append b'/' m.from m.time h.from_lacks i))
    ∙ (λ i.
        with_id (take-append m.from (b'/' ∷ m.time) i) (up_to (find_byte b',' (t i)) (t i))
          (id_behind username (key_of m) (comma_at (some (length m.from)) (find_byte b',' (t i)))))
    ∙ (λ i.
        let comma = find_byte-Lacks b',' m.time h.time_lacks i in
        with_id m.from (up_to comma m.time)
          (id_behind username (key_of m) (comma_at (some (length m.from)) comma)))

emails_in-key :
    (username : Bytes) (m : Stored) (ls : List Bytes) (es : List Email)
    → IsListed m
    → emails_in username ls ≡ some es
    → emails_in username (key_of m ∷ ls) ≡ some (entry_of username m ∷ es)
unfolding emails_in starts_with added
emails_in-key username m ls es h e = λ i. added (email_at-entry username m h i) (e i)

-- The mailbox of a user shows the mails that the store lists, each once and in their order, with the
-- sender, the time and the place in the store of each, if no sender has a slash, no time has a comma,
-- and no column has a newline.
pub extract_emails-listing :
    (username : Bytes) (ms : List Stored)
    → All IsListed ms
    → extract_emails username (listing ms) ≡ some (entries_of username ms)
unfolding extract_emails getlines emails_in starts_with
extract_emails-listing username [] h = refl
extract_emails-listing username (m ∷ ms) (h, hs) =
    ap (emails_in username) (getlines-append b'\n' (key_of m) (listing ms) h.one_line)
    ∙ emails_in-key username m (getlines b'\n' (listing ms)) (entries_of username ms) h
        (extract_emails-listing username ms hs)
