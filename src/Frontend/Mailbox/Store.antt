-- ===== src/Frontend/Mailbox/Store.antt =====
-- The mailbox of a user and the reply of the key-value store to LIST.
use distributed_cloud_storag.Prelude.{
  ℕ, zero, suc, ◌≡◌, ◌≢◌, refl, sym, ap, ◌∙◌, true, false, ◌⊎◌, inl, inr, List, [], ◌∷◌, ◌++◌,
  append_assoc, append-nil, Option, none, some, arith, ltb, if◌then◌else◌, length, All,
}
use distributed_cloud_storag.Prelude.Dict.{Bytes, eqb, eqb_refl}
use distributed_cloud_storag.Text.{codes}
use distributed_cloud_storag.Text.Find.{find, starts_with}
use distributed_cloud_storag.Text.Getline.{getlines}
use distributed_cloud_storag.Kvstore.Table.{Columns, Table}
use distributed_cloud_storag.Kvstore.Server.{Context}
use distributed_cloud_storag.Kvstore.Forward.{Net}
use distributed_cloud_storag.Kvstore.Handle.{
  Origin, say, list_columns, list_rows, handle_list, handle_command,
}
use distributed_cloud_storag.Frontend.Mailbox.{emails_in, extract_emails}
use distributed_cloud_storag.Frontend.Mailbox.Listed.{
  Stored, key_of, listing, entries_of, IsListed, extract_emails-listing,
}

abbrev pub list_params : Bytes → List Bytes
list_params username = codes "LIST " ∷ username ∷ codes "/emails" ∷ []

-- The mails among the columns of a row; no other column starts with "/emails".
abbrev pub Holds : Columns → List Stored → Type 0
Holds [] ms = ms ≡ []
Holds ((col, value) ∷ cols) ms =
    ((m : Stored) × (ns : List Stored) × (col ≡ key_of m) × (ms ≡ m ∷ ns) × Holds cols ns)
    ⊎ ((find (codes "/emails") col ≢ some zero) × Holds cols ms)

-- The rows of other users.
abbrev pub Others : Bytes → Table → Type 0
Others username = All (λ (entry : Bytes × Columns). eqb entry.0 username ≡ false)

keys_of : List Stored → Bytes
keys_of [] = []
keys_of (m ∷ ms) = key_of m ++ b'\n' ∷ keys_of ms

passed_over :
    {A : Type 0} (o : Option ℕ) (a b : A) → o ≢ some zero → elim o [ some zero ↦ a | _ ↦ b ] ≡ b
passed_over none a b h = refl
passed_over (some zero) a b h = absurd (h refl)
passed_over (some (suc n)) a b h = refl

list_columns-Holds :
    (username : Bytes) (cols : Columns) (ms : List Stored)
    → Holds cols ms
    → list_columns (list_params username) cols ≡ some (keys_of ms)
unfolding list_columns keys_of find starts_with
list_columns-Holds username [] ms h = λ i. some (keys_of (sym h i))
list_columns-Holds username ((col, value) ∷ cols) ms (inl (m, ns, e, same, h)) =
    (λ i. elim (list_columns-Holds username cols ns h i) [
      | none ↦ none
      | some keys ↦ elim (find (codes "/emails") (e i)) [
        | some zero ↦ some (e i ++ (b'\n' ∷ keys))
        | _ ↦ some keys
      ]
    ])
    ∙ (λ i. some (keys_of (sym same i)))
list_columns-Holds username ((col, value) ∷ cols) ms (inr (other, h)) =
    (λ i. elim (list_columns-Holds username cols ms h i) [
      | none ↦ none
      | some keys ↦ elim (find (codes "/emails") col) [
        | some zero ↦ some (col ++ (b'\n' ∷ keys))
        | _ ↦ some keys
      ]
    ])
    ∙ passed_over (find (codes "/emails") col) (some (col ++ (b'\n' ∷ keys_of ms)))
        (some (keys_of ms)) other

list_rows-other :
    (username row : Bytes) (cols : Columns) (t : Table)
    → eqb row username ≡ false
    → list_rows (list_params username) ((row, cols) ∷ t) ≡ list_rows (list_params username) t
unfolding list_rows
list_rows-other username row cols t e = λ i.
    if e i
    then elim (list_columns (list_params username) cols) [
      | none ↦ none
      | some here ↦ elim (list_rows (list_params username) t) [
        | none ↦ none
        | some keys ↦ some (here ++ keys)
      ]
    ]
    else list_rows (list_params username) t

list_rows-Others :
    (username : Bytes) (before after : Table)
    → Others username before
    → list_rows (list_params username) (before ++ after) ≡ list_rows (list_params username) after
list_rows-Others username [] after h = refl
list_rows-Others username ((row, cols) ∷ before) after (e, h) =
    list_rows-other username row cols (before ++ after) e ∙ list_rows-Others username before after h

list_rows-none :
    (username : Bytes) (t : Table)
    → Others username t
    → list_rows (list_params username) t ≡ some []
list_rows-none username [] h = unfold list_rows in refl
list_rows-none username ((row, cols) ∷ t) (e, h) =
    list_rows-other username row cols t e ∙ list_rows-none username t h

list_rows-Holds :
    (username : Bytes) (cols : Columns) (before after : Table) (ms : List Stored)
    → Others username before
    → Others username after
    → Holds cols ms
    → list_rows (list_params username) (before ++ (username, cols) ∷ after) ≡ some (keys_of ms)
unfolding list_rows
list_rows-Holds username cols before after ms hb ha h =
    list_rows-Others username before ((username, cols) ∷ after) hb
    ∙ (λ i.
        if eqb_refl username i
        then elim (list_columns-Holds username cols ms h i) [
          | none ↦ none
          | some here ↦ elim (list_rows-none username after ha i) [
            | none ↦ none
            | some keys ↦ some (here ++ keys)
          ]
        ]
        else list_rows (list_params username) after)
    ∙ (λ i. some (append-nil (keys_of ms) i))

listed : List Stored → Bytes
unfolding keys_of
listed ms =
    if ltb 0 (length (keys_of ms))
    then keys_of ms ++ codes "\r\n"
    else codes "-ERR Nothing Found\r\n"

keys_of-listing : (ms : List Stored) → keys_of ms ++ codes "\r\n" ≡ listing ms
unfolding keys_of
keys_of-listing [] = refl
keys_of-listing (m ∷ ms) =
    append_assoc (key_of m) (b'\n' ∷ keys_of ms) (codes "\r\n")
    ∙ ap (λ t. key_of m ++ b'\n' ∷ t) (keys_of-listing ms)

ltb-suc : (n : ℕ) → ltb 0 (suc n) ≡ true
ltb-suc n = ground arith

extract_emails-listed :
    (username : Bytes) (ms : List Stored)
    → All IsListed ms
    → extract_emails username (listed ms) ≡ some (entries_of username ms)
unfolding listed keys_of
extract_emails-listed username [] h =
    unfold extract_emails in (unfold getlines in (unfold emails_in in (unfold starts_with in refl)))
extract_emails-listed username (m ∷ ms) h =
    (λ i. extract_emails username (
      if ltb-suc (length (codes "emails/" ++ (m.from ++ b'/' ∷ m.time) ++ b'\n' ∷ keys_of ms)) i
      then keys_of (m ∷ ms) ++ codes "\r\n"
      else codes "-ERR Nothing Found\r\n"))
    ∙ ap (extract_emails username) (keys_of-listing (m ∷ ms))
    ∙ extract_emails-listing username (m ∷ ms) h

module _ {W : Type 0} (net : Net W) where
  -- The reply of a server to LIST for "/emails" of a user, who has one row, and in it the columns of
  -- some mails and no other column that starts with "/emails": the mailbox that is read from the
  -- reply shows these mails, each once and in their order, with its sender, its time and its place in
  -- the store, and it is empty if there are none. No sender has a slash, no time has a comma, and no
  -- column of a mail has a newline.
  pub extract_emails-handle_command :
      (username : Bytes) (cols : Columns) (before after : Table) (ms : List Stored)
      (origin : Origin) (c : Context W)
      → c.server.table ≡ before ++ (username, cols) ∷ after
      → Others username before
      → Others username after
      → Holds cols ms
      → All IsListed ms
      → (c' : Context W) × (handle_command net (list_params username) origin c ≡ some c')
        × (c'.server ≡ c.server)
        × (extract_emails username c'.msg ≡ some (entries_of username ms))
  unfolding handle_command handle_list say listed eqb
  extract_emails-handle_command username cols before after ms origin c e hb ha h hs = (
    record c { msg = listed ms },
    (λ i. elim (list_rows (list_params username) (e i)) [
      | none ↦ none
      | some keys ↦ some (
          say (if ltb 0 (length keys) then keys ++ codes "\r\n" else codes "-ERR Nothing Found\r\n")
            c)
    ])
        ∙ (λ i. elim (list_rows-Holds username cols before after ms hb ha h i) [
          | none ↦ none
          | some keys ↦ some (
              say
                (if ltb 0 (length keys)
                  then keys ++ codes "\r\n"
                  else codes "-ERR Nothing Found\r\n")
                c)
        ]),
    refl,
    extract_emails-listed username ms hs,
  )
