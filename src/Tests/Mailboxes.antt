-- ===== src/Tests/Mailboxes.antt =====
-- A server with a user who has two mails.
use distributed_cloud_storag.Prelude.{◌≡◌, refl, true, inl, inr, List, [], ◌∷◌, some, arith, All}
use distributed_cloud_storag.Prelude.Dict.{eqb}
use distributed_cloud_storag.Text.{codes}
use distributed_cloud_storag.Text.Find.{find, starts_with}
use distributed_cloud_storag.Kvstore.Table.{Columns}
use distributed_cloud_storag.Kvstore.Server.{Context}
use distributed_cloud_storag.Kvstore.Forward.{Net, refused}
use distributed_cloud_storag.Kvstore.Handle.{from_frontend, handle_command}
use distributed_cloud_storag.Frontend.Mailbox.{extract_emails}
use distributed_cloud_storag.Frontend.Mailbox.Listed.{Stored, entries_of, IsListed}
use distributed_cloud_storag.Frontend.Mailbox.Store.{
  list_params, Holds, extract_emails-handle_command,
}
use distributed_cloud_storag.Tests.Sample.{server_at, context_of}

abbrev alone : Net (Unit {0})
alone info command world = (refused, world)

abbrev mails : List Stored
mails =
    record { from = codes "bob@x"; time = codes "TW9u" }
    ∷ record { from = codes "eve@y"; time = codes "VHVl" }
    ∷ []

mails-IsListed : All IsListed mails
mails-IsListed = (
  record { from_lacks = omega arith; time_lacks = omega arith; one_line = omega arith },
  (record { from_lacks = omega arith; time_lacks = omega arith; one_line = omega arith }, tt),
)

abbrev columns : Columns
columns =
    (codes "/emails/bob@x/TW9u", codes "SGk=")
    ∷ (codes "password", codes "c2VjcmV0")
    ∷ (codes "/emails/eve@y/VHVl", codes "SGV5")
    ∷ []

columns-Holds : Holds columns mails
unfolding find starts_with
columns-Holds = inl (_, _, refl, refl, inr ((λ e. cc), inl (_, _, refl, refl, refl)))

abbrev store : Context (Unit {0})
store =
    context_of
      (record (server_at 8000 true) { table = (codes "ann", columns) ∷ (codes "eve", []) ∷ [] }) tt

extract_emails-handle_command_example :
    (c' : Context (Unit {0})) × (handle_command alone
        (list_params (codes "ann"))
        from_frontend
        store
      ≡ some c')
    × (c'.server ≡ store.server)
    × (extract_emails (codes "ann") c'.msg ≡ some (entries_of (codes "ann") mails))
unfolding eqb
extract_emails-handle_command_example =
    extract_emails-handle_command alone (codes "ann") columns [] ((codes "eve", []) ∷ []) mails
      from_frontend store refl tt (refl, tt) columns-Holds mails-IsListed
