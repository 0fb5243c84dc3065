-- ===== src/Tests/Queues.antt =====
-- Mails in the queue, and mails of the frontend.
use distributed_cloud_storag.Prelude.{
  ◌≡◌, refl, true, false, Bool, last_or, List, [], ◌∷◌, ◌++◌, some, arith, All,
}
use distributed_cloud_storag.Prelude.Dict.{Bytes}
use distributed_cloud_storag.Text.{codes}
use distributed_cloud_storag.Text.Find.{find, find_byte, behind, starts_with}
use distributed_cloud_storag.Smtp.Delivery.Mails.{queue_text}
use distributed_cloud_storag.Smtp.Connection.{handle_connection}
use distributed_cloud_storag.Smtp.Connection.Mail.{InPieces}
use distributed_cloud_storag.Smtp.Line.{idle}
use distributed_cloud_storag.Smtp.Exchange.{mail_sent}
use distributed_cloud_storag.Smtp.Queue.{is_found, contains, build_email_info, unsent_text}
use distributed_cloud_storag.Smtp.Queue.Headers.{Queued, joined_lines, infos_of, IsPlain, IsQueued}
use distributed_cloud_storag.Smtp.Queue.Refill.{
  for_each, marked, unsent, build_email_info-queue_text, build_email_info-unsent_text,
}
use distributed_cloud_storag.Frontend.Mail.{mail_message, domain_of, message_data}
use distributed_cloud_storag.Frontend.Mail.Sent.{mail_body, arriving, mail_message-sent}
use distributed_cloud_storag.Tests.Mails.{world, answer, server, answer_read}

abbrev hi : List Bytes
hi = codes "Hi\r" ∷ []

hi-IsPlain : All IsPlain hi
unfolding contains is_found find starts_with
hi-IsPlain = ((omega arith, refl, refl), tt)

for_each-IsQueued : All (IsQueued []) (for_each (codes "bob@x") hi (codes "eve@y" ∷ []))
unfolding contains is_found find starts_with
for_each-IsQueued = (
  record {
    from_fits = omega arith;
    to_fits = omega arith;
    from_closed = omega arith;
    to_closed = omega arith;
    to_other = refl;
    lines = ((omega arith, refl, refl), tt);
  },
  tt,
)

build_email_info-queue_text_example :
    build_email_info (queue_text (codes "bob@x") (joined_lines hi) (codes "eve@y" ∷ []))
    ≡ infos_of (for_each (codes "bob@x") hi (codes "eve@y" ∷ []))
build_email_info-queue_text_example =
    build_email_info-queue_text (codes "bob@x") hi (codes "eve@y" ∷ []) hi-IsPlain for_each-IsQueued

abbrev mail : Bytes → Queued
mail to = record { from = codes "bob@x"; to = to; content = hi }

abbrev run : List (Queued × Bool)
run = (mail (codes "eve@y"), true) ∷ (mail (codes "tom@z"), false) ∷ []

unsent-IsQueued : All (IsQueued (codes "\r")) (unsent run)
unfolding contains is_found find starts_with
unsent-IsQueued = (
  record {
    from_fits = omega arith;
    to_fits = omega arith;
    from_closed = omega arith;
    to_closed = omega arith;
    to_other = refl;
    lines = ((omega arith, refl, refl), tt);
  },
  tt,
)

build_email_info-unsent_text_example :
    build_email_info (unsent_text (marked run)) ≡ infos_of (mail (codes "tom@z") ∷ [])
build_email_info-unsent_text_example = build_email_info-unsent_text run unsent-IsQueued

abbrev body : Bytes
body = mail_body (codes "bob@localhost") (codes "ann@localhost") (codes "Lunch") (codes "At noon?")

one_piece :
    InPieces
      (last_or
        (mail_message (codes "bob") (codes "ann@localhost") (codes "Lunch") (codes "At noon?"))
        [])
      []
      ((body ++ codes "\r\n.\r\n") ∷ [])
unfolding mail_message domain_of find_byte behind message_data
one_piece = ((λ e. cc), refl)

mail_message-sent_example :
    handle_connection world (
      arriving
        (mail_message (codes "bob") (codes "ann@localhost") (codes "Lunch") (codes "At noon?"))
        ((body ++ codes "\r\n.\r\n") ∷ []))
    ≡ some (idle (mail_sent world (codes "bob@localhost") (codes "ann") body server))
mail_message-sent_example =
    mail_message-sent world (codes "bob") (codes "ann") (codes "Lunch") (codes "At noon?") answer
      ((body ++ codes "\r\n.\r\n") ∷ []) server (omega arith) (omega arith) (omega arith)
      (omega arith) (omega arith) (λ e. cc) (omega arith) (omega arith) one_piece refl answer_read
      refl
