-- ===== src/Smtp/Queue/Refill.antt =====
-- The two writers of the queue: the SMTP server, and smtpec where a mail was not sent.
use distributed_cloud_storag.Prelude.{
  ◌≡◌, refl, sym, ap, ◌∙◌, Bool, true, false, List, [], ◌∷◌, ◌++◌, append_assoc, arith,
  if◌then◌else◌, All, All-append,
}
use distributed_cloud_storag.Prelude.Dict.{Bytes}
use distributed_cloud_storag.Text.{codes}
use distributed_cloud_storag.Text.Find.{Lacks}
use distributed_cloud_storag.Text.Cstring.{c_string-Lacks}
use distributed_cloud_storag.Smtp.Delivery.{queued}
use distributed_cloud_storag.Smtp.Delivery.Mails.{queue_text}
use distributed_cloud_storag.Smtp.Queue.{EmailInfo, build_email_info, unsent_text}
use distributed_cloud_storag.Smtp.Queue.Headers.{
  Queued, joined_lines, header, mail_text, queue_of, info_of, infos_of, IsPlain, IsQueued,
}
use distributed_cloud_storag.Smtp.Queue.RoundTrip.{build_email_info-queue_of}

joined_lines-Lacks : (ls : List Bytes) → All IsPlain ls → Lacks 0 (joined_lines ls)
joined_lines-Lacks [] h = tt
joined_lines-Lacks (l ∷ ls) (h, hs) =
    All-append _ l (b'\n' ∷ joined_lines ls) h.0.1 (omega arith, joined_lines-Lacks ls hs)

-- One mail for each recipient.
abbrev pub for_each : Bytes → List Bytes → List Bytes → List Queued
for_each from ls [] = []
for_each from ls (r ∷ rs) = record { from = from; to = r; content = ls } ∷ for_each from ls rs

queued-mail_text :
    (from to : Bytes) (ls : List Bytes)
    → All IsPlain ls
    → queued from to (joined_lines ls)
      ≡ mail_text [] (record { from = from; to = to; content = ls })
unfolding queued
queued-mail_text from to ls h =
    (λ i.
      codes "From <"
      ++ (from
          ++ (codes ">\nTo <"
              ++ (to
                  ++ (codes ">\n"
                      ++ c_string-Lacks (joined_lines ls) (joined_lines-Lacks ls h) i)))))
    ∙ sym (shape from (joined_lines ls))
  where
    shape :
        (f t : Bytes)
        → header (codes "From <") f [] ++ (b'\n' ∷ (header (codes "To <") to [] ++ b'\n' ∷ t))
          ≡ codes "From <" ++ (f ++ (codes ">\nTo <" ++ (to ++ (codes ">\n" ++ t))))
    shape f t = simp append_assoc

queue_text-queue_of :
    (from : Bytes) (ls rs : List Bytes)
    → All IsPlain ls
    → queue_text from (joined_lines ls) rs ≡ queue_of [] (for_each from ls rs)
queue_text-queue_of from ls [] h = refl
queue_text-queue_of from ls (r ∷ rs) h =
    λ i. queued-mail_text from r ls h i ++ queue_text-queue_of from ls rs h i

-- A mail of lines that the SMTP server adds to an empty queue for some recipients is read by smtpec
-- as one mail for each of them, with the sender, the recipient and the content that it had, if no
-- line is too long or has a newline or NUL in it, no address has a ">", no recipient has "From <"
-- in its line, and no line of the mail has "From <" or "To <" in it.
pub build_email_info-queue_text :
    (from : Bytes) (ls rs : List Bytes)
    → All IsPlain ls
    → All (IsQueued []) (for_each from ls rs)
    → build_email_info (queue_text from (joined_lines ls) rs) ≡ infos_of (for_each from ls rs)
build_email_info-queue_text from ls rs h q =
    ap build_email_info (queue_text-queue_of from ls rs h)
    ∙ build_email_info-queue_of [] (for_each from ls rs) q

-- The mails of a run, each with whether it was sent.
abbrev pub marked : List (Queued × Bool) → List EmailInfo
marked [] = []
marked ((q, b) ∷ qs) = record (info_of q) { sent = b } ∷ marked qs

abbrev pub unsent : List (Queued × Bool) → List Queued
unsent [] = []
unsent ((q, b) ∷ qs) = let rest = unsent qs in if b then rest else q ∷ rest

unsent_text-queue_of :
    (qs : List (Queued × Bool)) → unsent_text (marked qs) ≡ queue_of (codes "\r") (unsent qs)
unfolding unsent_text
unsent_text-queue_of [] = refl
unsent_text-queue_of ((q, true) ∷ qs) = unsent_text-queue_of qs
unsent_text-queue_of ((q, false) ∷ qs) =
    shape (joined_lines q.content) (unsent_text (marked qs))
    ∙ ap (λ t. mail_text (codes "\r") q ++ t) (unsent_text-queue_of qs)
  where
    shape :
        (c t : Bytes)
        → codes "From <"
            ++ (q.from
                ++ (codes ">\r\n" ++ (codes "To <" ++ (q.to ++ (codes ">\r\n" ++ (c ++ t))))))
          ≡ (header (codes "From <") q.from (codes "\r")
              ++ (b'\n' ∷ (header (codes "To <") q.to (codes "\r") ++ b'\n' ∷ c)))
            ++ t
    shape c t = simp append_assoc

-- What smtpec writes back holds exactly the mails that it could not send: the next run reads them
-- in their order with the same sender, recipient and content, under the same conditions on their
-- lines.
pub build_email_info-unsent_text :
    (qs : List (Queued × Bool))
    → All (IsQueued (codes "\r")) (unsent qs)
    → build_email_info (unsent_text (marked qs)) ≡ infos_of (unsent qs)
build_email_info-unsent_text qs h =
    ap build_email_info (unsent_text-queue_of qs)
    ∙ build_email_info-queue_of (codes "\r") (unsent qs) h
