-- ===== src/Smtp/Queue/RoundTrip.antt =====
-- The mails that are written to the queue are the mails that are read from it.
use distributed_cloud_storag.Prelude.{
  ◌≡◌, refl, sym, ap, ◌∙◌, true, List, [], ◌∷◌, ◌++◌, append-nil, append_assoc, if◌then◌else◌, All,
}
use distributed_cloud_storag.Prelude.Dict.{Bytes}
use distributed_cloud_storag.Text.{codes}
use distributed_cloud_storag.Text.Getline.{getlines, getlines-append}
use distributed_cloud_storag.Smtp.Queue.{
  EmailInfo, Reader, email_of, read_lines, last_email, no_emails, build_email_info,
}
use distributed_cloud_storag.Smtp.Queue.Headers.{
  Queued, joined_lines, header, mail_text, queue_of, info_of, infos_of, IsPlain, IsQueued,
  read_lines-Fits, take_line-from, take_line-to, take_line-plain,
}

-- Lines of a mail are added to its content.
read_lines-content :
    (ls rest : List Bytes) (r : Reader)
    → All IsPlain ls
    → r.in_email ≡ true
    → read_lines (ls ++ rest) r
      ≡ read_lines rest (record r { content = r.content ++ joined_lines ls })
read_lines-content [] rest r h e =
    λ i. read_lines rest (record r { content = sym (append-nil r.content) i })
read_lines-content (l ∷ ls) rest r (h, hs) e =
    read_lines-Fits l (ls ++ rest) r h.0
    ∙ (λ i. read_lines (ls ++ rest) (take_line-plain l r h e i))
    ∙ read_lines-content ls rest (record r { content = r.content ++ (l ++ b'\n' ∷ []) }) hs e
    ∙ (λ i. read_lines rest (record r { content = shape l (joined_lines ls) i }))
  where
    shape : (l t : Bytes) → (r.content ++ (l ++ b'\n' ∷ [])) ++ t ≡ r.content ++ (l ++ b'\n' ∷ t)
    shape l t = simp append_assoc

getlines-joined :
    (ls : List Bytes) (rest : Bytes)
    → All IsPlain ls
    → getlines b'\n' (joined_lines ls ++ rest) ≡ ls ++ getlines b'\n' rest
getlines-joined [] rest h = refl
getlines-joined (l ∷ ls) rest (h, hs) =
    ap (getlines b'\n') (append_assoc l (b'\n' ∷ joined_lines ls) rest)
    ∙ getlines-append b'\n' l (joined_lines ls ++ rest) h.0.0
    ∙ ap (λ t. l ∷ t) (getlines-joined ls rest hs)

-- A mail read when it stands in front of the text.
reading : List EmailInfo → Queued → Reader
reading emails q = record {
  emails = emails;
  content = joined_lines q.content;
  in_email = true;
  sender_email = q.from;
  recipient = q.to;
}

module _ (end : Bytes) where
  getlines-mail :
      (q : Queued) (rest : Bytes)
      → IsQueued end q
      → getlines b'\n' (mail_text end q ++ rest)
        ≡ header (codes "From <") q.from end
          ∷ header (codes "To <") q.to end
          ∷ (q.content ++ getlines b'\n' rest)
  getlines-mail q rest h =
      let from_line = header (codes "From <") q.from end in
      let to_line = header (codes "To <") q.to end in
      let body = joined_lines q.content in
      ap (getlines b'\n') (
        append_assoc from_line (b'\n' ∷ (to_line ++ b'\n' ∷ body)) rest
        ∙ ap (λ t. from_line ++ b'\n' ∷ t) (append_assoc to_line (b'\n' ∷ body) rest))
      ∙ getlines-append b'\n' from_line (to_line ++ b'\n' ∷ (body ++ rest)) h.from_fits.0
      ∙ ap (λ t. from_line ∷ t)
          (getlines-append b'\n' to_line (body ++ rest) h.to_fits.0
            ∙ ap (λ t. to_line ∷ t) (getlines-joined q.content rest h.lines))

  read_lines-mail :
      (q : Queued) (rest : List Bytes) (r : Reader)
      → IsQueued end q
      → (if r.in_email then [] else r.content) ≡ []
      → read_lines
          (header (codes "From <") q.from end
            ∷ header (codes "To <") q.to end
            ∷ (q.content ++ rest))
          r
        ≡ read_lines rest (reading (last_email r) q)
  unfolding reading
  read_lines-mail q rest r h e =
      let from_line = header (codes "From <") q.from end in
      let to_line = header (codes "To <") q.to end in
      let begun : Reader = record {
        emails = last_email r;
        content = [];
        in_email = true;
        sender_email = q.from;
        recipient = r.recipient;
      } in
      read_lines-Fits from_line (to_line ∷ (q.content ++ rest)) r h.from_fits
      ∙ (λ i.
          read_lines (to_line ∷ (q.content ++ rest)) (take_line-from q.from end r h.from_closed i))
      ∙ (λ i. read_lines (to_line ∷ (q.content ++ rest)) (record begun { content = e i }))
      ∙ read_lines-Fits to_line (q.content ++ rest) begun h.to_fits
      ∙ (λ i. read_lines (q.content ++ rest) (take_line-to q.to end begun h.to_closed h.to_other i))
      ∙ read_lines-content q.content rest (record begun { recipient = q.to }) h.lines refl

  read_queue :
      (qs : List Queued) (r : Reader)
      → All (IsQueued end) qs
      → (if r.in_email then [] else r.content) ≡ []
      → last_email (read_lines (getlines b'\n' (queue_of end qs)) r) ≡ last_email r ++ infos_of qs
  read_queue [] r h e = unfold read_lines in (unfold getlines in (sym (append-nil (last_email r))))
  read_queue (q ∷ qs) r (h, hs) e =
      (λ i. last_email (read_lines (getlines-mail q (queue_of end qs) h i) r))
      ∙ ap last_email (read_lines-mail q (getlines b'\n' (queue_of end qs)) r h e)
      ∙ read_queue qs (reading (last_email r) q) hs (unfold reading in refl)
      ∙ last_reading (last_email r)
    where
      last_reading :
          (l : List EmailInfo)
          → last_email (reading l q) ++ infos_of qs ≡ l ++ (info_of q ∷ infos_of qs)
      last_reading l =
          unfold reading in
          (unfold last_email in
            (unfold email_of in (append_assoc l (info_of q ∷ []) (infos_of qs))))

  -- Mails whose content is lines are read from the queue as they were added to it, in their order,
  -- if each line with its header and its end fits in the array and has neither newline nor NUL, no
  -- address has a ">", no recipient's line has "From <" in it, and no line of a content has "From <"
  -- or "To <" in it.
  pub build_email_info-queue_of :
      (qs : List Queued) → All (IsQueued end) qs → build_email_info (queue_of end qs) ≡ infos_of qs
  unfolding build_email_info last_email
  build_email_info-queue_of qs h = read_queue qs no_emails h refl
