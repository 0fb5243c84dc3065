-- ===== src/Frontend/Http/Worker/Unguarded.antt =====
-- The actions on a request's body are not guarded.
use distributed_cloud_storag.Prelude.{
  ℕ, ◌≡◌, refl, ◌∙◌, false, ◌&&◌, ◌||◌, [], ◌∷◌, ◌++◌, some, if◌then◌else◌, take, drop, arith,
}
use distributed_cloud_storag.Prelude.Dict.{Bytes, eqb}
use distributed_cloud_storag.Prelude.Int.{pos}
use distributed_cloud_storag.Text.{codes}
use distributed_cloud_storag.Text.Cstring.{c_string}
use distributed_cloud_storag.Frontend.Url.{parse_query}
use distributed_cloud_storag.Frontend.Mail.{mail_message, extract_subject_and_message}
use distributed_cloud_storag.Frontend.Http.State.{
  send_email, forward, new_dir, forbidden, page, Worker, Site, without_ok,
}
use distributed_cloud_storag.Frontend.Http.Account.{
  field, send_mail, forward_mail, forward_reply, forward_query, forward_email,
}
use distributed_cloud_storag.Frontend.Http.Files.{folder_path, new_folder}
use distributed_cloud_storag.Frontend.Http.Actions.{
  is_open, is_redirect, is_known, guarded, send_page, act, reply_in, reply_guarded, after_act,
  finished, handle_body,
}

guarded_stranger :
    (c : Worker) → c.logged_in ≡ false → guarded false c ≡ record c { reply_code = forbidden }
unfolding guarded is_known
guarded_stranger c l =
    λ i. if l i && eqb c.sid c.tmp_sid then c else record c { reply_code = forbidden }

-- The page of forbidden access is sent for a body of `n` bytes.
abbrev pub turned_away : ℕ → Worker → Worker
turned_away n c = record c {
  buffer = drop n c.buffer;
  read_body = false;
  content_len = pos 0;
  reply_code = forbidden;
  sent = c.sent ++ page forbidden c.username c.item ∷ [];
}

-- A field of the form in a body.
abbrev pub form : Bytes → ℕ → Worker → Bytes
form name n c = field name (parse_query (c_string (take n c.buffer)))

module _ {W : Type 0} (site : Site W) where
  after_act-stranger :
      (n : ℕ) (body : Bytes) (c : Worker) (w : W)
      → c.logged_in ≡ false
      → (is_open c.reply_code || is_redirect c.reply_code) ≡ false
      → finished site n (after_act site body (some (c, w))) ≡ some (turned_away n c, w)
  unfolding after_act reply_guarded reply_in send_page finished
  after_act-stranger n body c w l f =
      (λ i. finished site n (reply_in site (guarded (f i) c).reply_code body (guarded (f i) c) w))
      ∙ (λ i.
          finished site n
            (reply_in site (guarded_stranger c l i).reply_code body (guarded_stranger c l i) w))

  handle_body-new_dir :
      (n : ℕ) (c : Worker) (w : W)
      → c.logged_in ≡ false
      → handle_body site n (record c { reply_code = new_dir }) w
        ≡ some (
          turned_away n c,
          (site.ask
              (codes "PUT "
                ++ (c.username
                    ++ b','
                      ∷ (folder_path site c.item (form (codes "folderName") n c)
                          ++ codes ",dummyData\r\n")))
              w).1,
        )
  unfolding handle_body act new_folder is_open is_redirect
  handle_body-new_dir n c w l =
      after_act-stranger n (take n c.buffer) (record c { reply_code = new_dir }) _ l refl

  handle_body-send_email :
      (n : ℕ) (c : Worker) (w : W)
      → c.logged_in ≡ false
      → handle_body site n (record c { reply_code = send_email }) w
        ≡ some (
          turned_away n c,
          site.mail
              (mail_message c.username
                (form (codes "to") n c)
                (form (codes "subject") n c)
                (form (codes "message") n c))
              w,
        )
  unfolding handle_body act send_mail is_open is_redirect
  handle_body-send_email n c w l =
      after_act-stranger n (take n c.buffer) (record c { reply_code = send_email }) _ l refl

  with_ok : (value : Bytes) → without_ok (codes "+OK " ++ value) ≡ some value
  unfolding without_ok
  with_ok value = ground arith

  forward_email-found :
      (content value subject message : Bytes) (c : Worker) (w w' : W)
      → site.ask
          (codes "GET "
            ++ (site.decode (field (codes "email_id") (parse_query content)) ++ codes "\r\n"))
          w
        ≡ (codes "+OK " ++ value, w')
      → extract_subject_and_message (site.decode value) ≡ some (subject, message)
      → forward_email site content c w
        ≡ some (
          c,
          site.mail
              (mail_message c.username
                (field (codes "to") (parse_query content))
                subject
                (codes "Fwd message \n" ++ message))
              w',
        )
  unfolding forward_email forward_query forward_reply forward_mail
  forward_email-found content value subject message c w w' a x =
      let to = field (codes "to") (parse_query content) in
      (λ i. forward_reply site to c (a i).1 (without_ok (a i).0))
      ∙ (λ i. forward_reply site to c w' (with_ok value i))
      ∙ (λ i. forward_mail site to c w' (x i))

  -- On a connection on which nobody has logged in, the page of forbidden access is the answer to the
  -- body of a request, but the request is carried out. That for a new folder sends its PUT to the
  -- store. That for a mail sends the mail. That to forward a mail reads whatever place of the store
  -- the form names, and where a mail with a subject is found there, sends it to whom the form names.
  pub handle_body-stranger :
      (n : ℕ) (c : Worker) (value subject message : Bytes) (w w' : W)
      → c.logged_in ≡ false
      → site.ask (codes "GET " ++ (site.decode (form (codes "email_id") n c) ++ codes "\r\n")) w
        ≡ (codes "+OK " ++ value, w')
      → extract_subject_and_message (site.decode value) ≡ some (subject, message)
      → (handle_body site n (record c { reply_code = new_dir }) w
          ≡ some (
            turned_away n c,
            (site.ask
                (codes "PUT "
                  ++ (c.username
                      ++ b','
                        ∷ (folder_path site c.item (form (codes "folderName") n c)
                            ++ codes ",dummyData\r\n")))
                w).1,
          ))
        × (handle_body site n (record c { reply_code = send_email }) w
            ≡ some (
              turned_away n c,
              site.mail
                  (mail_message c.username
                    (form (codes "to") n c)
                    (form (codes "subject") n c)
                    (form (codes "message") n c))
                  w,
            ))
        × (handle_body site n (record c { reply_code = forward }) w
            ≡ some (
              turned_away n c,
              site.mail
                  (mail_message c.username
                    (form (codes "to") n c)
                    subject
                    (codes "Fwd message \n" ++ message))
                  w',
            ))
  unfolding handle_body act is_open is_redirect
  handle_body-stranger n c value subject message w w' l a x =
      let body = take n c.buffer in
      let d = record c { reply_code = forward } in
      (
        handle_body-new_dir n c w l,
        handle_body-send_email n c w l,
        (λ i. finished site n (
              after_act site body
                (forward_email-found (c_string body) value subject message d w w' a x i)))
            ∙ after_act-stranger n body d _ l refl,
      )
