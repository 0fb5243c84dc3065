-- ===== src/Frontend/Http/Account.antt =====
-- Requests about accounts and mails: `authenticate` of frontend/loginHelper.cc, and the branches
-- MENU, SIGNUP, NEWPASS, SENDEMAIL and FORWARD of frontend/frontendserver.cc.
use distributed_cloud_storag.Prelude.{Bool, true, false, [], ◌∷◌, ◌++◌, Option, none, some}
use distributed_cloud_storag.Prelude.Dict.{Bytes, Dict, eqb, lookup_or}
use distributed_cloud_storag.Text.{codes}
use distributed_cloud_storag.Frontend.Url.{url_encode, parse_query}
use distributed_cloud_storag.Frontend.Login.{parse_login_data, extract_password}
use distributed_cloud_storag.Frontend.Mail.{mail_message, extract_subject_and_message}
use distributed_cloud_storag.Frontend.Http.State.{redirect, Worker, Site, Result, without_ok}

-- msg_map[key]
unfoldable pub field : Bytes → Dict Bytes → Bytes
field key m = lookup_or key [] m

module _ {W : Type 0} (site : Site W) where
  -- No password is stored, or the one that was entered is the stored one.
  unfoldable pub matches : Bytes → Bytes → Bool
  matches password [] = false
  matches password (c ∷ stored) = eqb password (c ∷ stored)

  unfoldable pub is_right : Bytes → Option Bytes → Option Bool
  unfolding matches
  is_right password none = none
  is_right password (some encoded) = some (matches password (site.decode encoded))

  unfoldable pub password_query : Bytes → Bytes
  password_query username = codes "GET " ++ (username ++ codes ",password\r\n")

  unfoldable pub authenticate : Bytes → Bytes → W → Option Bool × W
  unfolding is_right password_query
  authenticate username password w =
      let (response, w') = site.ask (password_query username) w in
      (is_right password (extract_password response), w')

  unfoldable pub after_login : Bytes → Worker → Option Bool × W → Result W
  after_login username c (none, w) = none
  after_login username c (some true, w) =
      some (record c { username = username; logged_in = true }, w)
  after_login username c (some false, w) =
      some (record c { username = []; reply_code = redirect }, w)

  -- MENU
  unfoldable pub log_in : Bytes → Worker → W → Result W
  unfolding authenticate after_login
  log_in content c w =
      let (username, password) = parse_login_data content in
      after_login username c (authenticate username password (site.connect username w))

  unfoldable pub signup_command : Bytes → Bytes → Bytes
  signup_command username password =
      codes "PUT " ++ (username ++ (codes ",password," ++ (site.encode password ++ codes "\r\n")))

  -- SIGNUP
  unfoldable pub sign_up : Bytes → Worker → W → Result W
  unfolding signup_command
  sign_up content c w =
      let (username, password) = parse_login_data content in
      let (response, w') = site.ask (signup_command username password) (site.connect username w) in
      some (record c { username = []; reply_code = redirect }, w')

  unfoldable newpass_command : Bytes → Bytes → Bytes → Bytes
  newpass_command username old new =
      codes "CPUT "
      ++ (username
          ++ (codes ",password,"
              ++ (site.encode (url_encode old)
                  ++ (codes "," ++ (site.encode (url_encode new) ++ codes "\r\n")))))

  -- NEWPASS; the name of the user is that of the form, and the thread's own stays.
  unfoldable pub change_password : Bytes → Worker → W → Result W
  unfolding newpass_command field
  change_password content c w =
      let m = parse_query content in
      let username = field (codes "username") m in
      let (response, w') =
        site.ask (newpass_command username (field (codes "oldpass") m) (field (codes "newpass") m))
          (site.connect username w) in
      some (c, w')

  -- SENDEMAIL
  unfoldable pub send_mail : Bytes → Worker → W → Result W
  unfolding field
  send_mail content c w =
      let m = parse_query content in
      some (
        c,
        site.mail
            (mail_message c.username (field (codes "to") m) (field (codes "subject") m)
              (field (codes "message") m))
            w,
      )

  unfoldable pub forward_mail : Bytes → Worker → W → Option (Bytes × Bytes) → Result W
  forward_mail to c w none = none
  forward_mail to c w (some (subject, message)) =
      some (c, site.mail (mail_message c.username to subject (codes "Fwd message \n" ++ message)) w)

  unfoldable pub forward_reply : Bytes → Worker → W → Option Bytes → Result W
  unfolding forward_mail
  forward_reply to c w none = none
  forward_reply to c w (some text) =
      forward_mail to c w (extract_subject_and_message (site.decode text))

  unfoldable pub forward_query : Bytes → Bytes
  forward_query id = codes "GET " ++ (site.decode id ++ codes "\r\n")

  -- FORWARD; the mail is the one that the form names.
  unfoldable pub forward_email : Bytes → Worker → W → Result W
  unfolding field forward_reply forward_query
  forward_email content c w =
      let m = parse_query content in
      let (response, w') = site.ask (forward_query (field (codes "email_id") m)) w in
      forward_reply (field (codes "to") m) c w' (without_ok response)
