-- ===== src/Frontend/Http/Actions.antt =====
-- What the thread of frontend/frontendserver.cc does with the body of a request, and the page that
-- it sends then.
use distributed_cloud_storag.Prelude.{
  ℕ, Bool, true, false, ◌&&◌, ◌||◌, [], ◌∷◌, ◌++◌, none, some, if◌then◌else◌, take, drop,
}
use distributed_cloud_storag.Prelude.Dict.{Bytes, eqb}
use distributed_cloud_storag.Prelude.Int.{pos}
use distributed_cloud_storag.Text.Cstring.{c_string}
use distributed_cloud_storag.Frontend.Http.State.{
  ReplyCode, redirect, login, menu, send_email, forward, download, rename, move, remove, new_dir,
  upload, signup, new_pass, forbidden, page, Worker, Site, Result,
}
use distributed_cloud_storag.Frontend.Http.Account.{
  log_in, sign_up, change_password, send_mail, forward_email,
}
use distributed_cloud_storag.Frontend.Http.Files.{
  delete_files, rename_file, move_item, new_folder, upload_file, download_file,
}

-- Pages that need no login. A request without a body may not be for REDIRECT.
unfoldable pub is_open : ReplyCode → Bool
is_open login = true
is_open signup = true
is_open new_pass = true
is_open _ = false

unfoldable pub is_redirect : ReplyCode → Bool
is_redirect redirect = true
is_redirect _ = false

-- Logged in, and with the cookie of the connection.
unfoldable pub is_known : Worker → Bool
is_known c = c.logged_in && eqb c.sid c.tmp_sid

-- The check before a page is sent.
unfoldable pub guarded : Bool → Worker → Worker
unfolding is_known
guarded free c = if free || is_known c then c else record c { reply_code = forbidden }

unfoldable pub send_page : Worker → Worker
send_page c = record c { sent = c.sent ++ page c.reply_code c.username c.item ∷ [] }

module _ {W : Type 0} (site : Site W) where
  unfoldable pub act : ReplyCode → Bytes → Worker → W → Result W
  unfolding log_in sign_up change_password send_mail forward_email delete_files rename_file
      move_item new_folder upload_file
  act menu body c w = log_in site (c_string body) c w
  act signup body c w = sign_up site (c_string body) c w
  act new_pass body c w = change_password site (c_string body) c w
  act send_email body c w = send_mail site (c_string body) c w
  act forward body c w = forward_email site (c_string body) c w
  act remove body c w = delete_files site (c_string body) c w
  act rename body c w = rename_file site (c_string body) c w
  act move body c w = move_item site (c_string body) c w
  act new_dir body c w = new_folder site (c_string body) c w
  act upload body c w = upload_file site body c w
  act _ body c w = some (c, w)

  -- A download sends the file in place of a page.
  unfoldable pub reply_in : ReplyCode → Bytes → Worker → W → Result W
  unfolding download_file send_page
  reply_in download body c w = download_file site (c_string body) c w
  reply_in _ body c w = some (send_page c, w)

  unfoldable pub reply_guarded : Bytes → Worker → W → Result W
  unfolding guarded reply_in is_open is_redirect
  reply_guarded body c w =
      let g = guarded (is_open c.reply_code || is_redirect c.reply_code) c in
      reply_in g.reply_code body g w

  unfoldable pub after_act : Bytes → Result W → Result W
  unfolding reply_guarded
  after_act body none = none
  after_act body (some (c, w)) = reply_guarded body c w

  -- The body is taken from the front of the buffer.
  unfoldable pub finished : ℕ → Result W → Result W
  finished n none = none
  finished n (some (c, w)) =
      some (record c { buffer = drop n c.buffer; read_body = false; content_len = pos 0 }, w)

  unfoldable pub handle_body : ℕ → Worker → W → Result W
  unfolding act after_act finished
  handle_body n c w =
      let body = take n c.buffer in finished n (after_act body (act c.reply_code body c w))
