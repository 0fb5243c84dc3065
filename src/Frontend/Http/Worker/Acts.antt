-- ===== src/Frontend/Http/Worker/Acts.antt =====
-- The actions on a request's body add no page, and only a right password logs in.
use distributed_cloud_storag.Prelude.{
  ℕ, Bool, true, false, not, ◌&&◌, List, [], ◌∷◌, Option, none, some, if◌then◌else◌,
}
use distributed_cloud_storag.Prelude.Dict.{Bytes, eqb}
use distributed_cloud_storag.Text.{codes}
use distributed_cloud_storag.Text.Cstring.{c_string}
use distributed_cloud_storag.Frontend.Http.State.{
  ReplyCode, redirect, login, menu, mailbox, drive, email, send_email, forward, download, rename,
  move, remove, new_dir, upload, signup, new_pass, not_found, forbidden, Worker, Site, Result,
}
use distributed_cloud_storag.Frontend.Http.Account.{
  after_login, log_in, sign_up, change_password, send_mail, forward_mail, forward_reply,
  forward_email,
}
use distributed_cloud_storag.Frontend.Http.Files.{
  delete_files, moved_to, move_file, rename_file, move_key, move_keys, move_folder, move_named,
  move_item, new_folder, upload_named, upload_file,
}
use distributed_cloud_storag.Frontend.Http.Actions.{act}
use distributed_cloud_storag.Frontend.Http.Worker.Guard.{FairResult, same, joined_result}

module _ {W : Type 0} (site : Site W) where
  after_login-Fair :
      (u : Bytes) (c : Worker) (o : Option Bool) (w : W)
      → FairResult c (after_login site u c (o, w))
  unfolding after_login
  after_login-Fair u c none w = tt
  after_login-Fair u c (some true) w = record { before = λ e. cc; kept = λ e. cc }
  after_login-Fair u c (some false) w = record { before = λ e. e; kept = λ e h. h }

  log_in-Fair : (text : Bytes) (c : Worker) (w : W) → FairResult c (log_in site text c w)
  unfolding log_in
  log_in-Fair text c w = after_login-Fair _ c _ _

  forward_mail-Fair :
      (to : Bytes) (c : Worker) (w : W) (o : Option (Bytes × Bytes))
      → FairResult c (forward_mail site to c w o)
  unfolding forward_mail
  forward_mail-Fair to c w none = tt
  forward_mail-Fair to c w (some m) = same c

  forward_reply-Fair :
      (to : Bytes) (c : Worker) (w : W) (o : Option Bytes)
      → FairResult c (forward_reply site to c w o)
  unfolding forward_reply
  forward_reply-Fair to c w none = tt
  forward_reply-Fair to c w (some text) = forward_mail-Fair to c w _

  moved_to-Fair :
      (new_path deletion u : Bytes) (c : Worker) (o : Option Bytes) (w : W)
      → FairResult c (moved_to site new_path deletion u c o w)
  unfolding moved_to
  moved_to-Fair new_path deletion u c none w = tt
  moved_to-Fair new_path deletion u c (some value) w = same c

  move_file-Fair :
      (path new_path : Bytes) (c : Worker) (w : W) → FairResult c (move_file site path new_path c w)
  unfolding move_file
  move_file-Fair path new_path c w = moved_to-Fair new_path _ _ c _ _

  abbrev then_keys : Bytes → List Bytes → Result W → Result W
  then_keys new_path keys none = none
  then_keys new_path keys (some (c, w)) = move_keys site new_path keys c w

  if_key :
      (b : Bool) (c : Worker) (r : Result W) (w : W)
      → FairResult c r
      → FairResult c (if b then r else some (c, w))
  if_key true c r w h = h
  if_key false c r w h = same c

  move_keys-Fair :
      (new_path : Bytes) (keys : List Bytes) (c : Worker) (w : W)
      → FairResult c (move_keys site new_path keys c w)
  unfolding move_keys
  move_keys-Fair new_path [] c w = same c
  move_keys-Fair new_path (key ∷ keys) c w =
      let test = not (eqb key (codes "\r\n")) && not (eqb key (codes "\n")) in
      elim (if test then move_key site new_path key c w else some (c, w))
          as (λ r. FairResult c r → FairResult c (then_keys new_path keys r)) [
            | none ↦ λ h. tt
            | some (d, v) ↦ λ h.
                joined_result c d (move_keys site new_path keys d v) h
                  (move_keys-Fair new_path keys d v)
          ]
        (if_key test c (move_key site new_path key c w) w
          (unfold move_key in (moved_to-Fair new_path _ _ c _ _)))

  move_folder-Fair :
      (path new_path : Bytes) (c : Worker) (w : W)
      → FairResult c (move_folder site path new_path c w)
  unfolding move_folder
  move_folder-Fair path new_path c w = move_keys-Fair new_path _ c _

  move_named-Fair :
      (name new_path : Bytes) (c : Worker) (w : W) (o : Option ℕ)
      → FairResult c (move_named site name new_path c w o)
  unfolding move_named
  move_named-Fair name new_path c w none = move_folder-Fair _ _ c w
  move_named-Fair name new_path c w (some dot) = move_file-Fair _ _ c w

  upload_named-Fair :
      (c : Worker) (w : W) (o : Option (Bytes × Bytes)) → FairResult c (upload_named site c w o)
  unfolding upload_named
  upload_named-Fair c w none = tt
  upload_named-Fair c w (some (text, name)) = record { before = λ e. e; kept = λ e h. h }

  -- Each action.
  pub act-Fair :
      (a : ReplyCode) (body : Bytes) (c : Worker) (w : W) → FairResult c (act site a body c w)
  unfolding act sign_up change_password send_mail forward_email delete_files rename_file move_item
      new_folder upload_file
  act-Fair redirect body c w = same c
  act-Fair login body c w = same c
  act-Fair menu body c w = log_in-Fair (c_string body) c w
  act-Fair mailbox body c w = same c
  act-Fair drive body c w = same c
  act-Fair email body c w = same c
  act-Fair send_email body c w = same c
  act-Fair forward body c w = forward_reply-Fair _ c _ _
  act-Fair download body c w = same c
  act-Fair rename body c w = move_file-Fair _ _ c w
  act-Fair move body c w = move_named-Fair _ _ c w _
  act-Fair remove body c w = same c
  act-Fair new_dir body c w = same c
  act-Fair upload body c w = upload_named-Fair c w _
  act-Fair signup body c w = record { before = λ e. e; kept = λ e h. h }
  act-Fair new_pass body c w = same c
  act-Fair not_found body c w = same c
  act-Fair forbidden body c w = same c
