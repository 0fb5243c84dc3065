-- ===== src/Frontend/Http/Worker/Pages.antt =====
-- Pages pass the guard, whatever a client sends.
use distributed_cloud_storag.Prelude.{
  ℕ, ◌≡◌, refl, sym, ap, ◌∙◌, Bool, true, false, ◌||◌, [], ◌∷◌, Option, none, some, arith,
  if◌then◌else◌, take, All-append, &&-eq-true,
}
use distributed_cloud_storag.Prelude.Dict.{Bytes, eqb}
use distributed_cloud_storag.Frontend.Http.State.{
  ReplyCode, redirect, login, menu, mailbox, drive, email, send_email, forward, download, rename,
  move, remove, new_dir, upload, signup, new_pass, not_found, forbidden, page, Worker, Site, Result,
}
use distributed_cloud_storag.Frontend.Http.Files.{file_sent, download_file}
use distributed_cloud_storag.Frontend.Http.Actions.{
  is_open, is_redirect, is_known, guarded, send_page, reply_in, reply_guarded, after_act, finished,
  handle_body,
}
use distributed_cloud_storag.Frontend.Http.Worker.Guard.{
  public_code, Fair, FairResult, same, joined_result,
}
use distributed_cloud_storag.Frontend.Http.Worker.Acts.{act-Fair}

-- The page that may be sent.
abbrev Allowed : Worker → Type 0
Allowed c = c.logged_in ≡ false → public_code c.reply_code ≡ true

is_known-logged_in : (c : Worker) → is_known c ≡ true → c.logged_in ≡ true
unfolding is_known
is_known-logged_in c h = (&&-eq-true c.logged_in (eqb c.sid c.tmp_sid) h).0

pub guarded-Allowed :
    (free : Bool) (c : Worker)
    → (free ≡ true → public_code c.reply_code ≡ true)
    → Allowed (guarded free c)
unfolding guarded
guarded-Allowed true c h = λ e. h refl
guarded-Allowed false c h =
    elim (is_known c)
        as (λ b. is_known c ≡ b → Allowed (if b then c else record c { reply_code = forbidden })) [
          | true ↦ λ k e. let l = is_known-logged_in c k in cc
          | false ↦ λ k e. refl
        ]
      refl

pub guarded-Fair : (free : Bool) (c : Worker) → Fair c (guarded free c)
unfolding guarded
guarded-Fair free c =
    elim (free || is_known c)
      as (λ b. Fair c (if b then c else record c { reply_code = forbidden })) [
        | true ↦ same c
        | false ↦ record { before = λ e. e; kept = λ e h. h }
      ]

free-public : (a : ReplyCode) → (is_open a || is_redirect a) ≡ true → public_code a ≡ true
unfolding is_open is_redirect
free-public a h = ground arith

pub open-public : (a : ReplyCode) → is_open a ≡ true → public_code a ≡ true
unfolding is_open
open-public a h = ground arith

pub send_page-Fair : (c : Worker) → Allowed c → Fair c (send_page c)
unfolding send_page
send_page-Fair c a = record {
  before = λ e. e;
  kept = λ e h. All-append _ c.sent (page c.reply_code c.username c.item ∷ []) h (a e, tt);
}

module _ {W : Type 0} (site : Site W) where
  download-Fair :
      (name : Bytes) (c : Worker) (w : W) (o : Option Bytes)
      → (c.logged_in ≡ false → false ≡ true)
      → FairResult c (file_sent site name c w o)
  unfolding file_sent
  download-Fair name c w none a = tt
  download-Fair name c w (some text) a = record { before = λ e. e; kept = λ e h. let f = a e in cc }

  reply_in-Fair :
      (a : ReplyCode) (body : Bytes) (c : Worker) (w : W)
      → c.reply_code ≡ a
      → Allowed c
      → FairResult c (reply_in site a body c w)
  unfolding reply_in download_file
  reply_in-Fair download body c w e h = download-Fair _ c _ _ (λ l. sym (ap public_code e) ∙ h l)
  reply_in-Fair redirect body c w e h = send_page-Fair c h
  reply_in-Fair login body c w e h = send_page-Fair c h
  reply_in-Fair menu body c w e h = send_page-Fair c h
  reply_in-Fair mailbox body c w e h = send_page-Fair c h
  reply_in-Fair drive body c w e h = send_page-Fair c h
  reply_in-Fair email body c w e h = send_page-Fair c h
  reply_in-Fair send_email body c w e h = send_page-Fair c h
  reply_in-Fair forward body c w e h = send_page-Fair c h
  reply_in-Fair rename body c w e h = send_page-Fair c h
  reply_in-Fair move body c w e h = send_page-Fair c h
  reply_in-Fair remove body c w e h = send_page-Fair c h
  reply_in-Fair new_dir body c w e h = send_page-Fair c h
  reply_in-Fair upload body c w e h = send_page-Fair c h
  reply_in-Fair signup body c w e h = send_page-Fair c h
  reply_in-Fair new_pass body c w e h = send_page-Fair c h
  reply_in-Fair not_found body c w e h = send_page-Fair c h
  reply_in-Fair forbidden body c w e h = send_page-Fair c h

  reply_guarded-Fair :
      (body : Bytes) (c : Worker) (w : W) → FairResult c (reply_guarded site body c w)
  unfolding reply_guarded
  reply_guarded-Fair body c w =
      let free = is_open c.reply_code || is_redirect c.reply_code in
      let g = guarded free c in
      joined_result c g (reply_in site g.reply_code body g w) (guarded-Fair free c) (
        reply_in-Fair g.reply_code body g w refl
          (guarded-Allowed free c (free-public c.reply_code)))

  after_act-Fair :
      (body : Bytes) (c : Worker) (r : Result W)
      → FairResult c r
      → FairResult c (after_act site body r)
  unfolding after_act
  after_act-Fair body c none h = tt
  after_act-Fair body c (some (d, w)) h =
      joined_result c d (reply_guarded site body d w) h (reply_guarded-Fair body d w)

  finished-Fair :
      (n : ℕ) (c : Worker) (r : Result W) → FairResult c r → FairResult c (finished site n r)
  unfolding finished
  finished-Fair n c none h = tt
  finished-Fair n c (some (d, w)) h = record { before = h.before; kept = h.kept }

  pub handle_body-Fair : (n : ℕ) (c : Worker) (w : W) → FairResult c (handle_body site n c w)
  unfolding handle_body
  handle_body-Fair n c w =
      finished-Fair n c _
        (after_act-Fair (take n c.buffer) c _ (act-Fair site c.reply_code (take n c.buffer) c w))
