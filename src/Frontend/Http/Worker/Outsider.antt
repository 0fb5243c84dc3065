-- ===== src/Frontend/Http/Worker/Outsider.antt =====
-- The requests of a connection on which nobody has logged in, line by line and read by read.
use distributed_cloud_storag.Prelude.{
  ℕ, zero, suc, ◌≡◌, refl, Bool, true, false, List, [], ◌∷◌, ◌++◌, Option, none, some, ltb,
  if◌then◌else◌, length, take, drop, All-append,
}
use distributed_cloud_storag.Prelude.Dict.{Bytes, eqb}
use distributed_cloud_storag.Prelude.Int.{ℤ, pos, negsuc, ltz}
use distributed_cloud_storag.Text.{codes}
use distributed_cloud_storag.Text.Find.{find, starts_with}
use distributed_cloud_storag.Text.Cstring.{c_string}
use distributed_cloud_storag.Text.Decimal.{atoi}
use distributed_cloud_storag.Frontend.Http.State.{not_implemented, Worker, Site, Result, fresh}
use distributed_cloud_storag.Frontend.Http.Actions.{is_open, guarded, send_page}
use distributed_cloud_storag.Frontend.Http.Request.{
  with_item, mail_page, get_page, headers_follow, get_request, post_request, url_of, request_line,
  with_length, length_header, headers_end, other_header, after_length, read_line,
}
use distributed_cloud_storag.Frontend.Http.Worker.{
  taken_off, line_at, read_lines, with_world, body_if_whole, receive, serve, thread_worker,
}
use distributed_cloud_storag.Frontend.Http.Worker.Guard.{
  AllPublic, Fair, FairSome, FairResult, same, joined, joined_some, joined_result,
}
use distributed_cloud_storag.Frontend.Http.Worker.Pages.{
  guarded-Allowed, guarded-Fair, open-public, send_page-Fair, handle_body-Fair,
}

in_if {ℓ κ} :
    {A : Type ℓ} (P : A → Type κ) (b : Bool) {x y : A} → P x → P y → P (if b then x else y)
in_if P true hx hy = hx
in_if P false hx hy = hy

module _ (c : Worker) where
  with_item-Fair : (o : Option Bytes) → FairSome c (with_item c o)
  unfolding with_item
  with_item-Fair none = tt
  with_item-Fair (some item) = record { before = λ e. e; kept = λ e h. h }

  mail_page-Fair :
      (url : Bytes) (rest : Option Bytes) (o : Option ℕ) → FairSome c (mail_page url rest c o)
  unfolding mail_page
  mail_page-Fair url rest none = record { before = λ e. e; kept = λ e h. h }
  mail_page-Fair url rest (some n) = with_item-Fair _

  get_page-Fair : (url : Bytes) (rest : Option Bytes) → FairSome c (get_page url rest c)
  unfolding get_page
  get_page-Fair url rest =
      in_if (FairSome c) (eqb url (codes "/")) (record { before = λ e. e; kept = λ e h. h })
        (in_if (FairSome c) (eqb url (codes "/mailbox"))
          (record { before = λ e. e; kept = λ e h. h })
          (in_if (FairSome c) (starts_with (codes "/drive") url)
            (record { before = λ e. e; kept = λ e h. h })
            (mail_page-Fair url rest (find (codes "/mailbox") url))))

  headers_follow-Fair : (o : Option Worker) → FairSome c o → FairSome c (headers_follow o)
  unfolding headers_follow
  headers_follow-Fair none h = tt
  headers_follow-Fair (some d) h = record { before = h.before; kept = h.kept }

  get_request-Fair : (o : Option (Bytes × Option Bytes)) → FairSome c (get_request c o)
  unfolding get_request
  get_request-Fair none = tt
  get_request-Fair (some (url, rest)) = headers_follow-Fair _ (get_page-Fair url rest)

  post_request-Fair : (o : Option (Bytes × Option Bytes)) → FairSome c (post_request c o)
  unfolding post_request
  post_request-Fair none = tt
  post_request-Fair (some (url, rest)) = record { before = λ e. e; kept = λ e h. h }

  request_line-Fair : (cmd : Bytes) → FairSome c (request_line cmd c)
  unfolding request_line
  request_line-Fair cmd =
      in_if (FairSome c) (starts_with (codes "GET ") cmd) (get_request-Fair (url_of cmd)) (
        in_if (FairSome c) (starts_with (codes "POST ") cmd) (post_request-Fair (url_of cmd))
          (record {
            before = λ e. e;
            kept = λ e h. All-append _ c.sent (not_implemented ∷ []) h (refl, tt);
          }))

  with_length-Fair : (o : Option ℤ) → FairSome c (with_length c o)
  unfolding with_length
  with_length-Fair none = tt
  with_length-Fair (some n) = record { before = λ e. e; kept = λ e h. h }

  length_header-Fair : (cmd : Bytes) → FairSome c (length_header cmd c)
  unfolding length_header
  length_header-Fair cmd =
      in_if (FairSome c) (starts_with (codes "Content-Length: ") cmd)
        (with_length-Fair (atoi (drop 16 cmd))) (same c)

  headers_end-Fair : Fair c (headers_end c)
  unfolding headers_end
  headers_end-Fair =
      let d = record c { read_header = false } in
      let free = is_open c.reply_code in
      in_if (Fair c) (ltz (pos 0) c.content_len) (record { before = λ e. e; kept = λ e h. h })
        (joined c (guarded free d) (send_page (guarded free d))
          (joined c d (guarded free d) (record { before = λ e. e; kept = λ e h. h })
            (guarded-Fair free d))
          (send_page-Fair (guarded free d) (guarded-Allowed free d (open-public c.reply_code))))

  other_header-Fair : (cmd : Bytes) → FairSome c (other_header cmd c)
  unfolding other_header
  other_header-Fair cmd =
      in_if (FairSome c) (starts_with (codes "Content-Type: ") cmd)
        (record { before = λ e. e; kept = λ e h. h })
        (in_if (FairSome c) (starts_with (codes "Cookie: ") cmd)
          (in_if (FairSome c) (ltb (length cmd) 12) tt
            (record { before = λ e. e; kept = λ e h. h }))
          (in_if (FairSome c) (eqb cmd []) headers_end-Fair (same c)))

after_length-Fair :
    (cmd : Bytes) (c : Worker) (o : Option Worker) → FairSome c o → FairSome c (after_length cmd o)
unfolding after_length
after_length-Fair cmd c none h = tt
after_length-Fair cmd c (some d) h =
    joined_some c d (other_header cmd d) h (other_header-Fair d cmd)

read_line-Fair : (cmd : Bytes) (c : Worker) → FairSome c (read_line cmd c)
unfolding read_line
read_line-Fair cmd c =
    in_if (FairSome c) c.read_header
      (after_length-Fair cmd c (length_header cmd c) (length_header-Fair c cmd))
      (request_line-Fair c cmd)

taken_off-Fair :
    (n : ℕ) (c : Worker) (o : Option Worker) → FairSome c o → FairSome c (taken_off n o)
unfolding taken_off
taken_off-Fair n c none h = tt
taken_off-Fair n c (some d) h = record { before = h.before; kept = h.kept }

line_at-Fair : (c : Worker) (n : ℕ) → FairSome c (line_at c n)
unfolding line_at
line_at-Fair c n = taken_off-Fair n c _ (read_line-Fair (take n c.buffer) c)

abbrev then_lines : ℕ → Option Worker → Option Worker
then_lines fuel none = none
then_lines fuel (some c) = read_lines fuel c

read_lines-Fair : (fuel : ℕ) (c : Worker) → FairSome c (read_lines fuel c)
unfolding read_lines
read_lines-Fair zero c = same c
read_lines-Fair (suc fuel) c =
    elim (find (codes "\r\n") (c_string c.buffer))
      as (λ o. FairSome c (elim o as (λ _. Option Worker) [
        | none ↦ some c
        | some n ↦ elim (line_at c n) [ none ↦ none | some d ↦ read_lines fuel d ]
      ])) [
        | none ↦ same c
        | some n ↦
            elim (line_at c n)
                as (λ o.
                  FairSome c o
                  → FairSome c (elim o as (λ _. Option Worker) [
                    | none ↦ none
                    | some d ↦ read_lines fuel d
                  ])) [
                    | none ↦ λ h. tt
                    | some d ↦ λ h. joined_some c d (read_lines fuel d) h (read_lines-Fair fuel d)
                  ]
              (line_at-Fair c n)
      ]

module _ {W : Type 0} (site : Site W) where
  with_world-Fair :
      (c : Worker) (w : W) (o : Option Worker) → FairSome c o → FairResult c (with_world w o)
  unfolding with_world
  with_world-Fair c w none h = tt
  with_world-Fair c w (some d) h = h

  body_if_whole-Fair : (n : ℤ) (c : Worker) (w : W) → FairResult c (body_if_whole site n c w)
  unfolding body_if_whole
  body_if_whole-Fair (pos n) c w =
      in_if (FairResult c) (ltb (length c.buffer) n) (same c) (handle_body-Fair site n c w)
  body_if_whole-Fair (negsuc n) c w = same c

  receive-Fair : (bytes : Bytes) (c : Worker) (w : W) → FairResult c (receive site bytes c w)
  unfolding receive
  receive-Fair bytes c w =
      let d = record c { buffer = c.buffer ++ bytes } in
      joined_result c d _ (record { before = λ e. e; kept = λ e h. h })
        (in_if (FairResult d) c.read_body (body_if_whole-Fair c.content_len d w) (
          with_world-Fair d w (read_lines (length d.buffer) d)
            (read_lines-Fair (length d.buffer) d)))

  serve-Fair : (reads : List Bytes) (c : Worker) (w : W) → FairResult c (serve site reads c w)
  unfolding serve
  serve-Fair [] c w = same c
  serve-Fair (bytes ∷ reads) c w =
      elim (receive site bytes c w)
          as (λ r.
            FairResult c r
            → FairResult c
                (elim r as (λ _. Result W) [ none ↦ none | some (d, v) ↦ serve site reads d v ])) [
                  | none ↦ λ h. tt
                  | some (d, v) ↦
                      λ h. joined_result c d (serve site reads d v) h (serve-Fair reads d v)
                ]
        (receive-Fair bytes c w)

  -- Whatever requests arrive on a connection, in whatever pieces, and whatever the store and the
  -- master answer: as long as nobody has logged in, everything that was sent is a page of login,
  -- signing up or a new password, a redirection, the page of forbidden access or the answer that a
  -- request is not implemented. No other page and no file is sent.
  pub thread_worker-AllPublic :
      (sid : Bytes) (reads : List Bytes) (w v : W) (c : Worker)
      → thread_worker site sid reads w ≡ some (c, v)
      → c.logged_in ≡ false
      → AllPublic c
  unfolding thread_worker
  thread_worker-AllPublic sid reads w v c e l =
      (coe 0 1 (i. FairResult (fresh sid) (e i)) (serve-Fair reads (fresh sid) w)).kept l tt
