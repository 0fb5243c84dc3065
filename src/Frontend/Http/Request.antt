-- ===== src/Frontend/Http/Request.antt =====
-- The lines of a request, in frontend/frontendserver.cc.
use distributed_cloud_storag.Prelude.{
  ℕ, ◌+◌, true, false, [], ◌∷◌, ◌++◌, Option, none, some, ltb, ◌==◌, if◌then◌else◌, length, take,
  drop,
}
use distributed_cloud_storag.Prelude.Dict.{Bytes, eqb}
use distributed_cloud_storag.Prelude.Int.{ℤ, pos, ltz}
use distributed_cloud_storag.Text.{codes}
use distributed_cloud_storag.Text.Find.{find, find_byte, starts_with}
use distributed_cloud_storag.Text.Decimal.{atoi}
use distributed_cloud_storag.Frontend.Mail.{extract_path}
use distributed_cloud_storag.Frontend.Http.State.{
  ReplyCode, login, menu, mailbox, drive, email, send_email, forward, download, rename, move,
  remove, new_dir, upload, signup, new_pass, not_found, not_implemented, Worker,
}
use distributed_cloud_storag.Frontend.Http.Actions.{is_open, guarded, send_page}

-- The next token of `strtok(_, " ")`, and what is behind it.
unfoldable pub past_spaces : Bytes → Bytes
past_spaces [] = []
past_spaces (c ∷ s) = let rest = past_spaces s in if c == b' ' then rest else c ∷ s

-- What is behind the last token is behind the text.
unfoldable pub token_at : Bytes → Option (Bytes × Option Bytes)
token_at [] = none
token_at (c ∷ s) = elim (find_byte b' ' (c ∷ s)) [
  | none ↦ some (c ∷ s, none)
  | some n ↦ some (take n (c ∷ s), some (drop (n + 1) (c ∷ s)))
]

unfoldable pub strtok : Bytes → Option (Bytes × Option Bytes)
unfolding past_spaces token_at
strtok s = token_at (past_spaces s)

unfoldable pub next_token : Option (Bytes × Option Bytes) → Option (Bytes × Option Bytes)
unfolding strtok
next_token none = none
next_token (some (t, none)) = none
next_token (some (t, some rest)) = strtok rest

-- The second token of a line, and what is behind it; `none` is a null pointer, which is then read.
unfoldable pub url_of : Bytes → Option (Bytes × Option Bytes)
unfolding next_token
url_of cmd = next_token (strtok cmd)

unfoldable pub with_item : Worker → Option Bytes → Option Worker
with_item c none = none
with_item c (some item) = some (record c { item = item; reply_code = email })

-- A mail of the mailbox: what is nine bytes behind the start of "/mailbox". Where the address ends
-- with that, it is what is behind the address in the line, if there is anything.
unfoldable pub mail_page : Bytes → Option Bytes → Worker → Option ℕ → Option Worker
unfolding with_item
mail_page url rest c none = some (record c { reply_code = not_found })
mail_page url rest c (some n) =
    with_item c (if ltb (length url) (n + 9) then rest else some (drop (n + 9) url))

unfoldable pub get_page : Bytes → Option Bytes → Worker → Option Worker
unfolding mail_page
get_page url rest c =
    if eqb url (codes "/")
    then some (record c { reply_code = login })
    else if eqb url (codes "/mailbox")
    then some (record c { reply_code = mailbox })
    else if starts_with (codes "/drive") url
    then some (record c { reply_code = drive; item = extract_path url })
    else mail_page url rest c (find (codes "/mailbox") url)

unfoldable post_code : Bytes → ReplyCode
post_code url =
    if eqb url (codes "/signup")
    then signup
    else if eqb url (codes "/newpass")
    then new_pass
    else if eqb url (codes "/menu")
    then menu
    else if eqb url (codes "/send-email")
    then send_email
    else if eqb url (codes "/forward-email")
    then forward
    else if eqb url (codes "/download")
    then download
    else if eqb url (codes "/rename")
    then rename
    else if eqb url (codes "/move")
    then move
    else if eqb url (codes "/delete")
    then remove
    else if eqb url (codes "/create-folder")
    then new_dir
    else if eqb url (codes "/upload-file")
    then upload
    else not_found

unfoldable pub headers_follow : Option Worker → Option Worker
headers_follow none = none
headers_follow (some c) = some (record c { read_header = true })

unfoldable pub get_request : Worker → Option (Bytes × Option Bytes) → Option Worker
unfolding get_page headers_follow
get_request c none = none
get_request c (some (url, rest)) = headers_follow (get_page url rest c)

unfoldable pub post_request : Worker → Option (Bytes × Option Bytes) → Option Worker
unfolding post_code
post_request c none = none
post_request c (some (url, rest)) =
    some (record c { reply_code = post_code url; read_header = true })

unfoldable pub request_line : Bytes → Worker → Option Worker
unfolding get_request post_request url_of
request_line cmd c =
    if starts_with (codes "GET ") cmd
    then get_request c (url_of cmd)
    else if starts_with (codes "POST ") cmd
    then post_request c (url_of cmd)
    else some (record c { sent = c.sent ++ not_implemented ∷ [] })

-- `none` of atoi is a number that is no int.
unfoldable pub with_length : Worker → Option ℤ → Option Worker
with_length c none = none
with_length c (some n) = some (record c { content_len = n })

unfoldable pub length_header : Bytes → Worker → Option Worker
unfolding with_length
length_header cmd c =
    if starts_with (codes "Content-Length: ") cmd
    then with_length c (atoi (drop 16 cmd))
    else some c

-- The end of the headers: a body is read, or the page is sent.
unfoldable pub headers_end : Worker → Worker
unfolding is_open guarded send_page
headers_end c =
    let d = record c { read_header = false } in
    if ltz (pos 0) c.content_len
    then record d { read_body = true }
    else send_page (guarded (is_open c.reply_code) d)

-- A cookie's line that is shorter than "Cookie: sid=" is an array of negative size.
unfoldable pub other_header : Bytes → Worker → Option Worker
unfolding headers_end
other_header cmd c =
    if starts_with (codes "Content-Type: ") cmd
    then some (record c { content_type = cmd })
    else if starts_with (codes "Cookie: ") cmd
    then if ltb (length cmd) 12 then none else some (record c { tmp_sid = drop 12 cmd })
    else if eqb cmd []
    then some (headers_end c)
    else some c

unfoldable pub after_length : Bytes → Option Worker → Option Worker
unfolding other_header
after_length cmd none = none
after_length cmd (some c) = other_header cmd c

-- One line.
unfoldable pub read_line : Bytes → Worker → Option Worker
unfolding after_length length_header request_line
read_line cmd c =
    if c.read_header then after_length cmd (length_header cmd c) else request_line cmd c
