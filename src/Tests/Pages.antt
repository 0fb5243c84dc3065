-- ===== src/Tests/Pages.antt =====
-- Requests to the HTTP server of the frontend.
use distributed_cloud_storag.Prelude.{
  ◌+◌, ◌-◌, ◌*◌, ◌/◌, ◌%◌, ◌≡◌, refl, true, ◌&&◌, List, [], ◌∷◌, ◌++◌, none, some, arith,
  if◌then◌else◌,
}
use distributed_cloud_storag.Prelude.Dict.{Bytes, eqb, lookup, lookup_or, insert}
use distributed_cloud_storag.Prelude.Int.{ltz}
use distributed_cloud_storag.Text.{codes}
use distributed_cloud_storag.Text.Cstring.{c_string}
use distributed_cloud_storag.Text.Find.{find, find_byte, starts_with, up_to, behind}
use distributed_cloud_storag.Text.Getline.{getlines}
use distributed_cloud_storag.Kvstore.Config.{group_of}
use distributed_cloud_storag.Kvstore.Table.{get}
use distributed_cloud_storag.Kvstore.Server.{Server}
use distributed_cloud_storag.Kvstore.Alone.{IsAlone}
use distributed_cloud_storag.Frontend.Url.{decode_uri_component, parse_query}
use distributed_cloud_storag.Frontend.Login.Parse.{login_form}
use distributed_cloud_storag.Frontend.Mail.{
  mail_message, extract_subject_and_message, behind_subject, subject_line, with_message, trimmed,
  without_spaces, up_to_last, to_last, is_nil,
}
use distributed_cloud_storag.Frontend.Http.State.{
  redirect, login, new_dir, send_email, forward, page, Worker, Site, fresh,
}
use distributed_cloud_storag.Frontend.Http.Account.{field, log_in, sign_up}
use distributed_cloud_storag.Frontend.Http.Files.{move_file, folder_path}
use distributed_cloud_storag.Frontend.Http.Files.Renaming.{file_key, move_file_lem}
use distributed_cloud_storag.Frontend.Http.Store.{Codec, one_server}
use distributed_cloud_storag.Frontend.Http.Password.{IsField, entered, sign_up-log_in}
use distributed_cloud_storag.Frontend.Http.Actions.{is_open, guarded, send_page, handle_body}
use distributed_cloud_storag.Frontend.Http.Request.{
  past_spaces, token_at, strtok, next_token, url_of, get_page, headers_follow, get_request,
  request_line, length_header, headers_end, other_header, after_length, read_line,
}
use distributed_cloud_storag.Frontend.Http.Worker.{
  taken_off, line_at, read_lines, with_world, receive, serve, thread_worker,
}
use distributed_cloud_storag.Frontend.Http.Worker.Guard.{AllPublic}
use distributed_cloud_storag.Frontend.Http.Worker.Outsider.{thread_worker-AllPublic}
use distributed_cloud_storag.Frontend.Http.Worker.Unguarded.{turned_away, handle_body-stranger}
use distributed_cloud_storag.Tests.Mails.{letters, letters-Carried, letters-IsBase64}
use distributed_cloud_storag.Tests.Sample.{server_at}

-- The inverse of the encoder of the tests.
abbrev unletters : Bytes → Bytes
unletters (a ∷ b ∷ s) = ((a - b'A') * 16 + (b - b'A')) ∷ unletters s
unletters s = []

unletters-letters : (s : Bytes) → unletters (letters s) ≡ s
unletters-letters [] = refl
unletters-letters (b ∷ s) =
    let e : (b'A' + b / 16 - b'A') * 16 + (b'A' + b % 16 - b'A') ≡ b = omega arith in
    λ i. e i ∷ unletters-letters s i

abbrev codec : Codec
codec = record {
  encode = letters;
  decode = unletters;
  carried = letters-Carried;
  full = letters-IsBase64.full;
  decoded = unletters-letters;
}

abbrev alone : Server
alone = record (server_at 8000 true) {
  servers = [];
  table = (codes "ann", (codes "/content/a.txt", codes "SGk") ∷ []) ∷ [];
}

alone-IsAlone : IsAlone alone
unfolding group_of
alone-IsAlone = record { enabled = refl; awake = refl; primary = refl; others = refl }

ann-IsField : IsField (codes "ann")
ann-IsField = record { no_and = omega arith; no_equals = omega arith; full = λ e. cc }

pass-IsField : IsField (codes "pass")
pass-IsField = record { no_and = omega arith; no_equals = omega arith; full = λ e. cc }

sign_up-log_in_example :
    (s' : Server) × (s'' : Server) × (sign_up
        (one_server 7 codec)
        (login_form (codes "ann") (codes "pass"))
        (fresh (codes "17"))
        alone
      ≡ some (record (fresh (codes "17")) { username = []; reply_code = redirect }, s'))
    × (log_in (one_server 7 codec) (login_form (codes "ann") (codes "ann")) (fresh (codes "18")) s'
        ≡ some (entered (codes "ann") (eqb (codes "ann") (codes "pass")) (fresh (codes "18")), s''))
sign_up-log_in_example =
    sign_up-log_in 7 codec (codes "ann") ann-IsField (omega arith, omega arith) (codes "pass")
      (codes "ann") (fresh (codes "17")) (fresh (codes "18")) alone pass-IsField ann-IsField
      alone-IsAlone

abbrev ann : Worker
ann = record (fresh (codes "17")) { username = codes "ann"; logged_in = true }

a_file : get alone.table (codes "ann") (file_key (codes "a.txt")) ≡ some (codes "SGk")
unfolding get lookup eqb
a_file = refl

-- The new name is the old one.
move_file_lem_example :
    (s' : Server) × (move_file (one_server 7 codec) (codes "a.txt") (codes "a.txt") ann alone
      ≡ some (ann, s'))
    × ((r k : Bytes)
        → get s'.table r k ≡ (
            if eqb (codes "ann") r && eqb (file_key (codes "a.txt")) k
            then none
            else if eqb (codes "ann") r && eqb (file_key (codes "a.txt")) k
            then some (codes "SGk")
            else get alone.table r k))
move_file_lem_example =
    move_file_lem 7 codec (codes "a.txt") (codes "a.txt") (codes "SGk") ann alone
      (omega arith, omega arith) (omega arith, omega arith) (omega arith, omega arith)
      (omega arith, omega arith) (λ e. cc) alone-IsAlone a_file

-- A site that keeps the commands it is sent.
abbrev recorder : Site (List Bytes)
recorder = record {
  ask = λ command log. (codes "+OK\r\n", log ++ command ∷ []);
  connect = λ u log. log;
  mail = λ texts log. log ++ texts;
  encode = letters;
  decode = unletters;
}

abbrev at_login : Worker
at_login = record (fresh (codes "17")) { reply_code = login; sent = page login [] [] ∷ [] }

login_run :
    thread_worker recorder (codes "17") (codes "GET / HTTP/1.1\r\n" ∷ codes "\r\n" ∷ []) []
    ≡ some (at_login, [])
unfolding thread_worker serve receive with_world read_lines line_at taken_off read_line after_length
    length_header other_header headers_end request_line get_request get_page headers_follow url_of
    next_token strtok token_at past_spaces find starts_with find_byte c_string eqb guarded is_open
    send_page ltz
login_run = refl

thread_worker-AllPublic_example : AllPublic at_login
thread_worker-AllPublic_example =
    thread_worker-AllPublic recorder (codes "17") (codes "GET / HTTP/1.1\r\n" ∷ codes "\r\n" ∷ [])
      [] [] at_login login_run refl

-- Nobody has logged in, and the store has one mail under every name.
abbrev stranger : Worker
stranger = record (fresh (codes "17")) { buffer = codes "folderName=x" }

abbrev mail_value : Bytes
mail_value = letters (codes "Subject: Hi\nYes")

abbrev keeper : Site (List Bytes)
keeper = record recorder { ask = λ command log. (codes "+OK " ++ mail_value, log ++ command ∷ []) }

mail_text : extract_subject_and_message (unletters mail_value) ≡ some (codes "Hi", codes "Yes")
unfolding extract_subject_and_message behind_subject subject_line with_message trimmed
    without_spaces up_to_last to_last is_nil find find_byte starts_with
mail_text = refl

handle_body-stranger_example :
    (handle_body keeper 12 (record stranger { reply_code = new_dir }) []
      ≡ some (turned_away 12 stranger, codes "PUT ,/content/x,dummyData\r\n" ∷ []))
    × (handle_body keeper 12 (record stranger { reply_code = send_email }) []
        ≡ some (turned_away 12 stranger, mail_message [] [] [] []))
    × (handle_body keeper 12 (record stranger { reply_code = forward }) []
        ≡ some (
          turned_away 12 stranger,
          codes "GET \r\n" ∷ mail_message [] [] (codes "Hi") (codes "Fwd message \nYes"),
        ))
unfolding field lookup_or lookup insert eqb c_string parse_query decode_uri_component getlines up_to
    find_byte behind folder_path
handle_body-stranger_example =
    handle_body-stranger keeper 12 stranger mail_value (codes "Hi") (codes "Yes") []
      (codes "GET \r\n" ∷ []) refl refl mail_text
