-- ===== src/Frontend/Http/Files.antt =====
-- Requests about files: the branches DELETE, RENAME, MOVE, NEWDIR, UPLOAD and DOWNLOAD of
-- frontend/frontendserver.cc.
pub mod Renaming
use distributed_cloud_storag.Prelude.{
  ℕ, ◌+◌, Bool, true, false, not, ◌&&◌, ◌==◌, List, [], ◌∷◌, ◌++◌, Option, none, some,
  if◌then◌else◌, length, drop,
}
use distributed_cloud_storag.Prelude.Dict.{Bytes, eqb}
use distributed_cloud_storag.Text.{codes}
use distributed_cloud_storag.Text.Find.{find_byte, behind}
use distributed_cloud_storag.Text.Getline.{getlines}
use distributed_cloud_storag.Frontend.Url.{parse_query}
use distributed_cloud_storag.Frontend.Multipart.{parse_multipart_form_data}
use distributed_cloud_storag.Frontend.Http.State.{
  Worker, Reply, file_data, Site, Result, without_ok,
}
use distributed_cloud_storag.Frontend.Http.Account.{field}

unfoldable in_folder : Bytes → Bytes → Bytes
in_folder [] name = name
in_folder (c ∷ item) name = (c ∷ item) ++ b'/' ∷ name

unfoldable list_command : Bytes → Bytes → Bytes
list_command username path =
    codes "LIST " ++ (username ++ (codes ",/content/" ++ (path ++ codes "\r\n")))

unfoldable pub get_command : Bytes → Bytes → Bytes
get_command username path =
    codes "GET " ++ (username ++ (codes ",/content/" ++ (path ++ codes "\r\n")))

-- `value` has its line end.
unfoldable pub put_command : Bytes → Bytes → Bytes → Bytes
put_command username path value =
    codes "PUT " ++ (username ++ (codes ",/content/" ++ (path ++ b',' ∷ value)))

unfoldable pub delete_command : Bytes → Bytes → Bytes
delete_command username path =
    codes "DELETE " ++ (username ++ (codes ",/content/" ++ (path ++ codes "\r\n")))

-- A command with a key as the store lists it.
unfoldable key_command : Bytes → Bytes → Bytes → Bytes
key_command verb username key = verb ++ (username ++ b',' ∷ (key ++ codes "\r\n"))

module _ {W : Type 0} (site : Site W) where
  unfoldable delete_keys : Bytes → List Bytes → W → W
  unfolding key_command
  delete_keys username [] w = w
  delete_keys username (key ∷ keys) w =
      delete_keys username keys
        (if length key == 0 then w else (site.ask (key_command (codes "DELETE ") username key) w).1)

  -- DELETE: all keys that start with the path
  unfoldable pub delete_files : Bytes → Worker → W → Result W
  unfolding delete_keys field in_folder list_command
  delete_files content c w =
      let name = field (codes "fileName") (parse_query content) in
      let (response, w') = site.ask (list_command c.username (in_folder c.item name)) w in
      some (c, delete_keys c.username (getlines b'\n' response) w')

  -- The value that was read is put under the new path, and the old one deleted.
  unfoldable pub moved_to : Bytes → Bytes → Bytes → Worker → Option Bytes → W → Result W
  unfolding put_command
  moved_to new_path deletion username c none w = none
  moved_to new_path deletion username c (some value) w =
      let (_, w₁) = site.ask (put_command username new_path value) w in
      let (_, w₂) = site.ask deletion w₁ in some (c, w₂)

  unfoldable pub move_file : Bytes → Bytes → Worker → W → Result W
  unfolding moved_to get_command delete_command
  move_file path new_path c w =
      let (response, w') = site.ask (get_command c.username path) w in
      moved_to new_path (delete_command c.username path) c.username c (without_ok response) w'

  -- RENAME
  unfoldable pub rename_file : Bytes → Worker → W → Result W
  unfolding move_file field in_folder
  rename_file content c w =
      let m = parse_query content in
      move_file (in_folder c.item (field (codes "fileName") m))
        (in_folder c.item (field (codes "newName") m)) c w

  -- Each key of a folder is read, put under the new path, and deleted.
  unfoldable pub move_key : Bytes → Bytes → Worker → W → Result W
  unfolding moved_to key_command
  move_key new_path key c w =
      let (response, w') = site.ask (key_command (codes "GET ") c.username key) w in
      moved_to new_path (key_command (codes "DELETE ") c.username key) c.username c
        (without_ok response) w'

  unfoldable pub move_keys : Bytes → List Bytes → Worker → W → Result W
  unfolding move_key
  move_keys new_path [] c w = some (c, w)
  move_keys new_path (key ∷ keys) c w =
      elim (if not (eqb key (codes "\r\n")) && not (eqb key (codes "\n"))
        then move_key new_path key c w
        else some (c, w)) [ none ↦ none | some (c', w') ↦ move_keys new_path keys c' w' ]

  unfoldable pub move_folder : Bytes → Bytes → Worker → W → Result W
  unfolding move_keys list_command
  move_folder path new_path c w =
      let (response, w') = site.ask (list_command c.username path) w in
      move_keys new_path (getlines b'\n' response) c w'

  -- The new path of a request to move `name`.
  unfoldable moved_path : Bytes → Bytes → Bytes → Bytes
  moved_path [] new_path name = new_path
  moved_path (c ∷ item) new_path name = new_path ++ b'/' ∷ name

  unfoldable pub move_named : Bytes → Bytes → Worker → W → Option ℕ → Result W
  unfolding move_folder move_file moved_path in_folder
  move_named name new_path c w none =
      move_folder (in_folder c.item name) (moved_path c.item new_path name ++ b'/' ∷ name) c w
  move_named name new_path c w (some dot) =
      move_file (in_folder c.item name) (moved_path c.item new_path name) c w

  -- MOVE; a name with no dot is that of a folder.
  unfoldable pub move_item : Bytes → Worker → W → Result W
  unfolding move_named field
  move_item content c w =
      let m = parse_query content in
      let name = field (codes "fileName") m in
      move_named name (field (codes "newPath") m) c w (find_byte b'.' name)

  -- item + "/" + dirname, behind "/content" with a slash only if there is an item
  unfoldable pub folder_path : Bytes → Bytes → Bytes
  folder_path [] name = codes "/content" ++ b'/' ∷ name
  folder_path (c ∷ item) name = codes "/content/" ++ ((c ∷ item) ++ b'/' ∷ name)

  -- NEWDIR
  unfoldable pub new_folder : Bytes → Worker → W → Result W
  unfolding folder_path field
  new_folder content c w =
      let path = folder_path c.item (field (codes "folderName") (parse_query content)) in
      let (_, w') =
        site.ask (codes "PUT " ++ (c.username ++ b',' ∷ (path ++ codes ",dummyData\r\n"))) w in
      some (c, w')

  unfoldable pub upload_named : Worker → W → Option (Bytes × Bytes) → Result W
  unfolding put_command in_folder
  upload_named c w none = none
  upload_named c w (some (text, name)) =
      let (_, w') =
        site.ask (put_command c.username (in_folder c.item name) (site.encode text ++ codes "\r\n"))
          w in
      some (record c { content_type = [] }, w')

  -- UPLOAD; the body is taken with its NUL bytes.
  unfoldable pub upload_file : Bytes → Worker → W → Result W
  unfolding upload_named
  upload_file body c w = upload_named c w (parse_multipart_form_data c.content_type body)

  unfoldable pub file_sent : Bytes → Worker → W → Option Bytes → Result W
  file_sent name c w none = none
  file_sent name c w (some text) = some (
    record c {
      sent = c.sent ++ file_data (codes "/home/cis5050/Downloads/" ++ name) (site.decode text) ∷ [];
    },
    w,
  )

  -- DOWNLOAD; the name is behind the first "=", or the whole text.
  unfoldable pub download_file : Bytes → Worker → W → Result W
  unfolding file_sent get_command in_folder
  download_file content c w =
      let name = drop (behind (find_byte b'=' content)) content in
      let (response, w') = site.ask (get_command c.username (in_folder c.item name)) w in
      file_sent name c w' (without_ok response)
