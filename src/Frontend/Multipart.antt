-- ===== src/Frontend/Multipart.antt =====
-- `parse_multipart_form_data` of frontend/loginHelper.cc.
use distributed_cloud_storag.Prelude.{
  ℕ, ◌+◌, ◌-◌, Bool, true, false, ◌||◌, List, [], ◌∷◌, ◌++◌, Option, none, some, leb, if◌then◌else◌,
  length, take, drop,
}
use distributed_cloud_storag.Prelude.Dict.{Bytes, eqb}
use distributed_cloud_storag.Text.{codes}
use distributed_cloud_storag.Text.Find.{find, find_byte, up_to}
use distributed_cloud_storag.Frontend.Login.{extract_boundary, split}

-- What stands from a place to the next quote, or to the end.
unfoldable to_quote : ℕ → Bytes → Bytes
to_quote start headers = up_to (find_byte b'"' (drop start headers)) (drop start headers)

-- Where the name of the file starts; npos + 10 is 9.
unfoldable name_start : Option ℕ → ℕ
name_start none = 9
name_start (some n) = n + 10

unfoldable filename_in : Bytes → Bytes
unfolding to_quote name_start
filename_in headers = to_quote (name_start (find (codes "filename=\"") headers)) headers

unfoldable is_some : Option ℕ → Bool
is_some none = false
is_some (some n) = true

-- What a part says: it is passed over, it is a file with its content and name, or it is too short,
-- and the content would end before it starts, which is undefined.
pub data Part : Type 0 where
  passed : Part
  file : Bytes → Bytes → Part
  too_short : Part

unfoldable read_part : Bytes → Option ℕ → Part
unfolding filename_in is_some
read_part part none = passed
read_part part (some n) =
    if leb (n + 6) (length part)
    then if is_some (find (codes "filename=") (take n part))
      then file (take (length part - 2 - (n + 4)) (drop (n + 4) part)) (filename_in (take n part))
      else passed
    else too_short

unfoldable look_at : Bytes → Bytes → Part
unfolding read_part
look_at end_delimiter part =
    if leb (length part) 0 || eqb part end_delimiter
    then passed
    else read_part part (find (codes "\r\n\r\n") part)

-- The first part that is a file; no content and no name if there is none.
unfoldable first_file : Bytes → List Bytes → Option (Bytes × Bytes)
unfolding look_at
first_file end_delimiter [] = some ([], [])
first_file end_delimiter (part ∷ parts) = elim (look_at end_delimiter part) [
  | passed ↦ first_file end_delimiter parts
  | file content name ↦ some (content, name)
  | too_short ↦ none
]

unfoldable file_of : Bytes → Option Bytes → Option (Bytes × Bytes)
unfolding first_file
file_of body none = none
file_of body (some boundary) =
    first_file (codes "--" ++ (boundary ++ codes "--"))
      (split body (codes "--" ++ (boundary ++ codes "\r\n")))

-- The content and the name of the file in a body. `none` is undefined behaviour.
unfoldable pub parse_multipart_form_data : Bytes → Bytes → Option (Bytes × Bytes)
unfolding file_of
parse_multipart_form_data content_type body = file_of body (extract_boundary content_type)
