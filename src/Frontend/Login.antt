-- ===== src/Frontend/Login.antt =====
-- `parseLoginData`, `extractPassword`, `extract_boundary` and `split` of frontend/loginHelper.cc.
pub mod Parse
use distributed_cloud_storag.Prelude.{
  ℕ, zero, suc, ◌+◌, ◌-◌, Bool, true, false, List, [], ◌∷◌, ◌++◌, Option, none, some, ltb, ◌==◌,
  if◌then◌else◌, length, get_or, take, drop,
}
use distributed_cloud_storag.Prelude.Dict.{Bytes, eqb}
use distributed_cloud_storag.Text.{codes}
use distributed_cloud_storag.Text.Find.{find}
use distributed_cloud_storag.Text.Getline.{getlines}

-- The key and the value of a pair are its first two fields.
unfoldable pub store_field : List Bytes → Bytes × Bytes → Bytes × Bytes
store_field fields (username, password) =
    let key = get_or fields 0 [] in
    let value = get_or fields 1 [] in
    if eqb key (codes "username")
    then (value, password)
    else if eqb key (codes "password")
    then (username, value)
    else (username, password)

unfoldable pub login_pair : Bytes → Bytes × Bytes → Bytes × Bytes
unfolding store_field
login_pair pair result = store_field (getlines b'=' pair) result

login_pairs : List Bytes → Bytes × Bytes → Bytes × Bytes
unfolding login_pair
login_pairs [] found = found
login_pairs (pair ∷ pairs) found = login_pairs pairs (login_pair pair found)

unfoldable pub parse_login_data : Bytes → Bytes × Bytes
unfolding login_pairs
parse_login_data text = login_pairs (getlines b'&' text) ([], [])

unfoldable pub password_of : Bytes → Option ℕ → Option Bytes
password_of s none = some s
password_of s (some n) = some (take n s)

-- What stands between "+OK " and the line end. `none` is an exception of `substr`.
unfoldable pub extract_password : Bytes → Option Bytes
unfolding password_of
extract_password s =
    if ltb (length s) 4 then none else password_of (drop 4 s) (find (codes "\r\n") (drop 4 s))

-- The boundary of a content type, with its quotes taken off. `none` is undefined behaviour: the
-- front of an empty text, or a quote that stands alone.
unfoldable unquoted : Bytes → Option Bytes
unquoted [] = none
unquoted (c ∷ s) =
    if c == b'"' then if length s == 0 then none else some (take (length s - 1) s) else some (c ∷ s)

unfoldable pub extract_boundary : Bytes → Option Bytes
unfolding unquoted
extract_boundary s = elim (find (codes "boundary=") s) [
  | none ↦ some []
  | some n ↦ unquoted (drop (n + 9) s)
]

-- The parts of a body between its delimiters. Each round drops the delimiter, which is not empty in
-- the only call, so the length of the body is fuel enough.
split_from : ℕ → Bytes → Bytes → List Bytes
split_from zero delimiter s = []
split_from (suc fuel) delimiter [] = []
split_from (suc fuel) delimiter (c ∷ s) = elim (find delimiter (c ∷ s)) [
  | none ↦ (c ∷ s) ∷ []
  | some n ↦ take n (c ∷ s) ∷ split_from fuel delimiter (drop (n + length delimiter) (c ∷ s))
]

unfoldable pub split : Bytes → Bytes → List Bytes
unfolding split_from
split s delimiter = split_from (length s) delimiter s
