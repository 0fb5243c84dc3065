-- ===== src/Frontend/Url.antt =====
-- `urlEncode`, `decodeURIComponent` and `parseQuery` of frontend/loginHelper.cc.
pub mod RoundTrip
use distributed_cloud_storag.Prelude.{
  ℕ, ◌+◌, ◌-◌, ◌*◌, ◌/◌, ◌%◌, Bool, true, false, ◌&&◌, ◌||◌, List, [], ◌∷◌, ◌++◌, Option, none,
  some, leb, ltb, ◌==◌, if◌then◌else◌, drop,
}
use distributed_cloud_storag.Prelude.Dict.{Bytes, Dict, insert}
use distributed_cloud_storag.Text.Find.{find_byte, behind, up_to}
use distributed_cloud_storag.Text.Getline.{getlines}

is_alnum : ℕ → Bool
is_alnum c =
    (leb b'0' c && leb c b'9') || ((leb b'A' c && leb c b'Z') || (leb b'a' c && leb c b'z'))

unfoldable pub is_plain : ℕ → Bool
unfolding is_alnum
is_plain c = is_alnum c || (c == b'-' || (c == b'_' || (c == b'.' || c == b'~')))

unfoldable pub hex_char : ℕ → ℕ
hex_char d = if ltb d 10 then b'0' + d else b'A' + (d - 10)

-- A byte as it is, or as "%" and two digits.
unfoldable pub encode_byte : ℕ → Bytes
unfolding is_plain hex_char
encode_byte c = if is_plain c then c ∷ [] else b'%' ∷ hex_char (c / 16) ∷ hex_char (c % 16) ∷ []

unfoldable pub url_encode : Bytes → Bytes
unfolding encode_byte
url_encode [] = []
url_encode (c ∷ s) = encode_byte c ++ url_encode s

unfoldable pub hex_digit : ℕ → Option ℕ
hex_digit c =
    if leb b'0' c && leb c b'9'
    then some (c - b'0')
    else if leb b'A' c && leb c b'F'
    then some (c - b'A' + 10)
    else if leb b'a' c && leb c b'f'
    then some (c - b'a' + 10)
    else none

-- static_cast<char> of the negated digit
negated : Option ℕ → Option ℕ
negated none = none
negated (some d) = some ((256 - d) % 256)

more_digits : Option ℕ → Option ℕ → Option ℕ
more_digits none low = none
more_digits (some high) none = some high
more_digits (some high) (some low) = some (high * 16 + low)

-- `is >> hex >> val` on a text of at most two bytes: a space is passed over, a sign counts, and the
-- prefix "0x" alone is no number.
unfoldable pub hex_value : Bytes → Option ℕ
unfolding hex_digit negated more_digits
hex_value [] = none
hex_value (c ∷ []) = hex_digit c
hex_value (c ∷ d ∷ _) =
    if c == b' ' || (leb 9 c && leb c 13)
    then hex_digit d
    else if c == b'+'
    then hex_digit d
    else if c == b'-'
    then negated (hex_digit d)
    else if c == b'0' && (d == b'x' || d == b'X')
    then none
    else more_digits (hex_digit c) (hex_digit d)

unfoldable pub plain_byte : ℕ → ℕ
plain_byte c = if c == b'+' then b' ' else c

decoded : Option ℕ → Bytes → Bytes → Bytes
decoded none next after = next
decoded (some v) next after = v ∷ after

-- Behind a "%" that no number follows, nothing is skipped and nothing is added.
unfoldable pub decode_uri_component : Bytes → Bytes
unfolding hex_value plain_byte decoded
decode_uri_component [] = []
decode_uri_component (c ∷ []) = if c == b'%' then [] else plain_byte c ∷ []
decode_uri_component (c ∷ x ∷ []) =
    let next = decode_uri_component (x ∷ []) in
    if c == b'%' then decoded (hex_value (x ∷ [])) next [] else plain_byte c ∷ next
decode_uri_component (c ∷ x ∷ y ∷ s) =
    let next = decode_uri_component (x ∷ y ∷ s) in
    let after = decode_uri_component s in
    if c == b'%' then decoded (hex_value (x ∷ y ∷ [])) next after else plain_byte c ∷ next

-- With no "=" in a pair, the key and the value are both the pair: npos + 1 is 0.
unfoldable add_pair : Bytes → Dict Bytes → Dict Bytes
unfolding decode_uri_component
add_pair pair result =
    let eq = find_byte b'=' pair in
    insert (decode_uri_component (up_to eq pair)) (decode_uri_component (drop (behind eq) pair))
      result

add_pairs : List Bytes → Dict Bytes → Dict Bytes
unfolding add_pair
add_pairs [] result = result
add_pairs (pair ∷ pairs) result = add_pairs pairs (add_pair pair result)

unfoldable pub parse_query : Bytes → Dict Bytes
unfolding add_pairs
parse_query query = add_pairs (getlines b'&' query) []
