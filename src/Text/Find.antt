-- ===== src/Text/Find.antt =====
-- `find`, `rfind` and `substr`. The result `none` of a search is `string::npos`.
use distributed_cloud_storag.Prelude.{
  ℕ, suc, ◌+◌, ◌≡◌, ◌≢◌, refl, Bool, true, false, ◌&&◌, [], ◌∷◌, ◌++◌, Option, none, some, arith,
  ◌==◌, if◌then◌else◌, length, take, All,
}
use distributed_cloud_storag.Prelude.Dict.{Bytes}

-- `s` holds no byte `c`.
abbrev pub Lacks : ℕ → Bytes → Type 0
Lacks c = All (λ x. x ≢ c)

-- The same, decided.
abbrev pub holds_no : ℕ → Bytes → Bool
holds_no c [] = true
holds_no c (x ∷ s) = if x == c then false else holds_no c s

pub Lacks-holds_no : (c : ℕ) (s : Bytes) → holds_no c s ≡ true → Lacks c s
Lacks-holds_no c [] h = tt
Lacks-holds_no c (x ∷ s) h = ground (arith, Lacks-holds_no c s)

shift : Option ℕ → Option ℕ
shift none = none
shift (some i) = some (suc i)

-- s.find(c)
unfoldable pub find_byte : ℕ → Bytes → Option ℕ
unfolding shift
find_byte c [] = none
find_byte c (x ∷ s) = if x == c then some 0 else shift (find_byte c s)

unfoldable pub starts_with : Bytes → Bytes → Bool
starts_with [] s = true
starts_with (p ∷ ps) [] = false
starts_with (p ∷ ps) (x ∷ s) = p == x && starts_with ps s

-- s.find(t)
unfoldable pub find : Bytes → Bytes → Option ℕ
unfolding shift starts_with
find t [] = if starts_with t [] then some 0 else none
find t (x ∷ s) = if starts_with t (x ∷ s) then some 0 else shift (find t s)

-- The last match wins.
later : Option ℕ → Bool → Option ℕ
later (some i) here = some (suc i)
later none true = some 0
later none false = none

-- s.rfind(t), for a text `t` that is not empty
unfoldable pub rfind : Bytes → Bytes → Option ℕ
unfolding later starts_with
rfind t [] = none
rfind t (x ∷ s) = later (rfind t s) (starts_with t (x ∷ s))

-- s.find(c) + 1, where npos + 1 wraps round to 0
unfoldable pub behind : Option ℕ → ℕ
behind none = 0
behind (some i) = i + 1

-- The number of bytes that `substr(p, n)` takes from a text for the search result `n`.
unfoldable pub up_to : Option ℕ → Bytes → Bytes
up_to none s = s
up_to (some n) s = take n s

pub find_byte-append :
    (c : ℕ) (s t : Bytes) → Lacks c s → find_byte c (s ++ c ∷ t) ≡ some (length s)
unfolding find_byte
find_byte-append c [] t h = ground arith
find_byte-append c (x ∷ s) t h = ground (arith, find_byte-append c s t)

pub find_byte-Lacks : (c : ℕ) (s : Bytes) → Lacks c s → find_byte c s ≡ none
unfolding find_byte
find_byte-Lacks c [] h = refl
find_byte-Lacks c (x ∷ s) h = ground (arith, find_byte-Lacks c s)

-- The first line end.
pub find-line_end :
    (s rest : Bytes)
    → Lacks b'\r' s
    → find (b'\r' ∷ b'\n' ∷ []) (s ++ b'\r' ∷ b'\n' ∷ rest) ≡ some (length s)
unfolding find
find-line_end [] rest h = refl
find-line_end (x ∷ s) rest h = ground (arith, find-line_end s rest h.1)

pub holds_no-Lacks : (c : ℕ) (s : Bytes) → Lacks c s → holds_no c s ≡ true
holds_no-Lacks c [] h = refl
holds_no-Lacks c (x ∷ s) h = ground (arith, holds_no-Lacks c s)
