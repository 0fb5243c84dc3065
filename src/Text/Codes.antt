-- ===== src/Text/Codes.antt =====
-- Literals, and `toupper` and `tolower` of the "C" locale.
use Prim.Native.Char.{code}
use Prim.Native.String.{String}
use distributed_cloud_storag.Prelude.{ℕ, ◌+◌, ◌-◌, ◌&&◌, [], ◌∷◌, map, leb, if◌then◌else◌}
use distributed_cloud_storag.Prelude.Dict.{Bytes}

-- The code points of a literal, which are its bytes since the sources are ASCII.
abbrev pub codes : String → Bytes
codes String.[] = []
codes (String.◌∷◌ c s) = code c ∷ codes s

unfoldable pub to_upper : ℕ → ℕ
to_upper c = if leb b'a' c && leb c b'z' then c - 32 else c

unfoldable pub to_lower : ℕ → ℕ
to_lower c = if leb b'A' c && leb c b'Z' then c + 32 else c

-- transform(s.begin(), s.end(), s.begin(), ::toupper)
unfoldable pub upper : Bytes → Bytes
unfolding to_upper
upper s = map to_upper s
