-- ===== src/Text/Cstring.antt =====
-- Texts that end in a NUL byte.
use distributed_cloud_storag.Prelude.{◌≡◌, refl, [], ◌∷◌, ◌++◌, arith, ◌==◌, if◌then◌else◌}
use distributed_cloud_storag.Prelude.Dict.{Bytes}
use distributed_cloud_storag.Text.Find.{Lacks}

-- string(buffer): the bytes before the first NUL
unfoldable pub c_string : Bytes → Bytes
c_string [] = []
c_string (c ∷ s) = let rest = c_string s in if c == 0 then [] else c ∷ rest

pub c_string-append : (s t : Bytes) → Lacks 0 s → c_string (s ++ 0 ∷ t) ≡ s
unfolding c_string
c_string-append [] t h = refl
c_string-append (c ∷ s) t h = ground (arith, c_string-append s t)

pub c_string-Lacks : (s : Bytes) → Lacks 0 s → c_string s ≡ s
unfolding c_string
c_string-Lacks [] h = refl
c_string-Lacks (x ∷ s) h = ground (arith, c_string-Lacks s h.1)
