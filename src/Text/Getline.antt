-- ===== src/Text/Getline.antt =====
-- `while (getline(stream, item, delimiter))`: the items of a text. A delimiter at the very end
-- starts no item, and an empty text has none.
use distributed_cloud_storag.Prelude.{
  ℕ, ◌≡◌, ◌≢◌, refl, List, [], ◌∷◌, ◌++◌, arith, ◌==◌, if◌then◌else◌,
}
use distributed_cloud_storag.Prelude.Dict.{Bytes}
use distributed_cloud_storag.Text.Find.{Lacks}

push : ℕ → List Bytes → List Bytes
push c [] = (c ∷ []) ∷ []
push c (item ∷ items) = (c ∷ item) ∷ items

unfoldable pub getlines : ℕ → Bytes → List Bytes
unfolding push
getlines d [] = []
getlines d (c ∷ s) = let rest = getlines d s in if c == d then [] ∷ rest else push c rest

-- An item ends at its delimiter.
pub getlines-append : (d : ℕ) (w s : Bytes) → Lacks d w → getlines d (w ++ d ∷ s) ≡ w ∷ getlines d s
unfolding getlines
getlines-append d [] s h = ground arith
getlines-append d (c ∷ w) s h = ground (arith, getlines-append d w s)

-- The last item needs no delimiter, if it is not empty.
pub getlines_last : (d : ℕ) (w : Bytes) → w ≢ [] → Lacks d w → getlines d w ≡ w ∷ []
unfolding getlines
getlines_last d [] ne h = absurd (ne refl)
getlines_last d (c ∷ []) ne h = ground arith
getlines_last d (c ∷ b ∷ w) ne h = ground (arith, getlines_last d (b ∷ w) (λ e. cc) h.1)
