-- ===== src/Kvstore/Split/RoundTrip.antt =====
-- `splitKVStoreCommand` takes the commands apart that `handleCommand` and the clients put together.
use distributed_cloud_storag.Prelude.{◌≡◌, ◌≢◌, refl, ap, ◌∙◌, List, [], ◌∷◌, ◌++◌, All}
use distributed_cloud_storag.Prelude.Dict.{Bytes}
use distributed_cloud_storag.Text.{codes, upper}
use distributed_cloud_storag.Text.Find.{Lacks, find_byte, behind}
use distributed_cloud_storag.Text.Getline.{getlines, getlines-append, getlines_last}
use distributed_cloud_storag.Kvstore.Split.{split_command}

-- Parameters with a comma between two.
abbrev pub commas : List Bytes → Bytes
commas [] = []
commas (p ∷ []) = p
commas (p ∷ q ∷ ps) = p ++ b',' ∷ commas (q ∷ ps)

-- A list of parameters whose last one is not empty.
abbrev EndsInText : List Bytes → Type 0
EndsInText [] = ⊥
EndsInText (p ∷ []) = p ≢ []
EndsInText (p ∷ q ∷ ps) = EndsInText (q ∷ ps)

pub getlines-commas :
    (ps : List Bytes) → All (Lacks b',') ps → EndsInText ps → getlines b',' (commas ps) ≡ ps
getlines-commas [] h e = absurd e
getlines-commas (p ∷ []) h e = getlines_last b',' p e h.0
getlines-commas (p ∷ q ∷ ps) h e =
    getlines-append b',' p (commas (q ∷ ps)) h.0 ∙ ap (λ t. p ∷ t) (getlines-commas (q ∷ ps) h.1 e)

pub split_command_put :
    (s : Bytes) → split_command (codes "PUT " ++ s) ≡ codes "PUT " ∷ getlines b',' s
unfolding split_command find_byte behind upper
split_command_put s = refl

pub split_command_cput :
    (s : Bytes) → split_command (codes "CPUT " ++ s) ≡ codes "CPUT " ∷ getlines b',' s
unfolding split_command find_byte behind upper
split_command_cput s = refl

pub split_command_delete :
    (s : Bytes) → split_command (codes "DELETE " ++ s) ≡ codes "DELETE " ∷ getlines b',' s
unfolding split_command find_byte behind upper
split_command_delete s = refl

pub split_command_get :
    (s : Bytes) → split_command (codes "GET " ++ s) ≡ codes "GET " ∷ getlines b',' s
unfolding split_command find_byte behind upper
split_command_get s = refl
