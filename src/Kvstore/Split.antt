-- ===== src/Kvstore/Split.antt =====
-- `splitKVStoreCommand` and `split` of backend/kvstore/kvstore.cc.
pub mod RoundTrip
use distributed_cloud_storag.Prelude.{◌≡◌, refl, List, [], ◌∷◌, take, drop}
use distributed_cloud_storag.Prelude.Dict.{Bytes}
use distributed_cloud_storag.Text.{codes, upper}
use distributed_cloud_storag.Text.Find.{find_byte, behind}
use distributed_cloud_storag.Text.Getline.{getlines}

-- The verb with its space, in capitals, and the parameters between commas. With no space the verb
-- is empty, since npos + 1 is 0.
unfoldable pub split_command : Bytes → List Bytes
split_command s = let n = behind (find_byte b' ' s) in upper (take n s) ∷ getlines b',' (drop n s)

split_put :
    split_command (codes "put a b,c,d,PRIMARY")
    ≡ codes "PUT " ∷ codes "a b" ∷ codes "c" ∷ codes "d" ∷ codes "PRIMARY" ∷ []
unfolding split_command find_byte behind upper getlines
split_put = refl

no_space : split_command (codes "QUIT") ≡ [] ∷ codes "QUIT" ∷ []
unfolding split_command find_byte behind upper getlines
no_space = refl
