-- ===== src/Frontend/Http/Files/Renaming.antt =====
-- What renaming and moving a file does to the store.
use distributed_cloud_storag.Prelude.{
  ℕ, ◌≡◌, ◌≢◌, ◌∙◌, false, ◌&&◌, [], ◌++◌, append_assoc, none, some, arith, ltb, if◌then◌else◌,
  length, All-append,
}
use distributed_cloud_storag.Prelude.Dict.{Bytes, eqb}
use distributed_cloud_storag.Text.{codes}
use distributed_cloud_storag.Kvstore.Table.{Table, get, get-set, get-remove}
use distributed_cloud_storag.Kvstore.Server.{Server}
use distributed_cloud_storag.Kvstore.Framing.Frames.{crlf}
use distributed_cloud_storag.Kvstore.Handle.Replies.{get_reply}
use distributed_cloud_storag.Kvstore.Recovery.Writes.{put, delete, line, apply}
use distributed_cloud_storag.Kvstore.Cluster.Peer.{Carried}
use distributed_cloud_storag.Kvstore.Alone.{IsAlone}
use distributed_cloud_storag.Frontend.Http.State.{Worker, without_ok}
use distributed_cloud_storag.Frontend.Http.Files.{
  get_command, put_command, delete_command, moved_to, move_file,
}
use distributed_cloud_storag.Frontend.Http.Store.{
  Codec, one_server, ask_server, ask_server-write, ask_server-get,
}

abbrev pub file_key : Bytes → Bytes
file_key path = codes "/content/" ++ path

without_ok-get_reply : (v : Bytes) → without_ok (get_reply (some v)) ≡ some (v ++ codes "\r\n")
unfolding without_ok
without_ok-get_reply v =
    let long : ltb (length (get_reply (some v))) 4 ≡ false = ground arith in
    λ i. if long i then none else some (v ++ codes "\r\n")

key-Carried : (path : Bytes) → Carried path → Carried (file_key path)
key-Carried path (c, r) = (
  All-append _ (codes "/content/") path (omega arith) c,
  All-append _ (codes "/content/") path (omega arith) r,
)

get-moved :
    (t : Table) (user old new v r k : Bytes)
    → get (apply (delete user old) (apply (put user new v) t)) r k ≡ (
        if eqb user r && eqb old k
        then none
        else if eqb user r && eqb new k
        then some v
        else get t r k)
get-moved t user old new v r k =
    get-remove (apply (put user new v) t) user old r k
    ∙ (λ i. if eqb user r && eqb old k then none else get-set t user new v r k i)

module _ (now : ℕ) (codec : Codec) where
  -- A file that is in the store is renamed or moved in three commands, at a server that is alone,
  -- where neither user, paths nor content have a comma or "\r" and the content is not empty. Then it
  -- is not under its old name, also where the new name is the same one, and then it is lost; it is
  -- under the new name if that is another one; and nothing else of the store is changed.
  pub move_file_lem :
      (path new_path v : Bytes) (c : Worker) (s : Server)
      → Carried c.username
      → Carried path
      → Carried new_path
      → Carried v
      → v ≢ []
      → IsAlone s
      → get s.table c.username (file_key path) ≡ some v
      → (s' : Server) × (move_file (one_server now codec) path new_path c s ≡ some (c, s'))
        × ((r k : Bytes)
            → get s'.table r k ≡ (
                if eqb c.username r && eqb (file_key path) k
                then none
                else if eqb c.username r && eqb (file_key new_path) k
                then some v
                else get s.table r k))
  unfolding move_file moved_to get_command delete_command put_command
  move_file_lem path new_path v c s hu hp hn hv full a stored =
      let u = c.username in
      let kp = key-Carried path hp in
      let kn = key-Carried new_path hn in
      let (s₁, e₁, (t₁, a₁)) = ask_server-get now u (file_key path) s hu kp (λ z. cc) a in
      let (s₂, e₂, (t₂, a₂)) =
        ask_server-write now (put u (file_key new_path) v) s₁ ((hu, kn, hv), full) a₁ in
      let (s₃, e₃, (t₃, a₃)) =
        ask_server-write now (delete u (file_key path)) s₂ ((hu, kp), (λ z. cc)) a₂ in
      let site = one_server now codec in
      let put_shape : put_command u new_path (v ++ codes "\r\n")
          ≡ line (put u (file_key new_path) v) ++ crlf [] =
        simp append_assoc in
      let delete_shape : delete_command u path ≡ line (delete u (file_key path)) ++ crlf [] =
        simp append_assoc in
      (
        s₃,
        (λ i. moved_to site new_path (delete_command u path) u c (without_ok (e₁ i).0) (e₁ i).1)
            ∙ (λ i.
                moved_to site new_path (delete_command u path) u c
                  (without_ok (get_reply (stored i))) s₁)
            ∙ (λ i.
                moved_to site new_path (delete_command u path) u c (without_ok-get_reply v i) s₁)
            ∙ (λ i.
                some (c, (ask_server now (delete_shape i) (ask_server now (put_shape i) s₁).1).1))
            ∙ (λ i.
                some (c, (ask_server now (line (delete u (file_key path)) ++ crlf []) (e₂ i).1).1))
            ∙ (λ i. some (c, (e₃ i).1)),
        λ r k.
            (λ i. get (t₃ i) r k)
            ∙ (λ i. get (apply (delete u (file_key path)) (t₂ i)) r k)
            ∙ (λ i.
                get (apply (delete u (file_key path)) (apply (put u (file_key new_path) v) (t₁ i)))
                  r k)
            ∙ get-moved s.table u (file_key path) (file_key new_path) v r k,
      )
