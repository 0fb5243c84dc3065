-- ===== src/Kvstore/Handle/Replies.antt =====
-- What GET reads, and what CPUT does to the entry that it names, on every branch.
use distributed_cloud_storag.Prelude.{
  ◌≡◌, ◌≢◌, sym, ap, ◌∙◌, false, ◌&&◌, List, [], ◌∷◌, ◌++◌, Option, none, some, arith,
  if◌then◌else◌,
}
use distributed_cloud_storag.Prelude.Dict.{Bytes, eqb, eqb_refl, eqb_ne}
use distributed_cloud_storag.Text.{codes}
use distributed_cloud_storag.Kvstore.Table.{Table, get, touch, value_at, get-set}
use distributed_cloud_storag.Kvstore.Server.{Context, handle_append}
use distributed_cloud_storag.Kvstore.Forward.{Net}
use distributed_cloud_storag.Kvstore.Handle.{
  Origin, from_primary, ok_reply, local_cput, handle_get, handle_cput, handle_command,
}

-- The reply to a GET.
abbrev pub get_reply : Option Bytes → Bytes
get_reply none = codes "-ERR Not Found\r\n"
get_reply (some value) = codes "+OK " ++ (value ++ codes "\r\n")

abbrev pub get_params : Bytes → Bytes → List Bytes
get_params row col = codes "GET " ∷ row ∷ col ∷ []

abbrev pub cput_params : Bytes → Bytes → Bytes → Bytes → List Bytes
cput_params row col old new = codes "CPUT " ∷ row ∷ col ∷ old ∷ new ∷ []

module _ {W : Type 0} (net : Net W) where
  pub handle_command-get :
      (row col : Bytes) (o : Origin) (c : Context W)
      → handle_command net (get_params row col) o c
        ≡ some (record c { msg = get_reply (get c.server.table row col) })
  unfolding handle_command eqb handle_get
  handle_command-get row col o c = ground arith

  -- A replica that is not starting runs the primary's CPUT on itself.
  handle_command-cput :
      (row col old new : Bytes) (c : Context W)
      → c.server.initializing ≡ false
      → c.server.info.is_primary ≡ false
      → handle_command net (cput_params row col old new) from_primary c
        ≡ some (local_cput (cput_params row col old new) c)
  unfolding handle_command eqb handle_cput
  handle_command-cput row col old new c a b = ground arith

-- What CPUT makes of the entries of a table.
abbrev pub cput_entry : Bytes → Bytes → Bytes → Bytes → Table → Bytes → Bytes → Option Bytes
cput_entry row col old new t r c =
    if eqb row r && eqb col c
    then some (if eqb (value_at t row col) old then new else value_at t row col)
    else get t r c

get-touch :
    (t : Table) (row col r c : Bytes)
    → get (touch t row col) r c
      ≡ (if eqb row r && eqb col c then some (value_at t row col) else get t r c)
unfolding touch
get-touch t row col r c = get-set t row col (value_at t row col) r c

get-local_cput :
    {W : Type 0} (row col old new : Bytes) (c : Context W) (r k : Bytes)
    → get (local_cput (cput_params row col old new) c).server.table r k
      ≡ cput_entry row col old new c.server.table r k
unfolding local_cput handle_append
get-local_cput row col old new c r k = ground (
  arith,
  get-set (touch c.server.table row col) row col new r k,
  get-touch c.server.table row col r k,
)

msg-local_cput :
    {W : Type 0} (row col old new : Bytes) (c : Context W)
    → (local_cput (cput_params row col old new) c).msg ≡ (
        if eqb (value_at c.server.table row col) old
        then ok_reply
        else codes "-ERR Conditional Write Failed\r\n")
unfolding local_cput
msg-local_cput row col old new c = ground arith

value_at-missing : (t : Table) (row col : Bytes) → get t row col ≡ none → value_at t row col ≡ []
unfolding value_at
value_at-missing t row col h = rw (h, value_at)

module _ {W : Type 0} (net : Net W) (row col old new : Bytes) (c : Context W) where
  -- A replica that is told of a CPUT by its primary stores the new value and answers "+OK" exactly
  -- when the stored value is the old one, where a missing entry counts as the empty text; otherwise
  -- it answers with an error and keeps the value. Either way the entry exists afterwards, and every
  -- other entry is as it was.
  pub cput_lem :
      c.server.initializing ≡ false
      → c.server.info.is_primary ≡ false
      → (c' : Context W) × (handle_command net (cput_params row col old new) from_primary c
          ≡ some c')
        × (c'.msg ≡ (
            if eqb (value_at c.server.table row col) old
            then ok_reply
            else codes "-ERR Conditional Write Failed\r\n"))
        × ((r k : Bytes) → get c'.server.table r k ≡ cput_entry row col old new c.server.table r k)
  cput_lem a b = (
    local_cput (cput_params row col old new) c,
    handle_command-cput net row col old new c a b,
    msg-local_cput row col old new c,
    get-local_cput row col old new c,
  )

  -- So a CPUT from the primary with an old value that is not empty, which fails on a missing entry of
  -- a replica, makes that entry: where a GET said "-ERR Not Found" before, it
  -- says "+OK " with an empty value after the error.
  pub failed_cput_creates :
      c.server.initializing ≡ false
      → c.server.info.is_primary ≡ false
      → get c.server.table row col ≡ none
      → old ≢ []
      → (c' : Context W) × (handle_command net (cput_params row col old new) from_primary c
          ≡ some c')
        × (c'.msg ≡ codes "-ERR Conditional Write Failed\r\n")
        × (handle_command net (get_params row col) from_primary c
            ≡ some (record c { msg = codes "-ERR Not Found\r\n" }))
        × (handle_command net (get_params row col) from_primary c'
            ≡ some (record c' { msg = codes "+OK \r\n" }))
  failed_cput_creates a b missing ne =
      let (c', e, m, g) = cput_lem a b in
      let empty = value_at-missing c.server.table row col missing in
      let fails : eqb (value_at c.server.table row col) old ≡ false =
        rw empty (eqb_ne [] old (λ x. ne (sym x))) in
      let made : get c'.server.table row col ≡ some [] =
        g row col ∙ rw (eqb_refl row, eqb_refl col, fails, empty) in
      (
        c',
        e,
        m ∙ rw fails,
        handle_command-get net row col from_primary c
            ∙ ap (λ v. some (record c { msg = get_reply v })) missing,
        handle_command-get net row col from_primary c'
            ∙ ap (λ v. some (record c' { msg = get_reply v })) made,
      )
