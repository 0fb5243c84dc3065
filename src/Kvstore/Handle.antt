-- ===== src/Kvstore/Handle.antt =====
-- `handleCommand` of backend/kvstore/kvstore.cc, one function for each verb.
pub mod Replies
pub mod Relay
use distributed_cloud_storag.Prelude.{
  ℕ, zero, Bool, true, false, List, [], ◌∷◌, ◌++◌, Option, none, some, leb, ltb, ◌==◌,
  if◌then◌else◌, length, get_elem?, get_or,
}
use distributed_cloud_storag.Prelude.Dict.{Bytes, eqb}
use distributed_cloud_storag.Text.{codes}
use distributed_cloud_storag.Text.Find.{find}
use distributed_cloud_storag.Kvstore.Table
use distributed_cloud_storag.Kvstore.Table.{Columns, Table}
use distributed_cloud_storag.Kvstore.Server.{Context, handle_append}
use distributed_cloud_storag.Kvstore.Forward.{Net, forward_to_all, forward_to_primary}

-- Who sent a command: the three flags of the source, of which every call sets exactly one.
pub data Origin : Type 0 where
  from_primary from_secondary from_frontend : Origin

unfoldable is_frontend : Origin → Bool
is_frontend from_frontend = true
is_frontend _ = false

unfoldable pub is_primary : Origin → Bool
is_primary from_primary = true
is_primary _ = false

-- parameters[i], where the size was tested
abbrev pub arg : List Bytes → ℕ → Bytes
arg ps i = get_or ps i []

abbrev pub ok_reply : Bytes
ok_reply = codes "+OK\r\n"

-- The commands as they are logged, from the parameters that count.
abbrev put_line : List Bytes → Bytes
put_line ps = arg ps 0 ++ (arg ps 1 ++ (b',' ∷ (arg ps 2 ++ (b',' ∷ arg ps 3))))

abbrev cput_line : List Bytes → Bytes
cput_line ps =
    arg ps 0 ++ (arg ps 1 ++ (b',' ∷ (arg ps 2 ++ (b',' ∷ (arg ps 3 ++ (b',' ∷ arg ps 4))))))

abbrev delete_line : List Bytes → Bytes
delete_line ps = arg ps 0 ++ (arg ps 1 ++ (b',' ∷ arg ps 2))

-- The columns of a row whose name starts with the third parameter. `none` is a read past the end
-- of the parameters, which happens only where there is something to compare.
unfoldable pub list_columns : List Bytes → Columns → Option Bytes
list_columns ps [] = some []
list_columns ps ((col, value) ∷ cols) =
    let rest = list_columns ps cols in
    elim (get_elem? ps 2) [
      | none ↦ none
      | some prefix ↦ elim rest [
        | none ↦ none
        | some keys ↦ elim (find prefix col) [
          | some zero ↦ some (col ++ (b'\n' ∷ keys))
          | _ ↦ some keys
        ]
      ]
    ]

unfoldable pub list_rows : List Bytes → Table → Option Bytes
unfolding list_columns
list_rows ps [] = some []
list_rows ps ((row, cols) ∷ t) =
    let rest = list_rows ps t in
    elim (get_elem? ps 1) [
      | none ↦ none
      | some wanted ↦
          if eqb row wanted
          then elim (list_columns ps cols) [
            | none ↦ none
            | some here ↦ elim rest [ none ↦ none | some keys ↦ some (here ++ keys) ]
          ]
          else rest
    ]

module _ {W : Type 0} where
  unfoldable pub say : Bytes → Context W → Context W
  say m c = record c { msg = m }

  -- What a server does to its own table, and to its log.
  unfoldable pub local_put : List Bytes → Context W → Context W
  unfolding say
  local_put ps c = say ok_reply (record c {
    server =
        handle_append (put_line ps)
          (record c.server { table = Table.set c.server.table (arg ps 1) (arg ps 2) (arg ps 3) });
  })

  -- The comparison reads table[row][col], and so makes a missing entry on either branch.
  unfoldable pub local_cput : List Bytes → Context W → Context W
  unfolding say
  local_cput ps c =
      let t = c.server.table in
      let touched = Table.touch t (arg ps 1) (arg ps 2) in
      if eqb (Table.value_at t (arg ps 1) (arg ps 2)) (arg ps 3)
      then say ok_reply (record c {
        server =
            handle_append (cput_line ps)
              (record c.server { table = Table.set touched (arg ps 1) (arg ps 2) (arg ps 4) });
      })
      else say (codes "-ERR Conditional Write Failed\r\n")
          (record c { server = record c.server { table = touched } })

  unfoldable pub local_delete : List Bytes → Context W → Context W
  unfolding say
  local_delete ps c = say ok_reply (record c {
    server =
        handle_append (delete_line ps)
          (record c.server { table = Table.remove c.server.table (arg ps 1) (arg ps 2) });
  })

  -- The primary writes to itself once every live secondary has answered +OK.
  unfoldable pub after_forward : Bool × Context W → (Context W → Context W) → Bytes → Context W
  after_forward (true, c) write error = write c
  after_forward (false, c) write error = say error c

  unfoldable pub after_relay : Bool × Context W → Bytes → Context W
  after_relay (true, c) error = say ok_reply c
  after_relay (false, c) error = say error c

  unfoldable pub handle_get : List Bytes → Context W → Context W
  unfolding say
  handle_get ps c =
      if length ps == 3
      then elim (Table.get c.server.table (arg ps 1) (arg ps 2)) [
        | some value ↦ say (codes "+OK " ++ (value ++ codes "\r\n")) c
        | none ↦ say (codes "-ERR Not Found\r\n") c
      ]
      else say (codes "-ERR Invalid GET parameters\r\n") c

  unfoldable pub handle_list : List Bytes → Context W → Option (Context W)
  unfolding list_rows say
  handle_list ps c = elim (list_rows ps c.server.table) [
    | none ↦ none
    | some keys ↦ some (
        say (if ltb 0 (length keys) then keys ++ codes "\r\n" else codes "-ERR Nothing Found\r\n")
          c)
  ]

module _ {W : Type 0} (net : Net W) where
  -- A secondary that is asked by a secondary leaves the reply as it was.
  unfoldable pub handle_put : List Bytes → Origin → Context W → Context W
  unfolding after_forward after_relay is_frontend is_primary
  handle_put ps origin c =
      if leb 4 (length ps)
      then if c.server.initializing
        then local_put ps c
        else if c.server.info.is_primary
        then after_forward (forward_to_all net (put_line ps ++ codes ",PRIMARY\r\n") c)
            (local_put ps) (codes "-ERR Writing PUT values to secondary\r\n")
        else if is_frontend origin
        then after_relay (forward_to_primary net (put_line ps ++ codes ",SECONDARY\r\n") c)
            (codes "-ERR Returned by Server while writing PUT Values\r\n")
        else if is_primary origin
        then local_put ps c
        else c
      else say (codes "-ERR Invalidp PUT parameters\r\n") c

  unfoldable pub handle_cput : List Bytes → Origin → Context W → Context W
  unfolding after_forward after_relay is_frontend is_primary
  handle_cput ps origin c =
      if leb 5 (length ps)
      then if c.server.initializing
        then local_cput ps c
        else if c.server.info.is_primary
        then after_forward (forward_to_all net (cput_line ps ++ codes ",PRIMARY\r\n") c)
            (local_cput ps) (codes "-ERR Writing CPUT values to secondary\r\n")
        else if is_frontend origin
        then after_relay (forward_to_primary net (cput_line ps ++ codes ",SECONDARY\r\n") c)
            (codes "-ERR Error Editing the values\r\n")
        else if is_primary origin
        then local_cput ps c
        else c
      else say (codes "-ERR Invalid CPUT parameters\r\n") c

  unfoldable pub handle_delete : List Bytes → Origin → Context W → Context W
  unfolding after_forward after_relay is_frontend is_primary
  handle_delete ps origin c =
      if leb 3 (length ps)
      then if c.server.initializing
        then local_delete ps c
        else if c.server.info.is_primary
        then after_forward (forward_to_all net (delete_line ps ++ codes ",PRIMARY\r\n") c)
            (local_delete ps) (codes "-ERR DELETING values from all secondary\r\n")
        else if is_frontend origin
        then after_relay (forward_to_primary net (delete_line ps ++ codes ",SECONDARY\r\n") c)
            (codes "-ERR Error Deleting Values\r\n")
        else if is_primary origin
        then local_delete ps c
        else c
      else say (codes "-ERR Invalid DELETE parameters\r\n") c

  -- `none` is undefined behaviour: LIST with a parameter missing.
  unfoldable pub handle_command : List Bytes → Origin → Context W → Option (Context W)
  unfolding handle_put handle_get handle_cput handle_delete handle_list
  handle_command ps origin c =
      if eqb (arg ps 0) (codes "PUT ")
      then some (handle_put ps origin c)
      else if eqb (arg ps 0) (codes "GET ")
      then some (handle_get ps c)
      else if eqb (arg ps 0) (codes "CPUT ")
      then some (handle_cput ps origin c)
      else if eqb (arg ps 0) (codes "DELETE ")
      then some (handle_delete ps origin c)
      else if eqb (arg ps 0) (codes "LIST ")
      then handle_list ps c
      else some (say (codes "-ERR Unknown command\r\n") c)
