-- ===== src/Kvstore/Admin.antt =====
-- `adminConsoleSignalHandler` of backend/kvstore/kvstore.cc.
use distributed_cloud_storag.Prelude.{
  ℕ, suc, ◌+◌, ◌^◌, Bool, true, false, not, ◌&&◌, List, [], ◌∷◌, ◌++◌, Option, none, some, leb, ltb,
  ◌==◌, if◌then◌else◌, length, get_elem?,
}
use distributed_cloud_storag.Prelude.Dict.{Bytes, eqb}
use distributed_cloud_storag.Prelude.Int.{ℤ, pos, negsuc}
use distributed_cloud_storag.Text.{codes, upper}
use distributed_cloud_storag.Text.Find.{find_byte}
use distributed_cloud_storag.Text.Decimal.{stoi}
use distributed_cloud_storag.Kvstore.Split.{split_command}
use distributed_cloud_storag.Kvstore.Table
use distributed_cloud_storag.Kvstore.Table.{Columns, Table}
use distributed_cloud_storag.Kvstore.Server.{Context}
use distributed_cloud_storag.Kvstore.Forward.{Net}
use distributed_cloud_storag.Kvstore.Handle.{arg}
use distributed_cloud_storag.Kvstore.Recovery.{initialize}
use distributed_cloud_storag.Kvstore.Framing.{feed}

-- count >= skip && count < skip + 3
unfoldable in_window : ℤ → ℕ → Bool
in_window (pos skip) count = leb skip count && ltb count (skip + 3)
in_window (negsuc n) count = ltb (count + n) 2

-- The keys of a row from the `count`-th entry on that lie in the window, and the count behind them.
unfoldable window_columns : ℤ → Bytes → Columns → ℕ → Bytes × ℕ
unfolding in_window
window_columns skip row [] count = ([], count)
window_columns skip row ((col, value) ∷ cols) count =
    let (keys, after) = window_columns skip row cols (suc count) in
    (if in_window skip count then row ++ (b',' ∷ (col ++ (b'\n' ∷ keys))) else keys, after)

unfoldable window_rows : ℤ → Table → ℕ → Bytes
unfolding window_columns
window_rows skip [] count = []
window_rows skip ((row, cols) ∷ t) count =
    let (keys, after) = window_columns skip row cols count in keys ++ window_rows skip t after

unfoldable pub get_reply : List Bytes → Table → Bytes
get_reply ps t =
    if length ps == 3
    then elim (Table.get t (arg ps 1) (arg ps 2)) [
      | some value ↦ codes "+OK " ++ (value ++ codes "\r\n")
      | none ↦ codes "-ERR Not Found\r\n"
    ]
    else codes "-ERR Invalid GET parameters\r\n"

-- `none`: no parameter is there, `stoi` throws, or `skip + 3` overflows.
unfoldable get_all_reply : List Bytes → Table → Option Bytes
unfolding window_rows
get_all_reply ps t = elim (get_elem? ps 1) [
  | none ↦ none
  | some text ↦ elim (stoi text) [
    | none ↦ none
    | some skip ↦ elim skip [
      | pos n ↦
          if ltb (n + 3) (2 ^ 31)
          then some (codes "+OK\n" ++ (window_rows (pos n) t 0 ++ codes "\r\n"))
          else none
      | negsuc n ↦ some (codes "+OK\n" ++ (window_rows (negsuc n) t 0 ++ codes "\r\n"))
    ]
  ]
]

module _ {W : Type 0} (net : Net W) (now : ℕ) where
  -- A server that is enabled again reads its files first.
  unfoldable enable : Context W → Option (Context W)
  enable c =
      let s = record c.server { enabled = true; initializing = true } in
      elim (initialize net now (record c { server = s })) [
        | none ↦ none
        | some c' ↦ some (record c' { server = record c'.server { initializing = false } })
      ]

  -- One command of the admin console, and its reply.
  unfoldable admin_dispatch : Bytes → Context W × List Bytes → Option (Context W × List Bytes)
  unfolding get_reply get_all_reply
  admin_dispatch command (c, sent) =
      let commands : List Bytes = elim (find_byte b' ' command) [
        | none ↦ []
        | some i ↦ split_command command
      ] in
      let verb = upper (if ltb 0 (length commands) then arg commands 0 else command) in
      if eqb verb (codes "ENABLE") && not c.server.enabled
      then elim (enable c) [ none ↦ none | some c' ↦ some (c', sent ++ codes "+OK\r\n" ∷ []) ]
      else if eqb verb (codes "DISABLE") && c.server.enabled
      then some
          (record c { server = record c.server { enabled = false } }, sent ++ codes "+OK\r\n" ∷ [])
      else if eqb verb (codes "GETALL ")
      then elim (get_all_reply commands c.server.table) [
        | none ↦ none
        | some reply ↦ some (c, sent ++ reply ∷ [])
      ]
      else if eqb verb (codes "GET ")
      then some (c, sent ++ get_reply commands c.server.table ∷ [])
      else some (c, sent ++ codes "-ERR Invalid Command\r\n" ∷ [])

  -- One connection: one read, with a command of its own.
  unfoldable admin_receive : Bytes → Context W → Option (Context W × List Bytes)
  admin_receive bytes c = elim (feed admin_dispatch bytes [] (c, [])) [
    | none ↦ none
    | some (command, result) ↦ some result
  ]
