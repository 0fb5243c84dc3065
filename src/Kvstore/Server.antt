-- ===== src/Kvstore/Server.antt =====
-- The global state of one key-value server, its files and `handleAppend`, of kvstore.cc and helper.h.
pub mod Files
use distributed_cloud_storag.Prelude.{
  ℕ, ◌+◌, Bool, true, false, not, ◌&&◌, [], ◌∷◌, ◌++◌, ltb, if◌then◌else◌, length,
}
use distributed_cloud_storag.Prelude.Dict.{Bytes, Dict, insert, erase, lookup_or}
use distributed_cloud_storag.Prelude.Int.{ℤ, pos}
use distributed_cloud_storag.Text.{codes}
use distributed_cloud_storag.Text.Decimal.{to_string}
use distributed_cloud_storag.Kvstore.Config.{ServerInfo, ServerMap}
use distributed_cloud_storag.Kvstore.Table.{Table, Columns}

-- CHECKPOINTING_THRESHOLD
abbrev pub threshold : ℕ
threshold = 3

-- `files` holds the files of the storage folder by name; a file that is missing reads as empty,
-- since every file is opened for appending, which makes it, before it is read.
pub record Server : Type 0 where
  pub group : ℤ
  pub info : ServerInfo
  pub primary : ServerInfo
  pub servers : ServerMap
  pub enabled : Bool
  pub initializing : Bool
  pub reading : Bool
  pub writes : ℕ
  pub path : Bytes
  pub table : Table
  pub files : Dict Bytes

-- A server while it handles a command: the reply `msg` so far, and the world beyond its sockets.
pub record Context (W : Type 0) : Type 0 where
  pub server : Server
  pub msg : Bytes
  pub world : W

unfoldable pub read_file : Bytes → Dict Bytes → Bytes
read_file name files = lookup_or name [] files

unfoldable pub append_to_file : Bytes → Bytes → Dict Bytes → Dict Bytes
unfolding read_file
append_to_file name line files = insert name (read_file name files ++ (line ++ b'\n' ∷ [])) files

unfoldable pub truncate_file : Bytes → Dict Bytes → Dict Bytes
truncate_file name files = insert name [] files

abbrev pub checkpoint_of : Bytes → Bytes
checkpoint_of path = path ++ codes "-checkpoint"

abbrev pub dead_log_of : Bytes → Bytes
dead_log_of path = path ++ codes "-deadServerLog"

-- A write is logged unless it is the replay of the log.
unfoldable pub handle_append : Bytes → Server → Server
unfolding append_to_file
handle_append command s =
    if ltb 0 (length command) && not s.reading
    then record s {
      files = append_to_file (checkpoint_of s.path) command s.files;
      writes = s.writes + 1;
    }
    else s

-- The lines "row,column,value" of a row, and of the table.
unfoldable pub row_lines : Bytes → Columns → Bytes
row_lines row [] = []
row_lines row ((col, value) ∷ cols) =
    row ++ (b',' ∷ (col ++ (b',' ∷ (value ++ (b'\n' ∷ row_lines row cols)))))

unfoldable pub table_lines : Table → Bytes
unfolding row_lines
table_lines [] = []
table_lines ((row, cols) ∷ t) = row_lines row cols ++ table_lines t

-- The disk file is a time stamp and the table. It is written beside the old one, which it replaces;
-- then the log is emptied. `now` is what `time` returns.
unfoldable pub checkpoint_table : ℕ → Server → Server
unfolding table_lines truncate_file
checkpoint_table now s =
    let temp_filename = s.path ++ codes ".tmp" in
    let written =
      insert temp_filename (to_string (pos now) ++ b'\n' ∷ table_lines s.table) s.files in
    let renamed =
      insert s.path (read_file temp_filename written)
        (erase temp_filename (erase s.path written)) in
    record s { files = truncate_file (checkpoint_of s.path) renamed }
