-- ===== src/Kvstore/Server/Files.antt =====
-- The files of a server are told apart by the ends of their names.
use distributed_cloud_storag.Prelude.{
  ℕ, ◌≡◌, refl, sym, ap, ◌∙◌, [], ◌∷◌, ◌++◌, append-nil, arith, if◌then◌else◌,
}
use distributed_cloud_storag.Prelude.Dict.{
  Bytes, Dict, eqb, eqb_iff, insert, erase, lookup_or, lookup-insert, lookup-erase,
}
use distributed_cloud_storag.Prelude.Int.{pos}
use distributed_cloud_storag.Text.{codes}
use distributed_cloud_storag.Text.Decimal.{to_string}
use distributed_cloud_storag.Kvstore.Server.{
  Server, read_file, checkpoint_of, dead_log_of, checkpoint_table, table_lines, truncate_file,
  append_to_file,
}

pub eqb-append : (p a b : Bytes) → eqb (p ++ a) (p ++ b) ≡ eqb a b
unfolding eqb
eqb-append [] a b = refl
eqb-append (x ∷ p) a b = ground (arith, eqb-append p a b)

eqb_own : (p a : Bytes) → eqb p (p ++ a) ≡ eqb [] a
eqb_own p a = ap (λ t. eqb t (p ++ a)) (sym (append-nil p)) ∙ eqb-append p [] a

pub eqb_longer : (p a : Bytes) → eqb (p ++ a) p ≡ eqb a []
eqb_longer p a = ap (eqb (p ++ a)) (sym (append-nil p)) ∙ eqb-append p a []

read_file-insert :
    (name other text : Bytes) (files : Dict Bytes)
    → read_file other (insert name text files)
      ≡ (if eqb name other then text else read_file other files)
unfolding read_file lookup_or
read_file-insert name other text files = ground (arith, lookup-insert name other text files)

read_file-erase :
    (name other : Bytes) (files : Dict Bytes)
    → read_file other (erase name files) ≡ (if eqb name other then [] else read_file other files)
unfolding read_file lookup_or
read_file-erase name other files = ground (arith, lookup-erase name other files)

pub read_file-truncate :
    (name other : Bytes) (files : Dict Bytes)
    → read_file other (truncate_file name files)
      ≡ (if eqb name other then [] else read_file other files)
unfolding truncate_file
read_file-truncate name other files = read_file-insert name other [] files

pub read_file-append_to_file :
    (name other line : Bytes) (files : Dict Bytes)
    → read_file other (append_to_file name line files) ≡ (
        if eqb name other
        then read_file name files ++ (line ++ b'\n' ∷ [])
        else read_file other files)
unfolding append_to_file
read_file-append_to_file name other line files =
    read_file-insert name other (read_file name files ++ (line ++ b'\n' ∷ [])) files

module _ (now : ℕ) (s : Server) where
  -- After a checkpoint the disk file is the time and the table.
  pub read_file-checkpoint_disk :
      read_file s.path (checkpoint_table now s).files
      ≡ to_string (pos now) ++ b'\n' ∷ table_lines s.table
  unfolding checkpoint_table eqb
  read_file-checkpoint_disk = rw (
    read_file-truncate,
    eqb_longer s.path (codes "-checkpoint"),
    read_file-insert,
    (eqb_iff s.path s.path).1 refl,
    read_file-insert,
    (eqb_iff (s.path ++ codes ".tmp") (s.path ++ codes ".tmp")).1 refl,
  )

  -- The log is empty then.
  pub read_file-checkpoint_log :
      read_file (checkpoint_of s.path) (checkpoint_table now s).files ≡ []
  unfolding checkpoint_table
  read_file-checkpoint_log =
      rw (read_file-truncate, (eqb_iff (checkpoint_of s.path) (checkpoint_of s.path)).1 refl)

  -- The other fields stand.
  checkpoint_table-table : (checkpoint_table now s).table ≡ s.table
  unfolding checkpoint_table
  checkpoint_table-table = refl

-- No other file is touched but the temporary one.
pub read_file-checkpoint_dead :
    (now : ℕ) (s : Server)
    → read_file (dead_log_of s.path) (checkpoint_table now s).files
      ≡ read_file (dead_log_of s.path) s.files
unfolding checkpoint_table eqb
read_file-checkpoint_dead now s = rw (
  read_file-truncate,
  eqb-append s.path (codes "-checkpoint") (codes "-deadServerLog"),
  read_file-insert,
  eqb_own s.path (codes "-deadServerLog"),
  read_file-erase,
  eqb-append s.path (codes ".tmp") (codes "-deadServerLog"),
  read_file-erase,
  eqb_own s.path (codes "-deadServerLog"),
  read_file-insert,
  eqb-append s.path (codes ".tmp") (codes "-deadServerLog"),
)
