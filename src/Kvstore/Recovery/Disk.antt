-- ===== src/Kvstore/Recovery/Disk.antt =====
-- Reading back a disk file that `checkpoint_table` wrote.
use distributed_cloud_storag.Prelude.{
  ℕ, ◌≡◌, refl, ◌∙◌, ◌&&◌, ◌⊎◌, inl, inr, Option, none, some, List, [], ◌∷◌, ◌++◌, append_assoc,
  arith, if◌then◌else◌, All-append,
}
use distributed_cloud_storag.Prelude.Dict.{Bytes, eqb, eqb_iff, lookup, Distinct, Entries}
use distributed_cloud_storag.Prelude.Int.{pos}
use distributed_cloud_storag.Text.Find.{Lacks}
use distributed_cloud_storag.Text.Getline.{getlines, getlines-append, getlines_last}
use distributed_cloud_storag.Text.Decimal.{to_string}
use distributed_cloud_storag.Text.Decimal.RoundTrip.{
  print_nat-digits, print_nat-ne-nil, Lacks-digits,
}
use distributed_cloud_storag.Kvstore.Table.{Table, Columns, get, set, value_at}
use distributed_cloud_storag.Kvstore.Table.Values.{
  value_at-set, Same, Clean, CleanColumn, CleanRow, IsClean, set-IsClean,
}
use distributed_cloud_storag.Kvstore.Server.{row_lines, table_lines}
use distributed_cloud_storag.Kvstore.Recovery.{load_tokens, load_lines}

-- What one line of the file does: an empty value leaves a line of two tokens, which is passed over.
abbrev load_entry : Bytes → Bytes → Bytes → Table → Table
load_entry row col [] t = t
load_entry row col (v ∷ vs) t = set t row col (v ∷ vs)

abbrev load_row : Bytes → Columns → Table → Table
load_row row [] t = t
load_row row ((col, value) ∷ cols) t = load_row row cols (load_entry row col value t)

abbrev load_table : Table → Table → Table
load_table [] t = t
load_table ((row, cols) ∷ rows) t = load_table rows (load_row row cols t)

abbrev entry_line : Bytes → Bytes → Bytes → Bytes
entry_line row col value = row ++ b',' ∷ (col ++ b',' ∷ value)

load_entry_line :
    (row col value : Bytes) (t : Table)
    → Clean row
    → Clean col
    → Clean value
    → load_tokens (getlines b',' (entry_line row col value)) t ≡ load_entry row col value t
unfolding load_tokens
load_entry_line row col [] t hr hc hv =
    rw (getlines-append b',' row (col ++ b',' ∷ []) hr.0, getlines-append b',' col [] hc.0)
      (unfold getlines in refl)
load_entry_line row col (v ∷ vs) t hr hc hv = rw (
  getlines-append b',' row (col ++ b',' ∷ (v ∷ vs)) hr.0,
  getlines-append b',' col (v ∷ vs) hc.0,
  getlines_last b',' (v ∷ vs) (λ e. cc) hv.0,
)

entry_line-Lacks :
    (row col value : Bytes)
    → Clean row
    → Clean col
    → Clean value
    → Lacks b'\n' (entry_line row col value)
entry_line-Lacks row col value hr hc hv =
    All-append _ row (b',' ∷ (col ++ b',' ∷ value)) hr.1
      (omega arith, All-append _ col (b',' ∷ value) hc.1 (omega arith, hv.1))

load_lines_cons :
    (line : Bytes) (lines : List Bytes) (t : Table)
    → load_lines (line ∷ lines) t ≡ load_lines lines (load_tokens (getlines b',' line) t)
unfolding load_lines
load_lines_cons line lines t = refl

load_row_lines :
    (row : Bytes) (cols : Columns) (rest : Bytes) (t : Table)
    → Clean row
    → Entries CleanColumn cols
    → load_lines (getlines b'\n' (row_lines row cols ++ rest)) t
      ≡ load_lines (getlines b'\n' rest) (load_row row cols t)
unfolding row_lines
load_row_lines row [] rest t hr h = refl
load_row_lines row ((col, value) ∷ cols) rest t hr ((hc, hv), h) =
    let line = entry_line row col value in
    let more = row_lines row cols ++ rest in
    let shape : row_lines row ((col, value) ∷ cols) ++ rest ≡ line ++ b'\n' ∷ more =
      simp append_assoc in
    rw
      (
        shape,
        getlines-append b'\n' line more (entry_line-Lacks row col value hr hc hv),
        load_lines_cons line (getlines b'\n' more) t,
        load_entry_line row col value t hr hc hv,
      )
      (load_row_lines row cols rest (load_entry row col value t) hr h)

load_table_lines :
    (rows t : Table)
    → Entries CleanRow rows
    → load_lines (getlines b'\n' (table_lines rows)) t ≡ load_table rows t
unfolding table_lines
load_table_lines [] t h = unfold getlines load_lines in refl
load_table_lines ((row, cols) ∷ rows) t ((hr, d, hc), h) =
    load_row_lines row cols (table_lines rows) t hr hc
    ∙ load_table_lines rows (load_row row cols t) h

-- An entry that is not empty wins over what was there.
abbrev kept : Option Bytes → Bytes → Bytes
kept none old = old
kept (some []) old = old
kept (some (v ∷ vs)) old = v ∷ vs

value_at-load_entry :
    (row col value : Bytes) (t : Table) (r c : Bytes)
    → value_at (load_entry row col value t) r c
      ≡ (if eqb row r && eqb col c then kept (some value) (value_at t r c) else value_at t r c)
value_at-load_entry row col [] t r c = ground arith
value_at-load_entry row col (v ∷ vs) t r c = value_at-set t row col (v ∷ vs) r c

value_at-load_row :
    (row : Bytes) (cols : Columns) (t : Table) (r c : Bytes)
    → Distinct cols
    → value_at (load_row row cols t) r c
      ≡ (if eqb row r then kept (lookup c cols) (value_at t r c) else value_at t r c)
unfolding lookup
value_at-load_row row [] t r c d = ground arith
value_at-load_row row ((col, value) ∷ cols) t r c (fresh, d) =
    value_at-load_row row cols (load_entry row col value t) r c d
    ∙ ground (arith, value_at-load_entry row col value t r c, eqb_iff col c)

value_at-load_table :
    (rows t : Table) (r c : Bytes)
    → IsClean rows
    → value_at (load_table rows t) r c ≡ kept (get rows r c) (value_at t r c)
unfolding get lookup
value_at-load_table [] t r c h = refl
value_at-load_table ((row, cols) ∷ rows) t r c ((fresh, ds), ((hr, d, hc), h)) =
    value_at-load_table rows (load_row row cols t) r c (ds, h)
    ∙ ground (arith, value_at-load_row row cols t r c d, eqb_iff row r)

-- What the disk file holds: nothing yet, or a checkpoint of a table.
abbrev pub Holds : Bytes → Table → Type 0
Holds text t =
    ((text ≡ []) × (t ≡ [])) ⊎ ((now : ℕ) × (text ≡ to_string (pos now) ++ b'\n' ∷ table_lines t))

-- The line with the time holds one token.
load_stamp :
    (now : ℕ) (rest : Bytes) (t : Table)
    → load_lines (getlines b'\n' (to_string (pos now) ++ b'\n' ∷ rest)) t
      ≡ load_lines (getlines b'\n' rest) t
unfolding load_tokens to_string
load_stamp now rest t =
    let digits = print_nat-digits now in
    rw (
      getlines-append b'\n' (to_string (pos now)) rest (Lacks-digits b'\n' _ refl digits),
      load_lines_cons (to_string (pos now)) (getlines b'\n' rest) t,
      getlines_last b',' (to_string (pos now)) (print_nat-ne-nil now)
          (Lacks-digits b',' _ refl digits),
    )

load_checkpoint :
    (rows : Table) (r c : Bytes)
    → IsClean rows
    → value_at (load_lines (getlines b'\n' (table_lines rows)) []) r c ≡ value_at rows r c
unfolding value_at
load_checkpoint rows r c h =
    rw (load_table_lines rows [] h.1)
      (value_at-load_table rows [] r c h ∙ unfold get lookup in ground arith)

-- Loading a disk file into an empty table gives the values of the table that was written, if its
-- rows and columns are distinct and its texts hold no comma and no line feed.
pub load_lines-Same :
    (text : Bytes) (t : Table)
    → Holds text t
    → IsClean t
    → Same (load_lines (getlines b'\n' text) []) t
load_lines-Same text t (inl (e, f)) h = λ r c. rw (e, f) (unfold getlines load_lines in refl)
load_lines-Same text t (inr (now, e)) h =
    λ r c. rw (e, load_stamp now (table_lines t) []) (load_checkpoint t r c h)

load_entry-IsClean :
    (row col value : Bytes) (t : Table)
    → Clean row
    → Clean col
    → Clean value
    → IsClean t
    → IsClean (load_entry row col value t)
load_entry-IsClean row col [] t hr hc hv h = h
load_entry-IsClean row col (v ∷ vs) t hr hc hv h = set-IsClean t row h col (v ∷ vs) hr hc hv

load_row-IsClean :
    (row : Bytes) (cols : Columns) (t : Table)
    → Clean row
    → Entries CleanColumn cols
    → IsClean t
    → IsClean (load_row row cols t)
load_row-IsClean row [] t hr hs h = h
load_row-IsClean row ((col, value) ∷ cols) t hr ((hc, hv), hs) h =
    load_row-IsClean row cols (load_entry row col value t) hr hs
      (load_entry-IsClean row col value t hr hc hv h)

load_table-IsClean :
    (rows t : Table) → Entries CleanRow rows → IsClean t → IsClean (load_table rows t)
load_table-IsClean [] t hs h = h
load_table-IsClean ((row, cols) ∷ rows) t ((hr, d, hc), hs) h =
    load_table-IsClean rows (load_row row cols t) hs (load_row-IsClean row cols t hr hc h)

pub load_lines-IsClean :
    (text : Bytes) (t : Table)
    → Holds text t
    → IsClean t
    → IsClean (load_lines (getlines b'\n' text) [])
load_lines-IsClean text t (inl (e, f)) h = rw e (unfold getlines load_lines in (tt, tt))
load_lines-IsClean text t (inr (now, e)) h =
    rw (e, load_stamp now (table_lines t) [], load_table_lines t [] h.1)
      (load_table-IsClean t [] h.1 (tt, tt))
