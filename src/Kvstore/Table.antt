-- ===== src/Kvstore/Table.antt =====
-- The in-memory `table` of backend/kvstore/helper.h and what `checkpoint_table` writes of it.
pub mod Values
use distributed_cloud_storag.Prelude.{
  ◌≡◌, refl, ap, Bool, Option, none, some, List, [], ◌∷◌, ◌++◌, arith, if◌then◌else◌, ◌&&◌, or_else,
}
use distributed_cloud_storag.Prelude.Dict.{
  Bytes, Dict, eqb, eqb_iff, lookup, insert, erase, lookup_or, lookup-insert, lookup-erase,
  Distinct, insert-Distinct, erase-Distinct,
}

abbrev pub Columns : Type 0
Columns = Dict Bytes

abbrev pub Table : Type 0
Table = Dict Columns

-- The value that is stored at a row and a column.
unfoldable pub get : Table → Bytes → Bytes → Option Bytes
get t row col = elim (lookup row t) [ none ↦ none | some cols ↦ lookup col cols ]

-- table[row][col] = value
unfoldable pub set : Table → Bytes → Bytes → Bytes → Table
set t row col value = insert row (insert col value (lookup_or row [] t)) t

-- table[row].erase(col), which makes the row if it is missing
unfoldable pub remove : Table → Bytes → Bytes → Table
remove t row col = insert row (erase col (lookup_or row [] t)) t

-- table[row][col], which is the empty text where there is no such entry
unfoldable pub value_at : Table → Bytes → Bytes → Bytes
unfolding get
value_at t row col = elim (get t row col) [ none ↦ [] | some v ↦ v ]

-- What reading table[row][col] leaves behind: a missing entry is made, with the empty text.
unfoldable pub touch : Table → Bytes → Bytes → Table
unfolding value_at set
touch t row col = set t row col (value_at t row col)

pub get-set :
    (t : Table) (row col value r c : Bytes)
    → get (set t row col value) r c ≡ (if eqb row r && eqb col c then some value else get t r c)
unfolding get set lookup_or lookup
get-set t row col value r c = ground (
  arith,
  eqb_iff row r,
  lookup-insert row r (insert col value (lookup_or row [] t)) t,
  lookup-insert col c value (lookup_or row [] t),
)

pub get-remove :
    (t : Table) (row col r c : Bytes)
    → get (remove t row col) r c ≡ (if eqb row r && eqb col c then none else get t r c)
unfolding get remove lookup_or lookup
get-remove t row col r c = ground (
  arith,
  eqb_iff row r,
  lookup-insert row r (erase col (lookup_or row [] t)) t,
  lookup-erase col c (lookup_or row [] t),
)
