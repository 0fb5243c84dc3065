-- ===== src/Kvstore/Table/Values.antt =====
-- A table read by `value_at`, for which a missing entry and an empty one are the same, and the
-- well-formed tables.
use distributed_cloud_storag.Prelude.{◌≡◌, ◌&&◌, [], arith, if◌then◌else◌, inl, inr, Option-cases}
use distributed_cloud_storag.Prelude.Dict.{
  Bytes, eqb, eqb_iff, lookup, insert, erase, lookup_or, Distinct, insert-Distinct, erase-Distinct,
  Entries, insert-Entries, erase-Entries, lookup-Entries,
}
use distributed_cloud_storag.Text.Find.{Lacks}
use distributed_cloud_storag.Kvstore.Table.{
  Table, Columns, get, set, remove, value_at, touch, get-set, get-remove,
}

pub value_at-set :
    (t : Table) (row col value r c : Bytes)
    → value_at (set t row col value) r c
      ≡ (if eqb row r && eqb col c then value else value_at t r c)
unfolding value_at
value_at-set t row col value r c = ground (arith, get-set t row col value r c)

pub value_at-remove :
    (t : Table) (row col r c : Bytes)
    → value_at (remove t row col) r c ≡ (if eqb row r && eqb col c then [] else value_at t r c)
unfolding value_at
value_at-remove t row col r c = ground (arith, get-remove t row col r c)

pub value_at-touch :
    (t : Table) (row col r c : Bytes) → value_at (touch t row col) r c ≡ value_at t r c
unfolding touch
value_at-touch t row col r c =
    ground (arith, value_at-set t row col (value_at t row col) r c, eqb_iff row r, eqb_iff col c)

-- Two tables that no reading of values tells apart.
abbrev pub Same : Table → Table → Type 0
Same t u = (r c : Bytes) → value_at t r c ≡ value_at u r c

-- No comma and no line feed, which end a field and a line of the files.
abbrev pub Clean : Bytes → Type 0
Clean s = Lacks b',' s × Lacks b'\n' s

abbrev pub CleanColumn : Bytes → Bytes → Type 0
CleanColumn col value = Clean col × Clean value

abbrev pub CleanRow : Bytes → Columns → Type 0
CleanRow row cols = Clean row × Distinct cols × Entries CleanColumn cols

-- Rows and columns are distinct, and every text can be stored.
abbrev pub IsClean : Table → Type 0
IsClean t = Distinct t × Entries CleanRow t

module _ (t : Table) (row : Bytes) (h : IsClean t) where
  columns_clean : Distinct (lookup_or row [] t) × Entries CleanColumn (lookup_or row [] t)
  unfolding lookup_or
  columns_clean = elim (Option-cases (lookup row t)) [
    | inl e ↦ rw (e, lookup_or) (tt, tt)
    | inr (cols, e) ↦ let p = lookup-Entries CleanRow row t h.1 e in rw (e, lookup_or) (p.1, p.2)
  ]

  pub set-IsClean :
      (col value : Bytes) → Clean row → Clean col → Clean value → IsClean (set t row col value)
  unfolding set
  set-IsClean col value hr hc hv =
      let cols = lookup_or row [] t in
      (
        insert-Distinct row (insert col value cols) t h.0,
        insert-Entries CleanRow row (insert col value cols) t
            (
              hr,
              insert-Distinct col value cols columns_clean.0,
              insert-Entries CleanColumn col value cols (hc, hv) columns_clean.1,
            )
            h.1,
      )

  pub remove-IsClean : (col : Bytes) → Clean row → IsClean (remove t row col)
  unfolding remove
  remove-IsClean col hr =
      let cols = lookup_or row [] t in
      (
        insert-Distinct row (erase col cols) t h.0,
        insert-Entries CleanRow row (erase col cols) t
            (
              hr,
              erase-Distinct col cols columns_clean.0,
              erase-Entries CleanColumn col cols columns_clean.1,
            )
            h.1,
      )

  value-Clean : (col : Bytes) → Clean (value_at t row col)
  unfolding value_at get
  value-Clean col = elim (Option-cases (lookup row t)) [
    | inl e ↦ rw (e, get, value_at) (tt, tt)
    | inr (cols, e) ↦
        let p = lookup-Entries CleanRow row t h.1 e in
        elim (Option-cases (lookup col cols)) [
          | inl f ↦ rw (e, f, get, value_at) (tt, tt)
          | inr (v, f) ↦ rw (e, f, get, value_at) ((lookup-Entries CleanColumn col cols p.2 f).1)
        ]
  ]

  pub touch-IsClean : (col : Bytes) → Clean row → Clean col → IsClean (touch t row col)
  unfolding touch
  touch-IsClean col hr hc = set-IsClean col (value_at t row col) hr hc (value-Clean col)
