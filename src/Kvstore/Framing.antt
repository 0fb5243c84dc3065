-- ===== src/Kvstore/Framing.antt =====
-- The loop over the bytes of one read, in which a command ends at "\r\n": lines 896-950 of
-- backend/kvstore/kvstore.cc, and the same loop of the admin handlers and of the master.
pub mod Frames
use distributed_cloud_storag.Prelude.{
  Bool, true, false, ◌&&◌, [], ◌∷◌, ◌++◌, Option, none, some, ◌==◌,
}
use distributed_cloud_storag.Prelude.Dict.{Bytes}

-- `feed dispatch bytes command s` is the command that is left unfinished and the state behind the
-- finished ones; `dispatch` handles one, and `none` is a fault of it.
unfoldable pub feed {ℓ} :
    {S : Type ℓ} → (Bytes → S → Option S) → Bytes → Bytes → S → Option (Bytes × S)
feed dispatch [] command s = some (command, s)
feed dispatch (ch ∷ []) command s = some (command ++ ch ∷ [], s)
feed dispatch (ch ∷ next ∷ bytes) command s = elim (ch == b'\r' && next == b'\n') [
  | true ↦ elim (dispatch command s) [ none ↦ none | some s' ↦ feed dispatch bytes [] s' ]
  | false ↦ feed dispatch (next ∷ bytes) (command ++ ch ∷ []) s
]
