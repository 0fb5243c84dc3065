-- ===== src/Kvstore/Stale.antt =====
-- A secondary that is sent a write by another secondary, in `handleCommand` and `threadFunc` of
-- backend/kvstore/kvstore.cc.
use distributed_cloud_storag.Prelude.{
  ℕ, ◌≡◌, refl, ◌∙◌, false, List, [], ◌∷◌, ◌++◌, append_assoc, Option, none, some, arith,
}
use distributed_cloud_storag.Prelude.Dict.{Bytes, eqb}
use distributed_cloud_storag.Text.{codes}
use distributed_cloud_storag.Kvstore.Split.{split_command}
use distributed_cloud_storag.Kvstore.Server.{Context}
use distributed_cloud_storag.Kvstore.Forward.{Net}
use distributed_cloud_storag.Kvstore.Handle.{
  from_secondary, handle_put, handle_cput, handle_delete, handle_command,
}
use distributed_cloud_storag.Kvstore.Connection.{
  origin_of, checkpoint_at_threshold, finish, dispatch,
}
use distributed_cloud_storag.Kvstore.Recovery.Writes.{Write, put, delete, line, params}
use distributed_cloud_storag.Kvstore.Cluster.Peer.{IsSendable, split_command-mark}
use distributed_cloud_storag.Kvstore.Alone.{checkpoint_at_threshold-table}

-- The parameters have a mark behind them, which no branch looks at.
secondary_to_secondary-mark :
    {W : Type 0} (net : Net W) (w : Write) (c : Context W)
    → IsSendable w
    → c.server.initializing ≡ false
    → c.server.info.is_primary ≡ false
    → handle_command net (params w ++ codes "SECONDARY" ∷ []) from_secondary c ≡ some c
unfolding handle_command eqb handle_put handle_cput handle_delete
secondary_to_secondary-mark net (put row col value) c h a b = ground arith
secondary_to_secondary-mark net (Write.cput row col old new) c h a b = absurd h
secondary_to_secondary-mark net (delete row col) c h a b = ground arith

origin_of-secondary :
    (w : Write) → IsSendable w → origin_of (params w ++ codes "SECONDARY" ∷ []) ≡ from_secondary
unfolding origin_of eqb
origin_of-secondary (put row col value) h = refl
origin_of-secondary (Write.cput row col old new) h = absurd h
origin_of-secondary (delete row col) h = refl

-- A command is answered with the reply that the server then holds.
abbrev Answered : {W : Type 0} → List Bytes → Option (Context W × List Bytes) → Type 0
Answered sent none = Unit {0}
Answered sent (some (c, sent')) = sent' ≡ sent ++ c.msg ∷ []

finish-Answered :
    {W : Type 0} (now : ℕ) (o : Option (Context W)) (sent : List Bytes)
    → Answered sent (finish now o sent)
unfolding finish
finish-Answered now none sent = tt
finish-Answered now (some c) sent = refl

dispatch-Answered :
    {W : Type 0} (net : Net W) (now : ℕ) (command : Bytes) (c : Context W) (sent : List Bytes)
    → Answered sent (dispatch net now command (c, sent))
unfolding dispatch
dispatch-Answered net now command c sent =
    finish-Answered now
      (handle_command net (split_command command) (origin_of (split_command command)) c) sent

-- A command is handled on a connection, after which the server serves and is no primary. Then another
-- secondary sends a PUT or DELETE on it, whose texts hold no comma and no "\r". It is answered with
-- the reply to the command before it once more, the table is as that command left it, and nothing is
-- passed on.
pub dispatch-secondary :
    {W : Type 0} (net : Net W) (now : ℕ) (command : Bytes) (w : Write) (c c₁ : Context W)
    (sent sent₁ : List Bytes)
    → IsSendable w
    → dispatch net now command (c, sent) ≡ some (c₁, sent₁)
    → c₁.server.initializing ≡ false
    → c₁.server.info.is_primary ≡ false
    → (c₂ : Context W) × (reply : Bytes) × (sent₁ ≡ sent ++ reply ∷ [])
      × (dispatch net now (line w ++ codes ",SECONDARY") (c₁, sent₁)
          ≡ some (c₂, sent ++ reply ∷ reply ∷ []))
      × (c₂.server.table ≡ c₁.server.table)
      × (c₂.world ≡ c₁.world)
unfolding dispatch finish
dispatch-secondary net now command w c c₁ sent sent₁ h e awake second =
    let answered : sent₁ ≡ sent ++ c₁.msg ∷ [] =
      coe 0 1 (i. Answered sent (e i)) (dispatch-Answered net now command c sent) in
    let c₂ = record c₁ { server = checkpoint_at_threshold now c₁.server } in
    (
      c₂,
      c₁.msg,
      answered,
      (λ i.
            let ps = split_command-mark w (codes "SECONDARY") h (omega arith) (λ z. cc) i in
            finish now (handle_command net ps (origin_of ps) c₁) sent₁)
          ∙ (λ i.
              finish now
                (handle_command net (params w ++ codes "SECONDARY" ∷ []) (origin_of-secondary w h i)
                  c₁)
                sent₁)
          ∙ (λ i. finish now (secondary_to_secondary-mark net w c₁ h awake second i) sent₁)
          ∙ (λ i. some (c₂, answered i ++ c₁.msg ∷ []))
          ∙ (λ i. some (c₂, append_assoc sent (c₁.msg ∷ []) (c₁.msg ∷ []) i)),
      checkpoint_at_threshold-table now c₁.server,
      refl,
    )
