-- ===== src/Kvstore/Recovery/Writes.antt =====
-- The writing commands: how they are logged, what they do to a table and what the handler does.
use distributed_cloud_storag.Prelude.{
  ◌≡◌, ◌≢◌, refl, sym, ap, ◌∙◌, true, inl, inr, Bool-cases, List, [], ◌∷◌, ◌++◌, map, append_assoc,
  some, arith, if◌then◌else◌, All, All-append,
}
use distributed_cloud_storag.Prelude.Dict.{Bytes, eqb}
use distributed_cloud_storag.Text.{codes}
use distributed_cloud_storag.Text.Find.{Lacks}
use distributed_cloud_storag.Text.Getline.{getlines, getlines-append}
use distributed_cloud_storag.Kvstore.Split.{split_command}
use distributed_cloud_storag.Kvstore.Split.RoundTrip.{
  getlines-commas, split_command_put, split_command_cput, split_command_delete,
}
use distributed_cloud_storag.Kvstore.Table
use distributed_cloud_storag.Kvstore.Table.{Table, value_at}
use distributed_cloud_storag.Kvstore.Table.Values.{
  Same, Clean, IsClean, value_at-set, value_at-remove, value_at-touch, set-IsClean, remove-IsClean,
  touch-IsClean,
}
use distributed_cloud_storag.Kvstore.Server.{Context}
use distributed_cloud_storag.Kvstore.Forward.{Net}
use distributed_cloud_storag.Kvstore.Handle.{
  Origin, local_put, local_cput, local_delete, handle_put, handle_cput, handle_delete,
  handle_command,
}

pub data Write : Type 0 where
  put : Bytes → Bytes → Bytes → Write
  cput : Bytes → Bytes → Bytes → Bytes → Write
  delete : Bytes → Bytes → Write

-- The line that is logged.
abbrev pub line : Write → Bytes
line (put row col value) = codes "PUT " ++ (row ++ b',' ∷ (col ++ b',' ∷ value))
line (cput row col old new) = codes "CPUT " ++ (row ++ b',' ∷ (col ++ b',' ∷ (old ++ b',' ∷ new)))
line (delete row col) = codes "DELETE " ++ (row ++ b',' ∷ col)

-- What the line is split into.
abbrev pub params : Write → List Bytes
params (put row col value) = codes "PUT " ∷ row ∷ col ∷ value ∷ []
params (cput row col old new) = codes "CPUT " ∷ row ∷ col ∷ old ∷ new ∷ []
params (delete row col) = codes "DELETE " ∷ row ∷ col ∷ []

-- The effect on a table. CPUT writes only where the old value is the one that it names.
abbrev pub apply : Write → Table → Table
apply (put row col value) t = Table.set t row col value
apply (cput row col old new) t =
    if eqb (value_at t row col) old
    then Table.set (Table.touch t row col) row col new
    else Table.touch t row col
apply (delete row col) t = Table.remove t row col

abbrev pub apply_all : List Write → Table → Table
apply_all [] t = t
apply_all (w ∷ ws) t = apply_all ws (apply w t)

-- A command whose line can be read back: clean texts, and a last one that is not empty.
abbrev pub IsReadable : Write → Type 0
IsReadable (put row col value) = Clean row × Clean col × Clean value × (value ≢ [])
IsReadable (cput row col old new) = Clean row × Clean col × Clean old × Clean new × (new ≢ [])
IsReadable (delete row col) = Clean row × Clean col × (col ≢ [])

-- The line of a command that can be read back is split into the parameters that it was made of.
pub split_command-line : (w : Write) → IsReadable w → split_command (line w) ≡ params w
split_command-line (put row col value) (hr, hc, hv, ne) =
    split_command_put _
    ∙ ap (λ t. codes "PUT " ∷ t)
        (getlines-commas (row ∷ col ∷ value ∷ []) (hr.0, (hc.0, (hv.0, tt))) ne)
split_command-line (cput row col old new) (hr, hc, ho, hn, ne) =
    split_command_cput _
    ∙ ap (λ t. codes "CPUT " ∷ t)
        (getlines-commas (row ∷ col ∷ old ∷ new ∷ []) (hr.0, (hc.0, (ho.0, (hn.0, tt)))) ne)
split_command-line (delete row col) (hr, hc, ne) =
    split_command_delete _
    ∙ ap (λ t. codes "DELETE " ∷ t) (getlines-commas (row ∷ col ∷ []) (hr.0, (hc.0, tt)) ne)

fields-Lacks : (p q : Bytes) → Lacks b'\n' p → Lacks b'\n' q → Lacks b'\n' (p ++ b',' ∷ q)
fields-Lacks p q hp hq = All-append _ p (b',' ∷ q) hp (omega arith, hq)

line-Lacks : (w : Write) → IsReadable w → Lacks b'\n' (line w)
line-Lacks (put row col value) (hr, hc, hv, ne) =
    All-append _ (codes "PUT ") (row ++ b',' ∷ (col ++ b',' ∷ value)) (omega arith)
      (fields-Lacks row (col ++ b',' ∷ value) hr.1 (fields-Lacks col value hc.1 hv.1))
line-Lacks (cput row col old new) (hr, hc, ho, hn, ne) =
    All-append _ (codes "CPUT ") (row ++ b',' ∷ (col ++ b',' ∷ (old ++ b',' ∷ new))) (omega arith) (
      fields-Lacks row (col ++ b',' ∷ (old ++ b',' ∷ new)) hr.1
        (fields-Lacks col (old ++ b',' ∷ new) hc.1 (fields-Lacks old new ho.1 hn.1)))
line-Lacks (delete row col) (hr, hc, ne) =
    All-append _ (codes "DELETE ") (row ++ b',' ∷ col) (omega arith)
      (fields-Lacks row col hr.1 hc.1)

-- The text of a log file.
abbrev pub log_text : List Write → Bytes
log_text [] = []
log_text (w ∷ ws) = line w ++ b'\n' ∷ log_text ws

pub log_text-append :
    (ws : List Write) (w : Write) → log_text (ws ++ w ∷ []) ≡ log_text ws ++ (line w ++ b'\n' ∷ [])
log_text-append [] w = refl
log_text-append (v ∷ ws) w =
    ap (λ t. line v ++ b'\n' ∷ t) (log_text-append ws w)
    ∙ sym (append_assoc (line v) (b'\n' ∷ log_text ws) (line w ++ b'\n' ∷ []))

pub getlines-log_text :
    (ws : List Write) → All IsReadable ws → getlines b'\n' (log_text ws) ≡ map line ws
getlines-log_text [] h = unfold getlines in refl
getlines-log_text (w ∷ ws) (h, hs) =
    getlines-append b'\n' (line w) (log_text ws) (line-Lacks w h)
    ∙ ap (λ t. line w ∷ t) (getlines-log_text ws hs)

pub apply-Same : (w : Write) (t u : Table) → Same t u → Same (apply w t) (apply w u)
apply-Same (put row col value) t u h =
    λ r c. ground (arith, value_at-set t row col value r c, value_at-set u row col value r c, h r c)
apply-Same (delete row col) t u h =
    λ r c. ground (arith, value_at-remove t row col r c, value_at-remove u row col r c, h r c)
apply-Same (cput row col old new) t u h = λ r c. ground (
  arith,
  h r c,
  h row col,
  value_at-touch t row col r c,
  value_at-touch u row col r c,
  value_at-set (Table.touch t row col) row col new r c,
  value_at-set (Table.touch u row col) row col new r c,
)

pub apply_all-Same :
    (ws : List Write) (t u : Table) → Same t u → Same (apply_all ws t) (apply_all ws u)
apply_all-Same [] t u h = h
apply_all-Same (w ∷ ws) t u h = apply_all-Same ws (apply w t) (apply w u) (apply-Same w t u h)

pub apply_all-append :
    (ws : List Write) (w : Write) (t : Table)
    → apply_all (ws ++ w ∷ []) t ≡ apply w (apply_all ws t)
apply_all-append [] w t = refl
apply_all-append (v ∷ ws) w t = apply_all-append ws w (apply v t)

pub apply-IsClean : (w : Write) (t : Table) → IsReadable w → IsClean t → IsClean (apply w t)
apply-IsClean (put row col value) t (hr, hc, hv, ne) h = set-IsClean t row h col value hr hc hv
apply-IsClean (delete row col) t (hr, hc, ne) h = remove-IsClean t row h col hr
apply-IsClean (cput row col old new) t (hr, hc, ho, hn, ne) h =
    let touched = touch-IsClean t row h col hr hc in
    elim (Bool-cases (eqb (value_at t row col) old)) [
      | inl e ↦ rw e (set-IsClean (Table.touch t row col) row touched col new hr hc hn)
      | inr e ↦ rw e touched
    ]

-- What a server does to itself.
abbrev pub local : {W : Type 0} → Write → Context W → Context W
local (put row col value) c = local_put (params (put row col value)) c
local (cput row col old new) c = local_cput (params (cput row col old new)) c
local (delete row col) c = local_delete (params (delete row col)) c

-- While a server starts, a writing command changes the server itself and nothing else.
pub handle_command-initializing :
    {W : Type 0} (net : Net W) (w : Write) (o : Origin) (c : Context W)
    → c.server.initializing ≡ true
    → handle_command net (params w) o c ≡ some (local w c)
unfolding handle_command eqb
handle_command-initializing net (put row col value) o c h = rw (h, handle_put)
handle_command-initializing net (cput row col old new) o c h = rw (h, handle_cput)
handle_command-initializing net (delete row col) o c h = rw (h, handle_delete)
