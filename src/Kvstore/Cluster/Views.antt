-- ===== src/Kvstore/Cluster/Views.antt =====
-- Tables that read the same, and the writes to them.
use distributed_cloud_storag.Prelude.{◌≡◌, arith}
use distributed_cloud_storag.Prelude.Dict.{Bytes}
use distributed_cloud_storag.Kvstore.Table.{Table, get, get-set, get-remove}
use distributed_cloud_storag.Kvstore.Recovery.Writes.{Write, put, delete, apply}
use distributed_cloud_storag.Kvstore.Cluster.Peer.{IsSendable}

-- Two tables from which every GET reads the same.
abbrev pub SameView : Table → Table → Type 0
SameView t u = (r c : Bytes) → get t r c ≡ get u r c

pub apply-SameView :
    (w : Write) (t u : Table) → IsSendable w → SameView t u → SameView (apply w t) (apply w u)
apply-SameView (put row col value) t u s h =
    λ r c. ground (arith, get-set t row col value r c, get-set u row col value r c, h r c)
apply-SameView (Write.cput row col old new) t u s h = absurd s
apply-SameView (delete row col) t u s h =
    λ r c. ground (arith, get-remove t row col r c, get-remove u row col r c, h r c)

-- The same write once more changes nothing.
pub apply-apply :
    (w : Write) (t : Table) → IsSendable w → SameView (apply w (apply w t)) (apply w t)
apply-apply (put row col value) t s = λ r c.
    ground
      (arith, get-set (apply (put row col value) t) row col value r c, get-set t row col value r c)
apply-apply (Write.cput row col old new) t s = absurd s
apply-apply (delete row col) t s = λ r c.
    ground (arith, get-remove (apply (delete row col) t) row col r c, get-remove t row col r c)
