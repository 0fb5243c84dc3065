-- ===== src/Master/Console.antt =====
-- `receiveAdminConsoleRequest` and `sendToAdminConsole` of backend/kvstore/master.cc. The encoder
-- of OpenSSL is a parameter.
use distributed_cloud_storag.Prelude.{
  ℕ, zero, suc, List, [], ◌∷◌, ◌++◌, Option, none, some, if◌then◌else◌, length, take, drop,
}
use distributed_cloud_storag.Prelude.Dict.{Bytes, eqb}
use distributed_cloud_storag.Text.{codes, upper}
use distributed_cloud_storag.Kvstore.Framing.{feed}
use distributed_cloud_storag.Master.Heartbeat.{buffer_size}

-- The writes of a text in pieces of at most BUFFER_SIZE bytes. Each piece drops a byte at least, so
-- the length of the text is fuel enough.
unfoldable chunks : ℕ → Bytes → List Bytes
unfolding buffer_size
chunks zero s = []
chunks (suc fuel) [] = []
chunks (suc fuel) (c ∷ s) = take buffer_size (c ∷ s) ∷ chunks fuel (drop buffer_size (c ∷ s))

-- A file that cannot be opened sends nothing.
unfoldable send_config : (Bytes → Bytes) → Option Bytes → List Bytes
unfolding chunks
send_config encode none = []
send_config encode (some contents) =
    let encoded = encode contents in chunks (length encoded) encoded ++ codes "\r\n" ∷ []

-- An empty response is written too.
unfoldable console_dispatch :
    (Bytes → Bytes) → Option Bytes → Bytes → List Bytes → Option (List Bytes)
unfolding send_config
console_dispatch encode file command sent =
    if eqb (upper command) (codes "REQUEST")
    then some (sent ++ (send_config encode file ++ [] ∷ []))
    else some (sent ++ codes "-ERR Invalid Command\r\n" ∷ [])

unfoldable console_request : (Bytes → Bytes) → Option Bytes → Bytes → Option (List Bytes)
console_request encode file bytes = elim (feed (console_dispatch encode file) bytes [] []) [
  | none ↦ none
  | some (command, sent) ↦ some sent
]
