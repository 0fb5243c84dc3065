-- ===== src/Master/Request.antt =====
-- `handleIncomingRequests` of backend/kvstore/master.cc: which server a frontend is to use.
pub mod Choice
pub mod Answer
use distributed_cloud_storag.Prelude.{
  ℕ, zero, suc, ◌+◌, ◌%◌, Bool, true, false, ◌&&◌, ◌||◌, not, List, [], ◌∷◌, ◌++◌, Option, none,
  some, leb, ltb, ◌==◌, if◌then◌else◌, length, get_elem?, get_or, take, drop,
}
use distributed_cloud_storag.Prelude.Dict.{Bytes, eqb}
use distributed_cloud_storag.Prelude.Int.{ℤ, pos}
use distributed_cloud_storag.Text.{codes, to_lower, upper}
use distributed_cloud_storag.Kvstore.Config.{ServerInfo, group_of}
use distributed_cloud_storag.Kvstore.Framing.{feed}
use distributed_cloud_storag.Master.State.{Master, find_at, put_at, address}

in_range : ℕ → ℕ → ℕ → Bool
in_range low high c = leb low c && leb c high

-- The replica group of a user. For any other first character the variable is not initialised.
unfoldable assigned_group : Bytes → Option ℤ
unfolding in_range
assigned_group username =
    let first = to_lower (get_or username 0 0) in
    if in_range b'a' b'i' first
    then some (pos 1)
    else if in_range b'j' b'r' first
    then some (pos 2)
    else if in_range b's' b'z' first || in_range b'0' b'9' first
    then some (pos 3)
    else none

-- The do-while loop: at most one round for each server. It is `none` if it reads past the end, or
-- if the rounds are not enough.
unfoldable pub search_live : ℕ → List ServerInfo → ℕ → ℕ → Option (Option ℕ)
search_live zero infos start i = none
search_live (suc fuel) infos start i =
    let after = (i + 1) % length infos in
    let rest = search_live fuel infos start after in
    elim (get_elem? infos i) [
      | none ↦ none
      | some info ↦
          if not info.is_dead then some (some i) else if after == start then some none else rest
    ]

-- nextServerRoundRobin[g]
unfoldable pub next_of : ℤ → Master → ℕ
next_of g m = elim (find_at g m.next) [ none ↦ 0 | some i ↦ i ]

-- The reply for a group. The server that is found is the one at the index.
unfoldable pub choose_server : ℤ → Master → Option (Master × Bytes)
unfolding search_live
choose_server g m =
    let infos = group_of g m.servers in
    elim (search_live (length infos) infos (next_of g m) (next_of g m)) [
      | none ↦ none
      | some none ↦ some (m, codes "-ERR NO_SERVERS_ALIVE\r\n")
      | some (some i) ↦ elim (get_elem? infos i) [
        | none ↦ none
        | some info ↦ some (
          record m { next = put_at g ((i + 1) % length infos) m.next },
          codes "SERVER_INFO:" ++ (address info ++ codes "\r\n"),
        )
      ]
    ]

-- A command that is not GET_SERVER has no reply.
unfoldable request_dispatch : Bytes → Master × List Bytes → Option (Master × List Bytes)
unfolding assigned_group choose_server
request_dispatch command (m, sent) =
    if eqb (take 11 (upper command)) (codes "GET_SERVER:")
    then elim (assigned_group (drop 11 command)) [
      | none ↦ none
      | some g ↦ elim (choose_server g m) [
        | none ↦ none
        | some (m', reply) ↦ some (m', sent ++ reply ∷ [])
      ]
    ]
    else some (m, sent)

-- One connection, of which one read is made.
unfoldable incoming_request : Bytes → Master → Option (Master × List Bytes)
incoming_request bytes m = elim (feed request_dispatch bytes [] (m, [])) [
  | none ↦ none
  | some (command, result) ↦ some result
]
