-- ===== src/Master/Request/Answer.antt =====
-- The reply to GET_SERVER.
use Prim.Native.Nat.{ℕ, suc, ◌+◌, ◌%◌, ◌<◌}
use native.Mathlib.Nat.{mod-lt}
use distributed_cloud_storag.Prelude.{
  ◌≡◌, refl, true, false, ◌⊎◌, inl, inr, List, [], ◌∷◌, ◌++◌, Option, some, arith, length,
  get_elem?, All,
}
use distributed_cloud_storag.Prelude.Int.{ℤ, eqz_refl}
use distributed_cloud_storag.Text.{codes}
use distributed_cloud_storag.Kvstore.Config.{ServerInfo, group_of}
use distributed_cloud_storag.Master.State.{Master, put_at, address}
use distributed_cloud_storag.Master.Groups.{find_at-put_at}
use distributed_cloud_storag.Master.Request.{search_live, next_of, choose_server}
use distributed_cloud_storag.Master.Request.Choice.{
  behind_start, IsDeadAt, Outcome, all_dead, first_live, search_live-Outcome,
}

every_one :
    (infos : List ServerInfo)
    → ((i : ℕ) → i < length infos → IsDeadAt infos i)
    → All (λ info. info.is_dead ≡ true) infos
every_one [] h = tt
every_one (info ∷ infos) h =
    let (info', e, d) = h 0 (omega arith) in
    (ground arith, every_one infos (λ i l. h (suc i) (omega (arith, l))))

-- Every server of the group is dead, and the reply says so.
abbrev pub NoneAlive : ℤ → Master → Type 0
NoneAlive g m =
    (choose_server g m ≡ some (m, codes "-ERR NO_SERVERS_ALIVE\r\n"))
    × All (λ info. info.is_dead ≡ true) (group_of g m.servers)

-- The server at `i` is the answer, and the next search starts behind it.
abbrev Answers : ℤ → Master → ℕ → Type 0
Answers g m i =
    (info : ServerInfo) × (get_elem? (group_of g m.servers) i ≡ some info)
    × (info.is_dead ≡ false)
    × (choose_server g m
        ≡ some (
          record m { next = put_at g ((i + 1) % length (group_of g m.servers)) m.next },
          codes "SERVER_INFO:" ++ (address info ++ codes "\r\n"),
        ))
    × (next_of g (record m { next = put_at g ((i + 1) % length (group_of g m.servers)) m.next })
        < length (group_of g m.servers))

-- The answer is the first live server from the index of the next one on.
abbrev pub AnswersFirst : ℤ → Master → Type 0
AnswersFirst g m =
    let place = behind_start (length (group_of g m.servers)) (next_of g m) in
    (k : ℕ) × (k < length (group_of g m.servers))
    × ((j : ℕ) → j < k → IsDeadAt (group_of g m.servers) (place j))
    × Answers g m (place k)

module _ (g : ℤ) (m : Master) where
  next_of-put_at :
      (i : ℕ)
      → 0 < length (group_of g m.servers)
      → next_of g (record m { next = put_at g (i % length (group_of g m.servers)) m.next })
        < length (group_of g m.servers)
  unfolding next_of
  next_of-put_at i h =
      let l = mod-lt i h in
      ground (arith, find_at-put_at g g (i % length (group_of g m.servers)) m.next, eqz_refl g)

  chosen :
      (r : Option (Option ℕ))
      → search_live
          (length (group_of g m.servers))
          (group_of g m.servers)
          (next_of g m)
          (next_of g m)
        ≡ r
      → Outcome (group_of g m.servers) (next_of g m) r
      → NoneAlive g m ⊎ AnswersFirst g m
  unfolding choose_server
  chosen _ e (all_dead {infos = _} {start = _} dead) =
      inl (rw (choose_server, e), every_one (group_of g m.servers) dead)
  chosen _ e (first_live {infos = _} {start = _} k l dead (info, at, live)) =
      inr (k, l, dead, (info, at, live, rw (choose_server, e, at), next_of-put_at _ (omega arith)))

  -- If the index of the next server lies in the group, GET_SERVER is answered: with the address of
  -- the first live server from that index on, round the end of the list, and then the index lies
  -- behind that server and in the group again; or with the error, and then every server of the
  -- group is dead.
  pub choose_server_lem :
      next_of g m < length (group_of g m.servers) → NoneAlive g m ⊎ AnswersFirst g m
  choose_server_lem h = chosen _ refl (search_live-Outcome (group_of g m.servers) (next_of g m) h)
