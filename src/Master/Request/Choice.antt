-- ===== src/Master/Request/Choice.antt =====
-- Which server of a group the round-robin loop finds.
use Prim.Native.Nat.{ℕ, zero, suc, ◌+◌, ◌-◌, ◌%◌, ◌<◌}
use native.Mathlib.Nat.{mod_self, mod-eq_of_lt}
use native.Mathlib.Decide.{dec_lt}
use distributed_cloud_storag.Prelude.{
  ◌≡◌, refl, ◌∙◌, true, false, ◌⊎◌, inl, inr, List, [], ◌∷◌, Option, none, some, arith, leb, ltb,
  ◌==◌, if◌then◌else◌, length, get_elem?, Bool-cases,
}
use distributed_cloud_storag.Kvstore.Config.{ServerInfo}
use distributed_cloud_storag.Master.Request.{search_live}

-- The server `k` places behind `start`, round the end of a list of `n`.
abbrev pub behind_start : ℕ → ℕ → ℕ → ℕ
behind_start n start k = if ltb (start + k) n then start + k else start + k - n

abbrev pub IsDeadAt : List ServerInfo → ℕ → Type 0
IsDeadAt infos i = (info : ServerInfo) × (get_elem? infos i ≡ some info) × (info.is_dead ≡ true)

abbrev IsLiveAt : List ServerInfo → ℕ → Type 0
IsLiveAt infos i = (info : ServerInfo) × (get_elem? infos i ≡ some info) × (info.is_dead ≡ false)

get_elem?-lt {ℓ} :
    {A : Type ℓ} (xs : List A) (i : ℕ) → i < length xs → (x : A) × (get_elem? xs i ≡ some x)
get_elem?-lt [] i h = ground arith
get_elem?-lt (x ∷ xs) zero h = (x, refl)
get_elem?-lt (x ∷ xs) (suc i) h = get_elem?-lt xs i (omega (arith, h))

mod_step : (n i : ℕ) → i < n → (i + 1) % n ≡ (if (i + 1) == n then 0 else i + 1)
mod_step n i h = elim (dec_lt (i + 1) n) [
  | yes p ↦ mod-eq_of_lt p ∙ ground arith
  | no p ↦
      let e : i + 1 ≡ n = omega arith in
      let z : (i + 1) % n ≡ 0 = rw (e, mod_self n) in z ∙ ground arith
]

mod-behind_start :
    (n start k : ℕ)
    → start < n
    → k < n
    → (behind_start n start k + 1) % n ≡ behind_start n start (k + 1)
mod-behind_start n start k a b = mod_step n (behind_start n start k) (ground arith) ∙ ground arith

-- What the search has found, from `start` on: no server, and all are dead, or the first live one.
pub data Outcome : List ServerInfo → ℕ → Option (Option ℕ) → Type 0 where
  all_dead :
      {infos : List ServerInfo} {start : ℕ}
      → ((i : ℕ) → i < length infos → IsDeadAt infos i)
      → Outcome infos start (some none)
  first_live :
      {infos : List ServerInfo} {start : ℕ} (k : ℕ)
      → k < length infos
      → ((j : ℕ) → j < k → IsDeadAt infos (behind_start (length infos) start j))
      → IsLiveAt infos (behind_start (length infos) start k)
      → Outcome infos start (some (some (behind_start (length infos) start k)))

search_live-live :
    (fuel : ℕ) (infos : List ServerInfo) (start i : ℕ)
    → IsLiveAt infos i
    → search_live (suc fuel) infos start i ≡ some (some i)
unfolding search_live
search_live-live fuel infos start i (info, at, live) = ground arith

search_live-dead :
    (fuel : ℕ) (infos : List ServerInfo) (start i after : ℕ)
    → IsDeadAt infos i
    → (i + 1) % length infos ≡ after
    → search_live (suc fuel) infos start i
      ≡ (if after == start then some none else search_live fuel infos start after)
unfolding search_live
search_live-dead fuel infos start i after (info, at, dead) e = ground arith

live_or_dead :
    (infos : List ServerInfo) (i : ℕ) → i < length infos → IsLiveAt infos i ⊎ IsDeadAt infos i
live_or_dead infos i h =
    let (info, at) = get_elem?-lt infos i h in
    elim (Bool-cases info.is_dead) [
      | inr live ↦ inl (info, at, live)
      | inl dead ↦ inr (info, at, dead)
    ]

module _ (infos : List ServerInfo) (start : ℕ) (h : start < length infos) where
  abbrev DeadBelow : ℕ → Type 0
  DeadBelow k = (j : ℕ) → j < k → IsDeadAt infos (behind_start (length infos) start j)

  as_found : {r r' : Option (Option ℕ)} → r ≡ r' → Outcome infos start r' → Outcome infos start r
  as_found e o = coe 1 0 (i. Outcome infos start (e i)) o

  and_dead :
      (k : ℕ)
      → DeadBelow k
      → IsDeadAt infos (behind_start (length infos) start k)
      → DeadBelow (k + 1)
  and_dead k dead d j l = elim (dec_lt j k) [
    | yes p ↦ dead j p
    | no p ↦ let e : k ≡ j = omega arith in rw e at d
  ]

  all_round : DeadBelow (length infos) → (i : ℕ) → i < length infos → IsDeadAt infos i
  all_round dead i l =
      let j = if leb start i then i - start else i + length infos - start in
      let d = dead j (ground arith) in
      let e : behind_start (length infos) start j ≡ i = ground arith in rw e at d

  search_from :
      (fuel k : ℕ)
      → fuel + k ≡ length infos
      → k < length infos
      → DeadBelow k
      → Outcome infos start (search_live fuel infos start (behind_start (length infos) start k))
  search_from zero k e l dead = ground arith
  search_from (suc fuel) k e l dead =
      elim (live_or_dead infos (behind_start (length infos) start k) (ground arith)) [
        | inl live ↦
            as_found (search_live-live fuel infos start (behind_start (length infos) start k) live)
              (first_live k l dead live)
        | inr d ↦ elim (dec_lt (k + 1) (length infos)) [
          | yes p ↦
              as_found
                (search_live-dead fuel infos start (behind_start (length infos) start k)
                    (behind_start (length infos) start (k + 1)) d
                    (mod-behind_start (length infos) start k h l)
                  ∙ ground arith)
                (search_from fuel (k + 1) (omega arith) p (and_dead k dead d))
          | no p ↦
              as_found
                (search_live-dead fuel infos start (behind_start (length infos) start k) start d
                    (mod-behind_start (length infos) start k h l ∙ ground arith)
                  ∙ ground arith)
                (all_dead (all_round (λ j j-lt. and_dead k dead d j (omega arith))))
        ]
      ]

-- The search of a whole round from `start` ends, and has found what it should.
pub search_live-Outcome :
    (infos : List ServerInfo) (start : ℕ)
    → start < length infos
    → Outcome infos start (search_live (length infos) infos start start)
search_live-Outcome infos start h =
    let e : behind_start (length infos) start 0 ≡ start = ground arith in
    let found =
      search_from infos start h (length infos) 0 (omega arith) (omega arith)
        (λ j l. ground arith) in
    rw e at found
