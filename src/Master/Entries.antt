-- ===== src/Master/Entries.antt =====
-- The entries of a group of servers, as a status message of the master changes them.
use distributed_cloud_storag.Prelude.{
  ◌≡◌, refl, sym, ap, ◌∙◌, Bool, true, false, ◌&&◌, ◌||◌, inl, inr, Bool-cases, List, [], ◌∷◌, map,
  Option, none, some, arith, if◌then◌else◌,
}
use distributed_cloud_storag.Prelude.Dict.{eqb, eqb_iff}
use distributed_cloud_storag.Prelude.Int.{ℤ, eqz, eqz_iff, eqz_refl}
use distributed_cloud_storag.Kvstore.Config.{ServerInfo, ServerMap, group_of}
use distributed_cloud_storag.Kvstore.Status.{same_address, update_group, last_at}
use distributed_cloud_storag.Master.Groups.{group_of-set_group}

-- An entry has the address of `other`.
abbrev pub stands_at : ServerInfo → ServerInfo → Bool
stands_at other x = eqz x.tcp_port other.tcp_port && eqb x.ip other.ip

abbrev pub listed : ServerInfo → List ServerInfo → Bool
listed p [] = false
listed p (x ∷ xs) = stands_at p x || listed p xs

-- The receiver's own entry is the receiver itself.
abbrev pub own : ServerInfo → ServerInfo → ServerInfo
own me x = if stands_at me x then me else x

abbrev pub leading : ServerInfo → ServerInfo → ServerInfo
leading p x = if stands_at p x then record x { is_primary = true } else x

abbrev pub fallen : ServerInfo → ServerInfo → ServerInfo
fallen d x = if stands_at d x then record x { is_dead = true; is_primary = false } else x

abbrev pub following : ServerInfo → ServerInfo → ServerInfo
following d x = if stands_at d x then record x { is_dead = false; is_primary = false } else x

abbrev pub bereft : Option ServerInfo → ServerInfo → ServerInfo
bereft none x = x
bereft (some d) x = fallen d x

-- An entry of the receiver's group, where the primary is the receiver or else `p`.
abbrev pub entry_after :
    Bool → ServerInfo → Option ServerInfo → ServerInfo → ServerInfo → ServerInfo
entry_after true p d me x = bereft d (own me x)
entry_after false p d me x = bereft d (leading p (own me x))

abbrev pub IsLeader : ServerInfo → ServerInfo → Type 0
IsLeader p x = (x.ip ≡ p.ip) × (x.tcp_port ≡ p.tcp_port) × (x.is_primary ≡ true)

-- The primary that is followed: `p` if it is listed, and the old one otherwise.
abbrev pub Follows : Bool → ServerInfo → ServerInfo → ServerInfo → Type 0
Follows true p old x = IsLeader p x
Follows false p old x = x ≡ old

pub group_of-update_group :
    (g h : ℤ) (f : ServerInfo → ServerInfo) (m : ServerMap)
    → group_of h (update_group g f m) ≡ (if eqz g h then map f (group_of g m) else group_of h m)
unfolding update_group
group_of-update_group g h f m = group_of-set_group g h (map f (group_of g m)) m

map_twice :
    (f k : ServerInfo → ServerInfo) (xs : List ServerInfo)
    → map k (map f xs) ≡ map (λ x. k (f x)) xs
map_twice f k [] = refl
map_twice f k (x ∷ xs) = ap (λ l. k (f x) ∷ l) (map_twice f k xs)

-- Two changes of a group, one behind the other.
pub group_of-twice :
    (g h : ℤ) (f k : ServerInfo → ServerInfo) (m : ServerMap)
    → group_of h (update_group g k (update_group g f m))
      ≡ (if eqz g h then map (λ x. k (f x)) (group_of g m) else group_of h m)
group_of-twice g h f k m =
    group_of-update_group g h k (update_group g f m) ∙ elim (Bool-cases (eqz g h)) [
      | inl e ↦ rw e (
          ap (map k) (group_of-update_group g g f m ∙ rw (eqz_refl g) refl)
          ∙ map_twice f k (group_of g m))
      | inr e ↦ rw e (group_of-update_group g h f m ∙ rw e refl)
    ]

own-address : (me x : ServerInfo) → ((own me x).ip ≡ x.ip) × ((own me x).tcp_port ≡ x.tcp_port)
own-address me x = elim (Bool-cases (stands_at me x)) [
  | inl e ↦ rw e (
      let (port, ip) = both (eqz x.tcp_port me.tcp_port) (eqb x.ip me.ip) e in
      (sym ((eqb_iff x.ip me.ip).0 ip), sym ((eqz_iff x.tcp_port me.tcp_port).0 port)))
  | inr e ↦ rw e (refl, refl)
]
  where
    both : (a b : Bool) → (a && b) ≡ true → (a ≡ true) × (b ≡ true)
    both a b h = (ground arith, ground arith)

-- An entry of the group as a secondary has it.
abbrev pub seen : ServerInfo → ServerInfo → ServerInfo → ServerInfo
seen p me x = leading p (own me x)

stands_at-own : (p me x : ServerInfo) → stands_at p (own me x) ≡ stands_at p x
stands_at-own p me x =
    λ i. eqz ((own-address me x).1 i) p.tcp_port && eqb ((own-address me x).0 i) p.ip

stands_at-leading : (p x : ServerInfo) → stands_at p (leading p x) ≡ stands_at p x
stands_at-leading p x = elim (Bool-cases (stands_at p x)) [ inl e ↦ rw e e | inr e ↦ rw e e ]

leading-IsLeader : (p x : ServerInfo) → stands_at p x ≡ true → IsLeader p (leading p x)
leading-IsLeader p x e =
    rw e
      ((eqb_iff x.ip p.ip).0 (ground arith), (eqz_iff x.tcp_port p.tcp_port).0 (ground arith), refl)

module _ (p me : ServerInfo) where
  -- The last primary that is seen in a list.
  abbrev pub last_seen : List ServerInfo → ServerInfo → ServerInfo
  last_seen xs old = last_at (p.ip, p.tcp_port) (map (seen p me) xs) old

  last_seen-head :
      (x : ServerInfo) (xs : List ServerInfo) (old : ServerInfo)
      → last_seen (x ∷ xs) old ≡ last_seen xs (if stands_at p x then seen p me x else old)
  unfolding last_at same_address
  last_seen-head x xs old = λ i.
      last_seen xs
        (if (stands_at-leading p (own me x) ∙ stands_at-own p me x) i then seen p me x else old)

  seen-IsLeader : (x : ServerInfo) → stands_at p x ≡ true → IsLeader p (seen p me x)
  seen-IsLeader x e = leading-IsLeader p (own me x) (stands_at-own p me x ∙ e)

  last_seen-IsLeader :
      (xs : List ServerInfo) (old : ServerInfo) → IsLeader p old → IsLeader p (last_seen xs old)
  last_seen-IsLeader [] old h = unfold last_at in h
  last_seen-IsLeader (x ∷ xs) old h = coe 1 0 (i. IsLeader p (last_seen-head x xs old i)) (
      last_seen-IsLeader xs (if stands_at p x then seen p me x else old)
        (elim (Bool-cases (stands_at p x)) [
          | inl e ↦ coe 1 0 (i. IsLeader p (if e i then seen p me x else old)) (seen-IsLeader x e)
          | inr e ↦ coe 1 0 (i. IsLeader p (if e i then seen p me x else old)) h
        ]))

  pub last_seen-Follows :
      (xs : List ServerInfo) (old : ServerInfo) → Follows (listed p xs) p old (last_seen xs old)
  last_seen-Follows [] old = unfold last_at in refl
  last_seen-Follows (x ∷ xs) old = elim (Bool-cases (stands_at p x)) [
    | inl e ↦
        coe 1 0
          (i. Follows (e i || listed p xs) p old (
            (last_seen-head x xs old ∙ ap (λ b. last_seen xs (if b then seen p me x else old)) e)
              i))
          (last_seen-IsLeader xs (seen p me x) (seen-IsLeader x e))
    | inr e ↦
        coe 1 0
          (i. Follows (e i || listed p xs) p old (
            (last_seen-head x xs old ∙ ap (λ b. last_seen xs (if b then seen p me x else old)) e)
              i))
          (last_seen-Follows xs old)
  ]
