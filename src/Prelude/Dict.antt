-- ===== src/Prelude/Dict.antt =====
-- The standard library's `unordered_map<string, V>`: an association list with distinct keys. The
-- order in which a map is iterated is not specified; here it is the list's order.
use Prim.Native.Nat.{ℕ}
use mathlib.Core.Path.{◌≡◌, refl}
use mathlib.Core.Logic.{◌↔◌, ◌≢◌}
use mathlib.Core.Bool.{Bool, true, false, ◌&&◌}
use mathlib.Core.Option.{Option, none, some}
use mathlib.Core.List.{List, [], ◌∷◌}
use native.Mathlib.Omega.{arith}
use distributed_cloud_storag.Prelude.Tests.{◌==◌, if◌then◌else◌}

abbrev pub Bytes : Type 0
Bytes = List ℕ

-- std::string equality
unfoldable pub eqb : Bytes → Bytes → Bool
eqb [] [] = true
eqb (a ∷ s) (b ∷ t) = a == b && eqb s t
eqb _ _ = false

pub eqb_iff : (s t : Bytes) → (eqb s t ≡ true) ↔ (s ≡ t)
unfolding eqb
eqb_iff (a ∷ s) (b ∷ t) = ground (arith, eqb_iff s t)
eqb_iff _ _ = ground arith

pub eqb_refl : (s : Bytes) → eqb s s ≡ true
eqb_refl s = (eqb_iff s s).1 refl

pub eqb_ne : (s t : Bytes) → s ≢ t → eqb s t ≡ false
eqb_ne s t h = ground (arith, eqb_iff s t)

abbrev pub Dict {ℓ} : Type ℓ → Type ℓ
Dict V = List (Bytes × V)

module _ {ℓ} {V : Type ℓ} where
  -- m.find(k)
  unfoldable pub lookup : Bytes → Dict V → Option V
  lookup k [] = none
  lookup k ((j, v) ∷ m) = if eqb j k then some v else lookup k m

  -- m[k] = v
  unfoldable pub insert : Bytes → V → Dict V → Dict V
  insert k v [] = (k, v) ∷ []
  insert k v ((j, w) ∷ m) = let rest = insert k v m in if eqb j k then (j, v) ∷ m else (j, w) ∷ rest

  -- m.erase(k)
  unfoldable pub erase : Bytes → Dict V → Dict V
  erase k [] = []
  erase k ((j, w) ∷ m) = let rest = erase k m in if eqb j k then rest else (j, w) ∷ rest

  -- m[k], which is the value's default where the key is missing
  unfoldable pub lookup_or : Bytes → V → Dict V → V
  lookup_or k d m = elim (lookup k m) [ none ↦ d | some v ↦ v ]

  pub lookup-insert :
      (k j : Bytes) (v : V) (m : Dict V)
      → lookup j (insert k v m) ≡ (if eqb k j then some v else lookup j m)
  unfolding lookup insert
  lookup-insert k j v [] = refl
  lookup-insert k j v ((i, w) ∷ m) =
      ground (arith, eqb_iff k j, eqb_iff i k, eqb_iff i j, lookup-insert k j v m)

  pub lookup-erase :
      (k j : Bytes) (m : Dict V) → lookup j (erase k m) ≡ (if eqb k j then none else lookup j m)
  unfolding lookup erase
  lookup-erase k j [] = ground arith
  lookup-erase k j ((i, w) ∷ m) =
      ground (arith, eqb_iff k j, eqb_iff i k, eqb_iff i j, lookup-erase k j m)

  pub lookup-insert_self : (k : Bytes) (v : V) (m : Dict V) → lookup k (insert k v m) ≡ some v
  lookup-insert_self k v m = simp (lookup-insert, eqb_refl)

  -- No key stands twice.
  abbrev pub Distinct : Dict V → Type ℓ
  Distinct [] = Unit
  Distinct ((k, v) ∷ m) = (lookup k m ≡ none) × Distinct m

  pub insert-Distinct : (k : Bytes) (v : V) (m : Dict V) → Distinct m → Distinct (insert k v m)
  unfolding insert lookup
  insert-Distinct k v [] d = (refl, tt)
  insert-Distinct k v ((j, w) ∷ m) (fresh, d) =
      ground (arith, eqb_iff j k, eqb_iff k j, lookup-insert k j v m, insert-Distinct k v m d)

  pub erase-Distinct : (k : Bytes) (m : Dict V) → Distinct m → Distinct (erase k m)
  unfolding erase
  erase-Distinct k [] d = tt
  erase-Distinct k ((j, w) ∷ m) (fresh, d) =
      ground (arith, lookup-erase k j m, erase-Distinct k m d)

module _ {ℓ κ} {V : Type ℓ} (P : Bytes → V → Type κ) where
  -- `P` holds of every key and its value.
  abbrev pub Entries : Dict V → Type κ
  Entries [] = Unit
  Entries ((k, v) ∷ m) = P k v × Entries m

  pub insert-Entries : (k : Bytes) (v : V) (m : Dict V) → P k v → Entries m → Entries (insert k v m)
  unfolding insert
  insert-Entries k v [] p h = (p, tt)
  insert-Entries k v ((j, w) ∷ m) p (q, h) = ground (arith, eqb_iff j k, insert-Entries k v m p h)

  pub erase-Entries : (k : Bytes) (m : Dict V) → Entries m → Entries (erase k m)
  unfolding erase
  erase-Entries k [] h = tt
  erase-Entries k ((j, w) ∷ m) (q, h) = ground (arith, erase-Entries k m h)

  pub lookup-Entries : (k : Bytes) (m : Dict V) {v : V} → Entries m → lookup k m ≡ some v → P k v
  unfolding lookup
  lookup-Entries k [] h e = cc
  lookup-Entries k ((j, w) ∷ m) {v} (q, h) e =
      ground (arith, eqb_iff j k, lookup-Entries k m {v = v} h)
