-- ===== src/Common/OrderedMap.antt =====
-- JavaScript's `Map`: an association list in insertion order. `set` on a key that is there keeps
-- its place, a new key goes to the end, and `values` and `keys` list in that order.
use Prim.Native.Nat.{◌+◌, ◌≤◌}
use mathlib.Core.Path.{◌≡◌, refl}
use mathlib.Core.Logic.{◌≢◌, ◌⊎◌}
use mathlib.Core.Bool.{Bool, true, false}
use mathlib.Core.Option.{Option, none, some}
use mathlib.Core.List.{List, [], ◌∷◌}
use native.Mathlib.Omega.{arith}
use smile4money.Common.Tests.{if◌then◌else◌, is_some}
use smile4money.Common.Lists.{length}
use smile4money.Common.Keys.{Eq, ◌===◌}

abbrev pub OrderedMap {ℓ κ} : Type ℓ → Type κ → Type (ℓ ⊔ κ)
OrderedMap K V = List (K × V)

module _ {ℓ κ} {K : Type ℓ} {V : Type κ} where
  abbrev pub values : OrderedMap K V → List V
  values [] = []
  values ((k, v) ∷ m) = v ∷ values m

  abbrev pub keys : OrderedMap K V → List K
  keys [] = []
  keys ((k, v) ∷ m) = k ∷ keys m

module _ {ℓ κ} {K : Type ℓ} {V : Type κ} ⦃e : Eq K⦄ where
  unfoldable pub get : K → OrderedMap K V → Option V
  get k [] = none
  get k ((j, v) ∷ m) = if j === k then some v else get k m

  unfoldable pub has : K → OrderedMap K V → Bool
  has k [] = false
  has k ((j, v) ∷ m) = if j === k then true else has k m

  unfoldable pub set : K → V → OrderedMap K V → OrderedMap K V
  set k v [] = (k, v) ∷ []
  set k v ((j, w) ∷ m) = if j === k then (j, v) ∷ m else (j, w) ∷ set k v m

  unfoldable pub delete : K → OrderedMap K V → OrderedMap K V
  delete k [] = []
  delete k ((j, v) ∷ m) = if j === k then delete k m else (j, v) ∷ delete k m

  -- No key stands twice, as in every `Map`.
  abbrev pub Distinct : OrderedMap K V → Type 0
  Distinct [] = Unit
  Distinct ((k, v) ∷ m) = (has k m ≡ false) × Distinct m

module _ {ℓ κ} {K : Type ℓ} {V : Type κ} ⦃e : Eq K⦄ where
  pub get-set :
      (k j : K) (v : V) (m : OrderedMap K V)
      → get j (set k v m) ≡ (if k === j then some v else get j m)
  unfolding get set
  get-set k j v [] = refl
  get-set k j v ((i, w) ∷ m) =
      ground (arith, e.beq_iff k j, e.beq_iff i k, e.beq_iff i j, get-set k j v m)

  pub has-set :
      (k j : K) (v : V) (m : OrderedMap K V)
      → has j (set k v m) ≡ (if k === j then true else has j m)
  unfolding has set
  has-set k j v [] = refl
  has-set k j v ((i, w) ∷ m) =
      ground (arith, e.beq_iff k j, e.beq_iff i k, e.beq_iff i j, has-set k j v m)

  pub get-delete :
      (k j : K) (m : OrderedMap K V) → get j (delete k m) ≡ (if k === j then none else get j m)
  unfolding get delete
  get-delete k j [] = ground arith
  get-delete k j ((i, w) ∷ m) =
      ground (arith, e.beq_iff k j, e.beq_iff i k, e.beq_iff i j, get-delete k j m)

  pub has-delete :
      (k j : K) (m : OrderedMap K V) → has j (delete k m) ≡ (if k === j then false else has j m)
  unfolding has delete
  has-delete k j [] = ground arith
  has-delete k j ((i, w) ∷ m) =
      ground (arith, e.beq_iff k j, e.beq_iff i k, e.beq_iff i j, has-delete k j m)

  -- A key is there exactly when its entry is found.
  pub has-get : (k : K) (m : OrderedMap K V) → has k m ≡ is_some (get k m)
  unfolding get has
  has-get k [] = refl
  has-get k ((j, v) ∷ m) = ground (arith, has-get k m)

  pub set-Distinct : (k : K) (v : V) (m : OrderedMap K V) → Distinct m → Distinct (set k v m)
  unfolding set
  set-Distinct k v [] d = (unfold has in refl, tt)
  set-Distinct k v ((j, w) ∷ m) d =
      ground (arith, has-set k j v m, e.beq_iff k j, e.beq_iff j k, set-Distinct k v m d.1)

  pub delete-Distinct : (k : K) (m : OrderedMap K V) → Distinct m → Distinct (delete k m)
  unfolding delete
  delete-Distinct k [] d = d
  delete-Distinct k ((j, w) ∷ m) d =
      ground (arith, has-delete k j m, e.beq_iff k j, e.beq_iff j k, delete-Distinct k m d.1)

  pub length-set :
      (k : K) (v : V) (m : OrderedMap K V)
      → length (set k v m) ≡ (if has k m then length m else length m + 1)
  unfolding set has
  length-set k v [] = omega arith
  length-set k v ((j, w) ∷ m) = ground (arith, length-set k v m)

  -- Deleting a key that is not there changes nothing.
  pub delete_absent : (k : K) (m : OrderedMap K V) → has k m ≡ false → delete k m ≡ m
  unfolding delete has
  delete_absent k [] h = refl
  delete_absent k ((j, w) ∷ m) h = ground (arith, delete_absent k m)

  pub length-delete :
      (k : K) (m : OrderedMap K V)
      → Distinct m
      → length m ≡ (if has k m then length (delete k m) + 1 else length (delete k m))
  unfolding delete has
  length-delete k [] d = refl
  length-delete k ((j, w) ∷ m) d =
      ground (arith, length-delete k m d.1, e.beq_iff j k, delete_absent k m)

  pub length-delete-le : (k : K) (m : OrderedMap K V) → length (delete k m) ≤ length m
  unfolding delete
  length-delete-le k [] = omega arith
  length-delete-le k ((j, w) ∷ m) = ground (arith, length-delete-le k m)

-- The same laws as case splits on paths.
module _ {ℓ κ} {K : Type ℓ} {V : Type κ} ⦃e : Eq K⦄ (k j : K) (m : OrderedMap K V) where
  pub get-set_same : (v : V) → get k (set k v m) ≡ some v
  get-set_same v = ground (arith, get-set k k v m, e.beq_iff k k)

  pub get-set_other : (v : V) → k ≢ j → get j (set k v m) ≡ get j m
  get-set_other v ne = ground (arith, get-set k j v m, e.beq_iff k j)

  pub get-set_cases :
      (v w : V) → get j (set k v m) ≡ some w → ((k ≡ j) × (v ≡ w)) ⊎ ((k ≢ j) × (get j m ≡ some w))
  get-set_cases v w h = ground (arith, get-set k j v m, e.beq_iff k j)

  pub get-delete_other : k ≢ j → get j (delete k m) ≡ get j m
  get-delete_other ne = ground (arith, get-delete k j m, e.beq_iff k j)

  pub get-delete_cases : (w : V) → get j (delete k m) ≡ some w → (k ≢ j) × (get j m ≡ some w)
  get-delete_cases w h = ground (arith, get-delete k j m, e.beq_iff k j)

  pub has-none : has k m ≡ false → get k m ≡ none
  has-none h = ground (arith, has-get k m)
