-- ===== src/Common/OrderedSet.antt =====
-- JavaScript's `Set`: a list in insertion order without repetitions.
use Prim.Native.Nat.{◌+◌}
use mathlib.Core.Path.{◌≡◌, refl}
use mathlib.Core.Bool.{Bool, true, false}
use mathlib.Core.List.{List, [], ◌∷◌}
use native.Mathlib.Omega.{arith}
use smile4money.Common.Tests.{if◌then◌else◌}
use smile4money.Common.Lists.{length}
use smile4money.Common.Keys.{Eq, ◌===◌}

module _ {ℓ} {K : Type ℓ} ⦃e : Eq K⦄ where
  unfoldable pub member : K → List K → Bool
  member k [] = false
  member k (j ∷ s) = if j === k then true else member k s

  unfoldable pub insert : K → List K → List K
  insert k [] = k ∷ []
  insert k (j ∷ s) = if j === k then j ∷ s else j ∷ insert k s

  unfoldable pub remove : K → List K → List K
  remove k [] = []
  remove k (j ∷ s) = if j === k then remove k s else j ∷ remove k s

module _ {ℓ} {K : Type ℓ} ⦃e : Eq K⦄ where
  pub member-insert :
      (k j : K) (s : List K) → member j (insert k s) ≡ (if k === j then true else member j s)
  unfolding member insert
  member-insert k j [] = refl
  member-insert k j (i ∷ s) =
      ground (arith, e.beq_iff k j, e.beq_iff i k, e.beq_iff i j, member-insert k j s)

  pub length-insert :
      (k : K) (s : List K) → length (insert k s) ≡ (if member k s then length s else length s + 1)
  unfolding member insert
  length-insert k [] = omega arith
  length-insert k (i ∷ s) = ground (arith, length-insert k s)

module _ {ℓ} {K : Type ℓ} ⦃e : Eq K⦄ where
  pub member-remove :
      (k j : K) (s : List K) → member j (remove k s) ≡ (if k === j then false else member j s)
  unfolding member remove
  member-remove k j [] = ground arith
  member-remove k j (i ∷ s) =
      ground (arith, e.beq_iff k j, e.beq_iff i k, e.beq_iff i j, member-remove k j s)
