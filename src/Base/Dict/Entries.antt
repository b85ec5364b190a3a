-- ===== src/Base/Dict/Entries.antt =====
-- The entries of a map: how many there are, and what holds of each.
use stream_api.Base.Tests.{if◌then◌else◌, is_some, Bool-cases}
use Prim.Native.Nat.{suc, ◌≤◌}
use mathlib.Core.Path.{◌≡◌, refl, subst}
use mathlib.Core.Option.{some, some-injective}
use mathlib.Core.Logic.{inl, inr}
use mathlib.Core.List.{[], ◌∷◌}
use native.Mathlib.Omega.{arith}
use stream_api.Base.Lists.{length, All}
use stream_api.Base.Equality.{Eq}
use stream_api.Base.Dict.{Dict, lookup, insert, remove}

module _ {ℓ κ} {K : Type ℓ} {V : Type κ} ⦃e : Eq K⦄ where
  pub length-insert :
      (k : K) (v : V) (m : Dict K V)
      → length (insert k v m) ≡ (if is_some (lookup k m) then length m else suc (length m))
  unfolding lookup insert
  length-insert k v [] = refl
  length-insert k v ((j, w) ∷ m) = ground (arith, length-insert k v m)

  pub length-remove : (k : K) (m : Dict K V) → length (remove k m) ≤ length m
  unfolding remove
  length-remove k [] = omega arith
  length-remove k ((j, w) ∷ m) = ground (arith, length-remove k m)

module _ {ℓ κ μ} {K : Type ℓ} {V : Type κ} ⦃e : Eq K⦄ (P : K → V → Type μ) where
  pub All-insert_entry :
      (k : K) (v : V) (m : Dict K V)
      → P k v
      → All (λ x. P x.0 x.1) m
      → All (λ x. P x.0 x.1) (insert k v m)
  unfolding insert
  All-insert_entry k v [] h hs = (h, tt)
  All-insert_entry k v ((j, w) ∷ m) h (hw, hs) = elim (Bool-cases (e.beq j k)) [
    | inl same ↦ rw same (h, hs)
    | inr other ↦ rw other (hw, All-insert_entry k v m h hs)
  ]

  pub All-remove_entry :
      (k : K) (m : Dict K V) → All (λ x. P x.0 x.1) m → All (λ x. P x.0 x.1) (remove k m)
  unfolding remove
  All-remove_entry k [] hs = tt
  All-remove_entry k ((j, w) ∷ m) (hw, hs) = elim (Bool-cases (e.beq j k)) [
    | inl same ↦ rw same (All-remove_entry k m hs)
    | inr other ↦ rw other (hw, All-remove_entry k m hs)
  ]

  -- What holds of every entry holds of what is found.
  pub All-lookup :
      (k : K) (v : V) (m : Dict K V) → All (λ x. P x.0 x.1) m → lookup k m ≡ some v → P k v
  unfolding lookup
  All-lookup k v [] hs h = cc
  All-lookup k v ((j, w) ∷ m) (hw, hs) h = elim (Bool-cases (e.beq j k)) [
    | inl same ↦
        subst (λ x. P k x) (some-injective w v (rw same at h))
          (subst (λ x. P x w) ((e.beq_iff j k).0 same) hw)
    | inr other ↦ All-lookup k v m hs (rw other at h)
  ]

module _ {ℓ κ μ} {K : Type ℓ} {V : Type κ} ⦃e : Eq K⦄ (P : V → Type μ) where
  pub All-insert :
      (k : K) (v : V) (m : Dict K V) → P v → All (λ x. P x.1) m → All (λ x. P x.1) (insert k v m)
  All-insert k v m h hs = All-insert_entry (λ _ w. P w) k v m h hs

  pub All-remove : (k : K) (m : Dict K V) → All (λ x. P x.1) m → All (λ x. P x.1) (remove k m)
  All-remove k m hs = All-remove_entry (λ _ w. P w) k m hs
