-- ===== src/Base/Text/Join.antt =====
-- What `strings.Split` gives can be joined again.
use mathlib.Core.Path.{◌≡◌, refl, sym, ap, ◌∙◌}
use mathlib.Core.Logic.{◌≢◌, inl, inr}
use mathlib.Core.List.{List, [], ◌∷◌}
use Prim.Native.Nat.{ℕ}
use mathlib.Core.Bool.{Bool, true, false}
use stream_api.Base.Tests.{if◌then◌else◌, ◌==◌, ==_iff, Bool-cases}
use stream_api.Base.Equality.{Str}
use stream_api.Base.Text.{split, join, cons_part}

join-cons_part :
    (c sep : ℕ) (parts : List Str) → parts ≢ [] → join (cons_part c parts) sep ≡ c ∷ join parts sep
unfolding join
join-cons_part c sep [] h = absurd (h refl)
join-cons_part c sep (p ∷ []) h = refl
join-cons_part c sep (p ∷ q ∷ ps) h = refl

join-nil_part :
    (sep : ℕ) (parts : List Str) → parts ≢ [] → join ([] ∷ parts) sep ≡ sep ∷ join parts sep
unfolding join
join-nil_part sep [] h = absurd (h refl)
join-nil_part sep (p ∷ ps) h = refl

split-ne-nil : (s : Str) (sep : ℕ) → split s sep ≢ []
unfolding split
split-ne-nil [] sep e = cc
split-ne-nil (c ∷ s) sep e = by_head (c == sep) (split s sep) e
  where
    by_head :
        (same : Bool) (parts : List Str) → (if same then [] ∷ parts else cons_part c parts) ≡ [] → ⊥
    by_head true parts e = cc
    by_head false [] e = cc
    by_head false (p ∷ ps) e = cc

pub join-split : (s : Str) (sep : ℕ) → join (split s sep) sep ≡ s
unfolding split
join-split [] sep = unfold join in refl
join-split (c ∷ s) sep = elim (Bool-cases (c == sep)) [
  | inl same ↦ rw same (
      join-nil_part sep (split s sep) (split-ne-nil s sep)
      ∙ ap (λ (r : Str). sep ∷ r) (join-split s sep)
      ∙ ap (λ (d : ℕ). d ∷ s) (sym ((==_iff c sep).0 same)))
  | inr other ↦ rw other (
      join-cons_part c sep (split s sep) (split-ne-nil s sep)
      ∙ ap (λ (r : Str). c ∷ r) (join-split s sep))
]
