-- ===== src/Proxy/Url/Slash.antt =====
-- One slash stands between the joined paths (cmd/upload-proxy/proxy.go).
use mathlib.Core.List.{reverse, reverse-cons, reverse-reverse}
use stream_api.Base.{
  ℕ, ◌≡◌, sym, ap, ◌∙◌, true, false, [], ◌∷◌, ◌++◌, Str, codes, drop, arith, append_assoc,
  Bool-cases, inl, inr,
}
use stream_api.Base.FilePath.{slash}
use stream_api.Base.Text.{has_prefix, has_suffix, trim_prefix, trim_suffix}
use stream_api.Proxy.Url.{starts_with_slash, ends_with_slash, single_joining_slash}

begins : (s : Str) → has_prefix s (codes "/") ≡ true → s ≡ slash ∷ drop 1 s
unfolding has_prefix
begins [] h = cc
begins (c ∷ s) h = ap (λ (d : ℕ). d ∷ s) (ground arith)

trim_start : (b : Str) → starts_with_slash b ≡ true → trim_prefix b (codes "/") ≡ drop 1 b
unfolding trim_prefix
trim_start b h = rw h

trim_end : (a : Str) → ends_with_slash a ≡ true → a ≡ trim_suffix a (codes "/") ++ (slash ∷ [])
unfolding has_suffix trim_suffix trim_prefix
trim_end a h = rw h (
    sym (reverse-reverse a)
    ∙ ap reverse (begins (reverse a) h)
    ∙ reverse-cons slash (drop 1 (reverse a)))

keep_start : (b : Str) → starts_with_slash b ≡ false → trim_prefix b (codes "/") ≡ b
unfolding trim_prefix
keep_start b h = rw h

keep_end : (a : Str) → ends_with_slash a ≡ false → trim_suffix a (codes "/") ≡ a
unfolding has_suffix trim_suffix trim_prefix
keep_end a h = rw h (reverse-reverse a)

-- The join of two paths is the first without a slash at its end, a slash, and the second without a slash
-- at its start.
pub single_joining_slash_lem :
    (a b : Str)
    → single_joining_slash a b ≡ trim_suffix a (codes "/") ++ (slash ∷ trim_prefix b (codes "/"))
unfolding single_joining_slash
single_joining_slash_lem a b = elim (Bool-cases (ends_with_slash a)) [
  | inl ends ↦
      let whole : (r : Str) → a ++ r ≡ trim_suffix a (codes "/") ++ (slash ∷ r) = λ r.
        ap (λ (x : Str). x ++ r) (trim_end a ends)
        ∙ append_assoc (trim_suffix a (codes "/")) (slash ∷ []) r in
      elim (Bool-cases (starts_with_slash b)) [
        | inl starts ↦
            rw (ends, starts)
              (whole (drop 1 b)
                ∙ ap (λ (r : Str). trim_suffix a (codes "/") ++ (slash ∷ r))
                    (sym (trim_start b starts)))
        | inr bare ↦
            rw (ends, bare)
              (whole b
                ∙ ap (λ (r : Str). trim_suffix a (codes "/") ++ (slash ∷ r))
                    (sym (keep_start b bare)))
      ]
  | inr open_end ↦ elim (Bool-cases (starts_with_slash b)) [
    | inl starts ↦
        rw (open_end, starts)
          (ap (λ (x : Str). x ++ b) (sym (keep_end a open_end))
            ∙ ap (λ (r : Str). trim_suffix a (codes "/") ++ r)
                (begins b starts ∙ ap (λ (r : Str). slash ∷ r) (sym (trim_start b starts))))
    | inr bare ↦
        rw (open_end, bare)
          (ap (λ (x : Str). x ++ (slash ∷ b)) (sym (keep_end a open_end))
            ∙ ap (λ (r : Str). trim_suffix a (codes "/") ++ (slash ∷ r)) (sym (keep_start b bare)))
  ]
]
