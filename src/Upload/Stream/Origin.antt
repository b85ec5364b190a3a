-- ===== src/Upload/Stream/Origin.antt =====
-- A stream belongs to one origin at a time (`Update` of upload/stream.go).
use stream_api.Base.{
  ℕ, ◌+◌, ◌≤◌, ◌<◌, ◌≡◌, ◌≢◌, ◌⊎◌, inl, inr, refl, none, some, List, [], ◌∷◌, Str, str_eq,
  str_eq_iff, ltb, arith, All, Bool-cases, not, ◌∙◌,
}
use stream_api.Base.Int.{pos}
use stream_api.Upload.Stream.{Stream, invalid_origin, update}

-- The update comes from another origin before the deadline of the present one.
abbrev pub IsForeign : Str → ℕ → Stream → Type 0
IsForeign origin now s = (origin ≢ s.origin) × (now < s.origin_updated + s.origin_timeout)

-- An update is refused, and then changes nothing, exactly if it comes from another origin before the
-- deadline of the present one. Otherwise it makes its origin the present one from `now` on, and gives the
-- stream its whole time to live.
pub update_lem :
    (origin : Str) (now : ℕ) (s : Stream)
    → (IsForeign origin now s × (update origin now s ≡ (some invalid_origin, s)))
      ⊎ ((¬ IsForeign origin now s)
          × (update origin now s
              ≡ (none, record s { origin = origin; origin_updated = now; ttl = pos s.timeout })))
unfolding update
update_lem origin now s = elim (Bool-cases (not (str_eq origin s.origin))) [
  | inr same ↦ inr (ground (arith, str_eq_iff origin s.origin), ground arith)
  | inl other ↦ elim (Bool-cases (ltb now (s.origin_updated + s.origin_timeout))) [
    | inl early ↦ inl (ground (arith, str_eq_iff origin s.origin), ground arith)
    | inr late ↦ inr (ground arith, ground arith)
  ]
]

-- The requests of a stream, each with its origin and its time.
abbrev pub Request : Type 0
Request = Str × ℕ

unfoldable pub serve : List Request → Stream → Stream
unfolding update
serve [] s = s
serve ((origin, now) ∷ rest) s = serve rest (update origin now s).1

-- The times of the requests do not go back behind `t`.
abbrev pub IsOrdered : ℕ → List Request → Type 0
IsOrdered t [] = Unit
IsOrdered t ((origin, now) ∷ rest) = (t ≤ now) × IsOrdered now rest

abbrev Owned : Str → ℕ → ℕ → Stream → Type 0
Owned origin updated timeout s =
    (s.origin ≡ origin) × (updated ≤ s.origin_updated) × (s.origin_timeout ≡ timeout)

update-Owned :
    (origin : Str) (now : ℕ) (s : Stream)
    → s.origin_updated ≤ now
    → now < s.origin_updated + s.origin_timeout
    → Owned s.origin s.origin_updated s.origin_timeout (update origin now s).1
      × ((update origin now s).1.origin_updated ≤ now)
unfolding update
update-Owned origin now s h k = ground (arith, str_eq_iff origin s.origin)

serve-Owned :
    (requests : List Request) (s : Stream) (t deadline : ℕ)
    → s.origin_updated ≤ t
    → IsOrdered t requests
    → deadline ≤ s.origin_updated + s.origin_timeout
    → All (λ r. r.1 < deadline) requests
    → Owned s.origin s.origin_updated s.origin_timeout (serve requests s)
unfolding serve
serve-Owned [] s t deadline ht ordered hd h = (refl, omega arith, refl)
serve-Owned ((origin, now) ∷ rest) s t deadline ht (later, ordered) hd (h, hs) =
    let (step, upper) = update-Owned origin now s (omega arith) (omega arith) in
    let rest' =
      serve-Owned rest (update origin now s).1 now deadline upper ordered (omega (arith, step))
        hs in
    (rest'.0 ∙ step.0, omega (arith, rest', step), rest'.2 ∙ step.2)

-- As long as every request, in the order of time, comes before the deadline that the present origin
-- has at the start, the origin does not change, whoever sends them, and its time does not go back.
pub serve-keeps_origin :
    (requests : List Request) (s : Stream)
    → IsOrdered s.origin_updated requests
    → All (λ r. r.1 < s.origin_updated + s.origin_timeout) requests
    → ((serve requests s).origin ≡ s.origin)
      × (s.origin_updated ≤ (serve requests s).origin_updated)
      × ((serve requests s).origin_timeout ≡ s.origin_timeout)
serve-keeps_origin requests s ordered h =
    serve-Owned requests s s.origin_updated (s.origin_updated + s.origin_timeout) (omega arith)
      ordered (omega arith) h
