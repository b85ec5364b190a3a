-- ===== src/Logs/Parser/Uri.antt =====
-- What the pattern of the URIs finds (`uriRegexp` of logreceiver/parser.go).
use stream_api.Base.{
  ℕ, ◌≡◌, ◌≢◌, refl, ap, ◌∙◌, true, false, Option, none, some, [], ◌∷◌, ◌++◌, Str, codes, length,
  drop, arith, Bool-cases, inl, inr, ◌⊎◌, ◌==◌, append_assoc,
}
use stream_api.Base.Text.{has_prefix, Lacks}
use stream_api.Base.FilePath.{slash, before_slash}
use stream_api.Logs.{transport_hls, transport_hlsll}
use stream_api.Logs.Parser.{
  Groups, has_newline, after_slash, file_groups, slug_groups, groups_here, or_else, find_groups,
}

prefix_lem : (s p : Str) → has_prefix s p ≡ true → s ≡ p ++ drop (length p) s
unfolding has_prefix
prefix_lem s [] h = refl
prefix_lem [] (c ∷ p) h = cc
prefix_lem (d ∷ s) (c ∷ p) h = ground (arith, prefix_lem s p)

before_slash-Lacks : (s : Str) → Lacks slash (before_slash s)
before_slash-Lacks [] = tt
before_slash-Lacks (c ∷ s) = elim (Bool-cases (c == slash)) [
  | inl at_slash ↦ rw at_slash tt
  | inr other ↦ rw other (ground arith, before_slash-Lacks s)
]

after_slash_lem : (s rest : Str) → after_slash s ≡ some rest → s ≡ before_slash s ++ (slash ∷ rest)
after_slash_lem [] rest h = cc
after_slash_lem (c ∷ s) rest h = ground (arith, after_slash_lem s rest)

-- `/transport/slug/file`, where no slash is in the slug and no newline in the file.
abbrev written : Groups → Str
written g = slash ∷ (g.transport ++ (slash ∷ (g.slug ++ (slash ∷ g.file))))

-- A text ends with the groups, after what stands before them.
pub record EndsWith (s : Str) (g : Groups) : Type 0 where
  pub before : Str
  pub reads : s ≡ before ++ written g
  pub known :
      (g.transport ≡ codes "dash")
      ⊎ ((g.transport ≡ transport_hls) ⊎ (g.transport ≡ transport_hlsll))
  pub no_slash : Lacks slash g.slug
  pub has_slug : g.slug ≢ []
  pub has_file : g.file ≢ []
  pub one_line : has_newline g.file ≡ false

file_groups_lem :
    (transport slug : Str) (rest : Option Str) (g : Groups)
    → file_groups transport slug rest ≡ some g
    → (g.transport ≡ transport)
      × (g.slug ≡ slug)
      × (rest ≡ some g.file)
      × (g.slug ≢ [])
      × (g.file ≢ [])
      × (has_newline g.file ≡ false)
unfolding file_groups
file_groups_lem transport [] rest g h = cc
file_groups_lem transport (c ∷ slug) none g h = cc
file_groups_lem transport (c ∷ slug) (some []) g h = cc
file_groups_lem transport (c ∷ slug) (some (d ∷ file)) g h = ground arith

-- A match after a known transport.
slug_groups-EndsWith :
    (transport s : Str) (g : Groups)
    → (transport ≡ codes "dash") ⊎ ((transport ≡ transport_hls) ⊎ (transport ≡ transport_hlsll))
    → has_prefix s (slash ∷ (transport ++ (slash ∷ []))) ≡ true
    → slug_groups transport (drop (length (slash ∷ (transport ++ (slash ∷ [])))) s) ≡ some g
    → EndsWith s g
unfolding slug_groups
slug_groups-EndsWith transport s g known starts h =
    let rest = drop (length (slash ∷ (transport ++ (slash ∷ [])))) s in
    let (t, slug, file, has_slug, has_file, one_line) =
      file_groups_lem transport (before_slash rest) (after_slash rest) g h in
    let tail = after_slash_lem rest g.file file in
    let whole = prefix_lem s (slash ∷ (transport ++ (slash ∷ []))) starts in
    record {
      before = [];
      reads =
          whole
          ∙ ap (λ r. (slash ∷ (transport ++ (slash ∷ []))) ++ r) tail
          ∙ simp (t, slug, append_assoc);
      known = rw t known;
      no_slash = rw slug (before_slash-Lacks rest);
      has_slug = has_slug;
      has_file = has_file;
      one_line = one_line;
    }

groups_here-EndsWith : (s : Str) (g : Groups) → groups_here s ≡ some g → EndsWith s g
unfolding groups_here
groups_here-EndsWith s g h = elim (Bool-cases (has_prefix s (codes "/dash/"))) [
  | inl dash ↦ slug_groups-EndsWith (codes "dash") s g (inl refl) dash (rw dash at h)
  | inr not_dash ↦ elim (Bool-cases (has_prefix s (codes "/hls/"))) [
    | inl hls ↦
        slug_groups-EndsWith transport_hls s g (inr (inl refl)) hls (rw (not_dash, hls) at h)
    | inr not_hls ↦ elim (Bool-cases (has_prefix s (codes "/hlsll/"))) [
      | inl hlsll ↦
          slug_groups-EndsWith transport_hlsll s g (inr (inr refl)) hlsll
            (rw (not_dash, not_hls, hlsll) at h)
      | inr none_of_them ↦ absurd (none-ne-some (rw (not_dash, not_hls, none_of_them) at h))
    ]
  ]
]
  where
    none-ne-some : ◌≡◌ {A = Option Groups} none (some g) → ⊥
    none-ne-some e = cc

later-EndsWith : (c : ℕ) (s : Str) (g : Groups) → EndsWith s g → EndsWith (c ∷ s) g
later-EndsWith c s g e = record {
  before = c ∷ e.before;
  reads = ap (λ (r : Str). c ∷ r) e.reads;
  known = e.known;
  no_slash = e.no_slash;
  has_slug = e.has_slug;
  has_file = e.has_file;
  one_line = e.one_line;
}

-- What is found stands in the text.
pub find_groups-EndsWith : (s : Str) (g : Groups) → find_groups s ≡ some g → EndsWith s g
unfolding find_groups or_else
find_groups-EndsWith [] g h = absurd (cc h)
find_groups-EndsWith (c ∷ s) g h =
    by_first (groups_here (c ∷ s)) refl h (λ e. later-EndsWith c s g (find_groups-EndsWith s g e))
  where
    by_first :
        (first : Option Groups)
        → groups_here (c ∷ s) ≡ first
        → or_else first (find_groups s) ≡ some g
        → (find_groups s ≡ some g → EndsWith (c ∷ s) g)
        → EndsWith (c ∷ s) g
    by_first none e f deeper = deeper f
    by_first (some g') e f deeper = groups_here-EndsWith (c ∷ s) g (e ∙ f)
