-- ===== src/Upload/Hls/Variant/Appends.antt =====
-- Which items of a source playlist the loop appends to the output (`appendItems` of upload/hls.go).
use stream_api.Base.{
  ℕ, suc, ◌≡◌, refl, ◌∙◌, not, ◌&&◌, Option, some, List, [], ◌∷◌, ◌++◌, if◌then◌else◌, >>=-eq-some,
  arith, length, Bool-cases, subst, inl, inr, Ensures, Ensures-some, Ensures-bind,
}
use stream_api.Base.Int.{ℤ, pos, ltb_ℤ}
use stream_api.Upload.M3u8.{
  Segment, Item, segment_item, discontinuity_item, Playlist, Library, is_segment,
}
use stream_api.Upload.Playlist.{LivePlaylist, append}
use stream_api.Upload.Playlist.Window.{append_all}
use stream_api.Upload.Hls.{VariantPlaylist, Hls, keep_file}
use stream_api.Upload.Hls.Variant.{
  expire_deleted, append_segment, record_duration, append_item, append_loop, append_items,
}

-- The segments of a playlist from an index on.
abbrev pub segments_from : ℤ → ℕ → List Item → List Item
segments_from last index [] = []
segments_from last index (x ∷ xs) =
    if is_segment x && not (ltb_ℤ (pos index) last)
    then x ∷ segments_from last (suc index) xs
    else segments_from last (suc index) xs

pub append_all_one :
    (lp : LivePlaylist) (x : Item) (out : LivePlaylist) (d : Option Item)
    → append lp x ≡ some (out, d)
    → append_all lp (x ∷ []) ≡ some out
unfolding append_all
append_all_one lp x out d h = rw h

pub append_all-append :
    (lp mid : LivePlaylist) (xs ys : List Item)
    → append_all lp xs ≡ some mid
    → append_all lp (xs ++ ys) ≡ append_all mid ys
unfolding append_all
append_all-append lp mid [] ys h = ground arith
append_all-append lp mid (x ∷ xs) ys h =
    let (r, step, rest) = >>=-eq-some (append lp x) (λ r. append_all r.0 xs) h in
    rw step (append_all-append r.0 mid xs ys rest)

module _ (lib : Library) where
  -- A step of the loop leaves the index alone and appends `xs` to the output.
  record Adds (xs : List Item) (v : VariantPlaylist) (r : VariantPlaylist × Hls lib) : Type 0 where
    same_index : r.0.last_index ≡ v.last_index
    same_size : r.0.last_size ≡ v.last_size
    same_sequence : r.0.last_sequence ≡ v.last_sequence
    output : append_all v.output xs ≡ some r.0.output

  append_segment-Adds :
      (g : Segment) (v : VariantPlaylist) (s : Hls lib)
      → Ensures (Adds (segment_item g ∷ []) v) (append_segment lib g v s)
  unfolding append_segment
  append_segment-Adds g v s =
      Ensures-bind _ (keep_file lib g.segment (record_duration lib g v s)) _ (λ kept _.
        Ensures-bind _ (append v.output (segment_item g)) _ (λ out step.
          Ensures-bind _ (expire_deleted lib out.1 kept) _ (λ after _. Ensures-some _ _ (record {
            same_index = refl;
            same_size = refl;
            same_sequence = refl;
            output = append_all_one v.output (segment_item g) out.0 out.1 step;
          }))))

  Adds-nothing : (v : VariantPlaylist) (s : Hls lib) → Adds [] v (v, s)
  Adds-nothing v s = record {
    same_index = refl;
    same_size = refl;
    same_sequence = refl;
    output = unfold append_all in refl;
  }

  Adds-trans :
      (xs ys : List Item) (v : VariantPlaylist) (r r' : VariantPlaylist × Hls lib)
      → Adds xs v r
      → Adds ys r.0 r'
      → Adds (xs ++ ys) v r'
  Adds-trans xs ys v r r' a b = record {
    same_index = b.same_index ∙ a.same_index;
    same_size = b.same_size ∙ a.same_size;
    same_sequence = b.same_sequence ∙ a.same_sequence;
    output = append_all-append v.output r.0.output xs ys a.output ∙ b.output;
  }

  append_item-Adds :
      (index : ℕ) (item : Item) (v : VariantPlaylist) (s : Hls lib)
      → Ensures
          (Adds (segments_from v.last_index index (item ∷ [])) v)
          (append_item lib index item v s)
  unfolding append_item
  append_item-Adds index (segment_item g) v s = elim (Bool-cases (ltb_ℤ (pos index) v.last_index)) [
    | inl old ↦ rw old (Ensures-some _ _ (Adds-nothing v s))
    | inr new ↦ rw new (append_segment-Adds g v s)
  ]
  append_item-Adds index discontinuity_item v s = Ensures-some _ _ (Adds-nothing v s)
  append_item-Adds index _ v s = Ensures-some _ _ (Adds-nothing v s)

  segments_from_cons :
      (last : ℤ) (index : ℕ) (x : Item) (xs : List Item)
      → segments_from last index (x ∷ xs)
        ≡ segments_from last index (x ∷ []) ++ segments_from last (suc index) xs
  segments_from_cons last index x xs = ground arith

  append_loop-Adds :
      (index : ℕ) (items : List Item) (v : VariantPlaylist) (s : Hls lib)
      → Ensures (Adds (segments_from v.last_index index items) v) (append_loop lib index items v s)
  unfolding append_loop
  append_loop-Adds index [] v s = Ensures-some _ _ (Adds-nothing v s)
  append_loop-Adds index (item ∷ items) v s = Ensures-bind _ _ _ (λ r step.
      let one = (append_item-Adds index item v s).holds r step in
      record {
        holds = λ r' rest. rw (segments_from_cons v.last_index index item items) (
            Adds-trans (segments_from v.last_index index (item ∷ []))
              (segments_from v.last_index (suc index) items) v r r' one
              (subst (λ i. Adds (segments_from i (suc index) items) r.0 r') one.same_index
                ((append_loop-Adds (suc index) items r.0 r.1).holds r' rest)));
      })

  pub append_items-output :
      (v : VariantPlaylist) (source : Playlist) (s : Hls lib)
      → Ensures
          (λ (r : VariantPlaylist × Hls lib).
            (append_all v.output (segments_from v.last_index 0 source.items) ≡ some r.0.output)
            × (r.0.last_index ≡ pos (length source.items))
            × (r.0.last_size ≡ v.last_size)
            × (r.0.last_sequence ≡ v.last_sequence))
          (append_items lib v source s)
  unfolding append_items
  append_items-output v source s = Ensures-bind _ (append_loop lib 0 source.items v s) _ (λ r step.
      let a = (append_loop-Adds 0 source.items v s).holds r step in
      Ensures-some _ _ (a.output, refl, a.same_size, a.same_sequence))

-- Where a playlist holds only segments, those from an index on are what is behind it.
