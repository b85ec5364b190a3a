-- ===== src/Base/FilePath/Plain.antt =====
-- `path.Join` of plain names is their text with slashes between.
use mathlib.Core.List.{reverse, reverse-cons}
use stream_api.Base.{
  not, ◌&&◌, ◌≡◌, refl, sym, ap, ◌∙◌, Bool, true, false, List, [], ◌∷◌, ◌++◌, ◌==◌, Str, str_eq,
  codes, arith, All, append_assoc, append-nil,
}
use stream_api.Base.Text.{split, join, Lacks, split-append, split-join}
use stream_api.Base.FilePath.{
  slash, is_rooted, push_part, clean_parts, or_dot, clean, non_empty, join_path,
}

-- A name of a file or folder.
pub record IsPlain (name : Str) : Type 0 where
  pub lacks_slash : Lacks slash name
  pub filled : str_eq name [] ≡ false
  pub no_dot : str_eq name (codes ".") ≡ false
  pub no_dots : str_eq name (codes "..") ≡ false

-- The test of a concrete name.
abbrev pub no_slash : Str → Bool
no_slash [] = true
no_slash (c ∷ s) = not (c == slash) && no_slash s

no_slash-Lacks : (s : Str) → no_slash s ≡ true → Lacks slash s
no_slash-Lacks [] h = tt
no_slash-Lacks (c ∷ s) h = (ground arith, no_slash-Lacks s (ground arith))

abbrev pub is_plain : Str → Bool
is_plain name =
    no_slash name
    && not (str_eq name [])
    && not (str_eq name (codes "."))
    && not (str_eq name (codes ".."))

pub is_plain_lem : (name : Str) → is_plain name ≡ true → IsPlain name
is_plain_lem name h = record {
  lacks_slash = no_slash-Lacks name (ground arith);
  filled = ground arith;
  no_dot = ground arith;
  no_dots = ground arith;
}

push_part_plain :
    (rooted : Bool) (part : Str) (kept : List Str)
    → IsPlain part
    → push_part rooted part kept ≡ part ∷ kept
push_part_plain rooted part [] h = rw h.no_dots
push_part_plain rooted part (top ∷ kept) h = rw h.no_dots

clean_parts_plain :
    (rooted : Bool) (kept parts : List Str)
    → All IsPlain parts
    → clean_parts rooted kept parts ≡ reverse kept ++ parts
unfolding clean_parts
clean_parts_plain rooted kept [] h = sym (append-nil (reverse kept))
clean_parts_plain rooted kept (part ∷ parts) (h, hs) =
    rw (h.filled, h.no_dot, push_part_plain rooted part kept h)
      (clean_parts_plain rooted (part ∷ kept) parts hs
        ∙ ap (λ (r : List Str). r ++ parts) (reverse-cons part kept)
        ∙ append_assoc (reverse kept) (part ∷ []) parts)

clean_parts_gap :
    (folder : Str) (parts : List Str)
    → IsPlain folder
    → All IsPlain parts
    → clean_parts false [] (folder ∷ [] ∷ parts) ≡ folder ∷ parts
unfolding clean_parts
clean_parts_gap folder parts h hs =
    rw (h.filled, h.no_dot, push_part_plain false folder [] h)
      (clean_parts_plain false (folder ∷ []) parts hs)

non_empty_plain : (parts : List Str) → All IsPlain parts → non_empty parts ≡ parts
non_empty_plain [] h = refl
non_empty_plain ([] ∷ parts) (h, hs) = absurd (cc h.filled)
non_empty_plain ((c ∷ p) ∷ parts) (h, hs) =
    ap (λ (r : List Str). (c ∷ p) ∷ r) (non_empty_plain parts hs)

All-Lacks : (parts : List Str) → All IsPlain parts → All (Lacks slash) parts
All-Lacks [] h = tt
All-Lacks (p ∷ parts) (h, hs) = (h.lacks_slash, All-Lacks parts hs)

folder_start : (folder rest : Str) → IsPlain folder → is_rooted (folder ++ rest) ≡ false
folder_start [] rest h = absurd (cc h.filled)
folder_start (c ∷ folder) rest h = ground (arith, h.lacks_slash)

or_dot_start : (folder rest : Str) → IsPlain folder → or_dot (folder ++ rest) ≡ folder ++ rest
or_dot_start [] rest h = absurd (cc h.filled)
or_dot_start (c ∷ folder) rest h = refl

clean_gap :
    (folder name : Str) (more : List Str)
    → IsPlain folder
    → All IsPlain (name ∷ more)
    → clean (folder ++ (slash ∷ slash ∷ join (name ∷ more) slash))
      ≡ join (folder ∷ name ∷ more) slash
unfolding clean join
clean_gap folder name more h hs =
    let parts : split (folder ++ (slash ∷ slash ∷ join (name ∷ more) slash)) slash
        ≡ folder ∷ [] ∷ name ∷ more =
      split-append folder (slash ∷ join (name ∷ more) slash) slash h.lacks_slash
      ∙ ap (λ (r : List Str). folder ∷ r) (split-append [] (join (name ∷ more) slash) slash tt)
      ∙ ap (λ (r : List Str). folder ∷ [] ∷ r)
          (split-join name more slash (All-Lacks (name ∷ more) hs)) in
    rw
      (
        folder_start folder (slash ∷ slash ∷ join (name ∷ more) slash) h,
        parts,
        clean_parts_gap folder (name ∷ more) h hs,
      )
      (or_dot_start folder (slash ∷ join (name ∷ more) slash) h)

-- A prefix that ends with a slash joins plain names like a folder.
pub join_path_folder :
    (folder name : Str) (more : List Str)
    → IsPlain folder
    → All IsPlain (name ∷ more)
    → join_path ((folder ++ (slash ∷ [])) ∷ name ∷ more) ≡ join (folder ∷ name ∷ more) slash
unfolding join_path join
join_path_folder [] name more h hs = absurd (cc h.filled)
join_path_folder (c ∷ folder) name more h hs = rw (non_empty_plain (name ∷ more) hs) (
    ap clean (append_assoc (c ∷ folder) (slash ∷ []) (slash ∷ join (name ∷ more) slash))
    ∙ clean_gap (c ∷ folder) name more h hs)

-- Its parts are the folder and the names.
pub split-join_path :
    (folder name : Str) (more : List Str)
    → IsPlain folder
    → All IsPlain (name ∷ more)
    → split (join_path ((folder ++ (slash ∷ [])) ∷ name ∷ more)) slash ≡ folder ∷ name ∷ more
split-join_path folder name more h hs =
    rw (join_path_folder folder name more h hs)
      (split-join folder (name ∷ more) slash (h.lacks_slash, All-Lacks (name ∷ more) hs))
