-- ===== src/Upload/Registry/Lifetime.antt =====
-- How long `FileRegistry` keeps a file.
use stream_api.Base.{
  leb, ◌+◌, ℕ, ◌≡◌, refl, sym, ◌∙◌, Bool, false, Option, none, some, List, [], ◌∷◌, Str, str_Eq,
  str_eq, str_eq_iff, if◌then◌else◌, arith, is_some, All, ◌&&◌, ◌||◌, not, Bool-cases, inl, inr,
}
use stream_api.Base.Dict.{
  Dict, lookup, lookup-insert, lookup-remove, IsDistinct, insert-IsDistinct, remove-IsDistinct,
}
use stream_api.Upload.Registry.{
  FileEntry, FileRegistry, RegistryConfig, new_file_registry, add, drops_keep, file_status, Verdict,
  stay, change, expired, judge, carry_out, expire_loop, expire,
}

-- The entries are stored under their own paths, no path twice.
pub record IsFiled (r : FileRegistry) : Type 0 where
  pub distinct : IsDistinct r.files
  pub own_path : (p : Str) (e : FileEntry) → lookup p r.files ≡ some e → e.path ≡ p

pub new_file_registry-IsFiled : (c : RegistryConfig) → IsFiled (new_file_registry c)
unfolding new_file_registry lookup
new_file_registry-IsFiled c = record { distinct = tt; own_path = λ p e h. cc }

-- What the status of a path becomes by a verdict.
abbrev pub after : Verdict → FileEntry → Option FileEntry
after stay e = some e
after (change e') e = some e'
after expired e = none

abbrev by_verdict : (ℕ → Bool) → ℕ → (Str → ℕ) → ℕ → Option FileEntry → Option FileEntry
by_verdict closed now later delay none = none
by_verdict closed now later delay (some e) = after (judge closed now later delay e) e

-- The same by the entry alone: its channel `keep` and whether its deadline is over.
abbrev pub left_over : (ℕ → Bool) → ℕ → ℕ → FileEntry → Option ℕ → Option FileEntry
left_over closed now renewed e none = if leb e.deadline now then none else some e
left_over closed now renewed e (some c) =
    if closed c then some (record e { deadline = renewed; keep = none }) else some e

abbrev pub judged : (ℕ → Bool) → ℕ → (Str → ℕ) → ℕ → Option FileEntry → Option FileEntry
judged closed now later delay none = none
judged closed now later delay (some e) = left_over closed now (later e.path + delay) e e.keep

judged_lem :
    (closed : ℕ → Bool) (now : ℕ) (later : Str → ℕ) (delay : ℕ) (o : Option FileEntry)
    → by_verdict closed now later delay o ≡ judged closed now later delay o
unfolding judge
judged_lem closed now later delay none = refl
judged_lem closed now later delay (some e) = ground arith

module _ (closed : ℕ → Bool) (now : ℕ) (later : Str → ℕ) where
  carry_out_lem :
      (p q : Str) (v : Verdict) (r : FileRegistry) (e : FileEntry)
      → lookup p r.files ≡ some e
      → lookup q (carry_out closed now later p v r).files
        ≡ (if str_eq p q then after v e else lookup q r.files)
  unfolding carry_out
  carry_out_lem p q stay r e h = ground (arith, str_eq_iff p q)
  carry_out_lem p q (change e') r e h = lookup-insert p q e' r.files
  carry_out_lem p q expired r e h = lookup-remove p q r.files

  config-carry_out :
      (p : Str) (v : Verdict) (r : FileRegistry)
      → (carry_out closed now later p v r).config ≡ r.config
  unfolding carry_out
  config-carry_out p stay r = refl
  config-carry_out p (change e) r = refl
  config-carry_out p expired r = refl

  -- The loop judges the entries that it ranges over, and leaves the others alone.
  expire_loop_lem :
      (entries : Dict Str FileEntry) (r : FileRegistry) (q : Str)
      → IsDistinct entries
      → ((p : Str) (e : FileEntry) → lookup p entries ≡ some e → lookup p r.files ≡ some e)
      → lookup q (expire_loop closed now later entries r).files ≡ (
          if is_some (lookup q entries)
          then by_verdict closed now later r.config.keep_delay (lookup q entries)
          else lookup q r.files)
  unfolding expire_loop lookup
  expire_loop_lem [] r q d agree = refl
  expire_loop_lem ((p, e) ∷ entries) r q (fresh, d) agree =
      let v = judge closed now later r.config.keep_delay e in
      let here : lookup p r.files ≡ some e = agree p e (ground (arith, str_eq_iff p p)) in
      let next = carry_out closed now later p v r in
      let step : (x : Str)
          → lookup x next.files ≡ (if str_eq p x then after v e else lookup x r.files) =
        λ x. carry_out_lem p x v r e here in
      let rest =
        expire_loop_lem entries next q d
          (λ x e' h. ground (arith, step x, agree x e', str_eq_iff p x, fresh, h)) in
      ground (arith, rest, step q, fresh, str_eq_iff p q, config-carry_out p v r)

  carry_out-IsDistinct :
      (p : Str) (v : Verdict) (r : FileRegistry)
      → IsDistinct r.files
      → IsDistinct (carry_out closed now later p v r).files
  unfolding carry_out
  carry_out-IsDistinct p stay r h = h
  carry_out-IsDistinct p (change e) r h = insert-IsDistinct p e r.files h
  carry_out-IsDistinct p expired r h = remove-IsDistinct p r.files h

  expire_loop-IsDistinct :
      (entries : Dict Str FileEntry) (r : FileRegistry)
      → IsDistinct r.files
      → IsDistinct (expire_loop closed now later entries r).files
  unfolding expire_loop
  expire_loop-IsDistinct [] r h = h
  expire_loop-IsDistinct ((p, e) ∷ entries) r h =
      let v = judge closed now later r.config.keep_delay e in
      expire_loop-IsDistinct entries (carry_out closed now later p v r)
        (carry_out-IsDistinct p v r h)

  -- One expiry of a registry whose entries stand under their own paths, none twice: an entry whose channel is open stays as it is; one
  -- whose channel is closed loses it and gets a deadline of its keep delay from then; one without a
  -- channel stays exactly while its deadline lies after `now`; and no entry appears.
  pub status-expire :
      (r : FileRegistry) (q : Str)
      → IsFiled r
      → file_status q (expire closed now later r)
        ≡ judged closed now later r.config.keep_delay (file_status q r)
  unfolding file_status expire
  status-expire r q f =
      ground (arith, expire_loop_lem r.files r q f.distinct (λ p e h. h))
      ∙ judged_lem closed now later r.config.keep_delay (lookup q r.files)

  judged_own_path :
      (delay : ℕ) (q : Str) (o : Option FileEntry) (e : FileEntry)
      → ((e' : FileEntry) → o ≡ some e' → e'.path ≡ q)
      → judged closed now later delay o ≡ some e
      → e.path ≡ q
  judged_own_path delay q none e own h = cc
  judged_own_path delay q (some e') e own h = ground (arith, own e' refl)

  pub expire-IsFiled : (r : FileRegistry) → IsFiled r → IsFiled (expire closed now later r)
  expire-IsFiled r f = record {
    distinct = unfold expire in expire_loop-IsDistinct r.files r f.distinct;
    own_path = λ q e h.
        judged_own_path r.config.keep_delay q (file_status q r) e
          (unfold file_status in f.own_path q)
          (sym (status-expire r q f) ∙ (unfold file_status in h));
  }

abbrev pub has_keep : Option FileEntry → Bool
has_keep none = false
has_keep (some e) = is_some e.keep

-- Adding an entry is seen at its path, unless it has no channel and the one there has.
pub status-add :
    (new : FileEntry) (q : Str) (r : FileRegistry)
    → file_status q (add new r) ≡ (
        if str_eq new.path q && (is_some new.keep || not (has_keep (file_status q r)))
        then some new
        else file_status q r)
unfolding file_status add
status-add new q r = ground (arith, lookup-insert new.path q new r.files, str_eq_iff new.path q)

pub add-IsFiled : (new : FileEntry) (r : FileRegistry) → IsFiled r → IsFiled (add new r)
unfolding add
add-IsFiled new r f = elim (Bool-cases (drops_keep new (lookup new.path r.files))) [
  | inl dropped ↦ rw dropped f
  | inr taken ↦ rw taken (record {
    distinct = insert-IsDistinct new.path new r.files f.distinct;
    own_path = λ p e h.
        ground (arith, lookup-insert new.path p new r.files, f.own_path p e, str_eq_iff new.path p);
  })
]

-- What reaches the registry's loop.
pub data Event : Type 0 where
  added : FileEntry → Event
  ticked : (ℕ → Bool) → ℕ → (Str → ℕ) → Event

unfoldable pub handle : Event → FileRegistry → FileRegistry
unfolding add expire
handle (added e) r = add e r
handle (ticked closed now later) r = expire closed now later r

unfoldable pub handle_all : List Event → FileRegistry → FileRegistry
unfolding handle
handle_all [] r = r
handle_all (e ∷ es) r = handle_all es (handle e r)

-- The event brings no other channel for the path, and finds the channel open.
abbrev pub Leaves : Str → ℕ → Event → Type 0
Leaves path c (added e) = e.path ≡ path → e.keep ≡ none
Leaves path c (ticked closed now later) = closed c ≡ false

handle-IsFiled : (e : Event) (r : FileRegistry) → IsFiled r → IsFiled (handle e r)
unfolding handle
handle-IsFiled (added e) r f = add-IsFiled e r f
handle-IsFiled (ticked closed now later) r f = expire-IsFiled closed now later r f

handle_kept :
    (path : Str) (c : ℕ) (e : FileEntry) (event : Event) (r : FileRegistry)
    → IsFiled r
    → file_status path r ≡ some e
    → e.keep ≡ some c
    → Leaves path c event
    → file_status path (handle event r) ≡ some e
unfolding handle
handle_kept path c e (added new) r f at kept leaves =
    ground (arith, status-add new path r, str_eq_iff new.path path, leaves)
handle_kept path c e (ticked closed now later) r f at kept leaves =
    status-expire closed now later r path f ∙ ground arith

-- In a registry whose entries stand under their own paths, none twice, a file with a channel keeps its
-- entry through any events, as long as the channel is open at every
-- expiry and no other channel is given for its path: no registration and no deadline removes it.
pub kept_file_survives :
    (path : Str) (c : ℕ) (e : FileEntry) (events : List Event) (r : FileRegistry)
    → IsFiled r
    → file_status path r ≡ some e
    → e.keep ≡ some c
    → All (Leaves path c) events
    → file_status path (handle_all events r) ≡ some e
unfolding handle_all
kept_file_survives path c e [] r f at kept _ = at
kept_file_survives path c e (x ∷ xs) r f at kept (hx, hs) =
    kept_file_survives path c e xs (handle x r) (handle-IsFiled x r f)
      (handle_kept path c e x r f at kept hx) kept hs
