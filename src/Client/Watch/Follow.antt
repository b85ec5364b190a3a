-- ===== src/Client/Watch/Follow.antt =====
-- A receiver of the updates of a watch has the listing (client/consul.go).
use stream_api.Base.{
  ◌≡◌, refl, sym, ap, ◌∙◌, true, not, ◌&&◌, Option, none, some, is_some, List, [], ◌∷◌, ◌++◌, Str,
  str_Eq, str_eq, str_eq_iff, if◌then◌else◌, arith, Bool-cases, inl, inr,
}
use stream_api.Base.Dict.{
  Dict, lookup, insert, remove, lookup-insert, lookup-remove, IsDistinct, insert-IsDistinct,
  remove-IsDistinct,
}
use stream_api.Client.Watch.{
  WatchUpdate, put, delete, all_pairs, Difference, keys, is_cached, add_pair, add_pairs,
  remove_outdated, difference, handle_watch,
}
use stream_api.Client.Watch.Expected.{
  has, Apart, has-keys, keys-Apart, has-remove_first, remove_first-Apart,
}

-- What a receiver keeps.
abbrev pub apply : WatchUpdate → Dict Str Str → Dict Str Str
apply (put key value) view = insert key value view
apply (delete key) view = remove key view

unfoldable pub apply_all : List WatchUpdate → Dict Str Str → Dict Str Str
apply_all [] view = view
apply_all (u ∷ us) view = apply_all us (apply u view)

abbrev pub Agree : Dict Str Str → Dict Str Str → Type 0
Agree a b = (key : Str) → lookup key a ≡ lookup key b

apply-Agree : (u : WatchUpdate) (a b : Dict Str Str) → Agree a b → Agree (apply u a) (apply u b)
apply-Agree (put key value) a b h q =
    ground (arith, h q, lookup-insert key q value a, lookup-insert key q value b)
apply-Agree (delete key) a b h q = ground (arith, h q, lookup-remove key q a, lookup-remove key q b)

apply_all-Agree :
    (us : List WatchUpdate) (a b : Dict Str Str)
    → Agree a b
    → Agree (apply_all us a) (apply_all us b)
unfolding apply_all
apply_all-Agree [] a b h = h
apply_all-Agree (u ∷ us) a b h = apply_all-Agree us (apply u a) (apply u b) (apply-Agree u a b h)

apply_all-append :
    (us : List WatchUpdate) (u : WatchUpdate) (view : Dict Str Str)
    → apply_all (us ++ (u ∷ [])) view ≡ apply u (apply_all us view)
unfolding apply_all
apply_all-append [] u view = refl
apply_all-append (v ∷ us) u view = apply_all-append us u (apply v view)

-- The cache is what a receiver has that began with `start`, and the expected keys are apart.
pub record IsTrue (start : Dict Str Str) (d : Difference) : Type 0 where
  pub sent : d.cache ≡ apply_all d.updates start
  pub apart : Apart d.expected
  pub distinct : IsDistinct d.cache

add_pair-IsTrue :
    (start : Dict Str Str) (key value : Str) (d : Difference)
    → IsTrue start d
    → IsTrue start (add_pair key value d)
unfolding add_pair
add_pair-IsTrue start key value d h = elim (Bool-cases (is_cached (lookup key d.cache) value)) [
  | inl cached ↦ rw cached (record {
    sent = h.sent;
    apart = remove_first-Apart key d.expected h.apart;
    distinct = h.distinct;
  })
  | inr new ↦ rw new (record {
    sent = ap (insert key value) h.sent ∙ sym (apply_all-append d.updates (put key value) start);
    apart = remove_first-Apart key d.expected h.apart;
    distinct = insert-IsDistinct key value d.cache h.distinct;
  })
]

is_cached_lem : (o : Option Str) (value : Str) → is_cached o value ≡ true → o ≡ some value
unfolding is_cached
is_cached_lem none value h = cc
is_cached_lem (some old) value h = ap some ((str_eq_iff old value).0 h)

add_pair_lem :
    (key value q : Str) (d : Difference)
    → Apart d.expected
    → (lookup q (add_pair key value d).cache
        ≡ (if str_eq key q then some value else lookup q d.cache))
      × (has q (add_pair key value d).expected ≡ (has q d.expected && not (str_eq key q)))
unfolding add_pair
add_pair_lem key value q d h =
    let left = has-remove_first key q d.expected h in
    elim (Bool-cases (is_cached (lookup key d.cache) value)) [
      | inr new ↦ rw new (lookup-insert key q value d.cache, left)
      | inl cached ↦ rw cached (kept (is_cached_lem (lookup key d.cache) value cached), left)
    ]
  where
    kept :
        lookup key d.cache ≡ some value
        → lookup q d.cache ≡ (if str_eq key q then some value else lookup q d.cache)
    kept e = elim (Bool-cases (str_eq key q)) [
      | inl same ↦ rw same (rw ((str_eq_iff key q).0 same) at e)
      | inr other ↦ rw other
    ]

add_pairs-IsTrue :
    (start pairs : Dict Str Str) (d : Difference)
    → IsTrue start d
    → IsTrue start (add_pairs pairs d)
unfolding add_pairs
add_pairs-IsTrue start [] d h = h
add_pairs-IsTrue start ((key, value) ∷ pairs) d h =
    add_pairs-IsTrue start pairs (add_pair key value d) (add_pair-IsTrue start key value d h)

add_pairs_lem :
    (start pairs : Dict Str Str) (q : Str) (d : Difference)
    → IsDistinct pairs
    → IsTrue start d
    → (lookup q (add_pairs pairs d).cache
        ≡ (if is_some (lookup q pairs) then lookup q pairs else lookup q d.cache))
      × (has q (add_pairs pairs d).expected ≡ (has q d.expected && not (is_some (lookup q pairs))))
unfolding add_pairs lookup
add_pairs_lem start [] q d distinct h = ground arith
add_pairs_lem start ((key, value) ∷ pairs) q d (fresh, distinct) h = ground (
  arith,
  add_pairs_lem start pairs q (add_pair key value d) distinct (add_pair-IsTrue start key value d h),
  add_pair_lem key value q d h.apart,
  str_eq_iff key q,
  fresh,
)

remove_outdated-IsTrue :
    (start : Dict Str Str) (names : List Str) (d : Difference)
    → IsTrue start d
    → IsTrue start (remove_outdated names d)
unfolding remove_outdated
remove_outdated-IsTrue start [] d h = h
remove_outdated-IsTrue start (n ∷ names) d h = remove_outdated-IsTrue start names _ (record {
  sent = ap (remove n) h.sent ∙ sym (apply_all-append d.updates (delete n) start);
  apart = h.apart;
  distinct = remove-IsDistinct n d.cache h.distinct;
})

remove_outdated_lem :
    (names : List Str) (q : Str) (d : Difference)
    → lookup q (remove_outdated names d).cache ≡ (if has q names then none else lookup q d.cache)
unfolding remove_outdated
remove_outdated_lem [] q d = refl
remove_outdated_lem (n ∷ names) q d = ground (
  arith,
  remove_outdated_lem names q
      (record d { updates = d.updates ++ (delete n ∷ []); cache = remove n d.cache }),
  lookup-remove n q d.cache,
  str_eq_iff n q,
  str_eq_iff q n,
)

begin-IsTrue :
    (cache : Dict Str Str)
    → IsDistinct cache
    → IsTrue cache (record { expected = keys cache; updates = []; cache = cache })
unfolding apply_all
begin-IsTrue cache h = record { sent = refl; apart = keys-Apart cache h; distinct = h }

pub difference-IsTrue :
    (pairs cache : Dict Str Str) → IsDistinct cache → IsTrue cache (difference pairs cache)
unfolding difference
difference-IsTrue pairs cache h =
    let added = add_pairs pairs (record { expected = keys cache; updates = []; cache = cache }) in
    remove_outdated-IsTrue cache added.expected added
      (add_pairs-IsTrue cache pairs _ (begin-IsTrue cache h))

pub difference_lem :
    (pairs cache : Dict Str Str)
    → IsDistinct cache
    → IsDistinct pairs
    → Agree (difference pairs cache).cache pairs
unfolding difference
difference_lem pairs cache h distinct q =
    let begin : Difference = record { expected = keys cache; updates = []; cache = cache } in
    let added = add_pairs pairs begin in
    ground (
      arith,
      remove_outdated_lem added.expected q added,
      add_pairs_lem cache pairs q begin distinct (begin-IsTrue cache h),
      has-keys q cache,
    )

-- The state of a watch and of a receiver: the cache, and what the receiver has.
abbrev pub Watched : Type 0
Watched = Dict Str Str × Dict Str Str

abbrev receive : Option (List WatchUpdate) → Dict Str Str → Dict Str Str
receive none view = view
receive (some us) view = apply_all us view

-- The handler gets a listing of all pairs, and the receiver what it sends.
pub step : Dict Str Str → Watched → Watched
unfolding handle_watch apply_all
step pairs (cache, view) =
    let (sent, cache') = handle_watch (all_pairs pairs) cache in (cache', receive sent view)

unfoldable pub steps : List (Dict Str Str) → Watched → Watched
unfolding step
steps [] w = w
steps (pairs ∷ listings) w = steps listings (step pairs w)

-- The receiver has what the cache has.
pub record InStep (w : Watched) : Type 0 where
  pub distinct : IsDistinct w.0
  pub agree : Agree w.1 w.0

step-InStep : (pairs : Dict Str Str) (w : Watched) → InStep w → InStep (step pairs w)
unfolding step handle_watch
step-InStep pairs (cache, view) h = record {
  distinct = (difference-IsTrue pairs cache h.distinct).distinct;
  agree = λ q.
      apply_all-Agree (difference pairs cache).updates view cache h.agree q
      ∙ ap (lookup q) (sym (difference-IsTrue pairs cache h.distinct).sent);
}

step-listing :
    (pairs : Dict Str Str) (w : Watched)
    → InStep w
    → IsDistinct pairs
    → Agree (step pairs w).1 pairs
step-listing pairs w h distinct q = (step-InStep pairs w h).agree q ∙ last_cache
  where
    last_cache : lookup q (step pairs w).0 ≡ lookup q pairs
    last_cache = unfold step handle_watch in difference_lem pairs w.0 h.distinct distinct q

-- However many listings a watch has handed over, a receiver that was in step with it has the pairs of the
-- last one, no more and no less, if that lists no key twice; and it is in step again.
pub steps-listing :
    (listings : List (Dict Str Str)) (pairs : Dict Str Str) (w : Watched)
    → InStep w
    → IsDistinct pairs
    → Agree (steps (listings ++ (pairs ∷ [])) w).1 pairs
      × InStep (steps (listings ++ (pairs ∷ [])) w)
unfolding steps
steps-listing [] pairs w h distinct = (step-listing pairs w h distinct, step-InStep pairs w h)
steps-listing (first ∷ listings) pairs w h distinct =
    steps-listing listings pairs (step first w) (step-InStep first w h) distinct
