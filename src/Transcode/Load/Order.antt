-- ===== src/Transcode/Load/Order.antt =====
-- The first of the sorted statuses has the least load (transcode/status.go).
use mathlib.Core.List.{Memᴰ}
use native.Mathlib.Nat.{mul_comm, mul_assoc, mul-le-mul_left, le_of_mul-le-mul_left}
use stream_api.Base.{
  subst, ◌↔◌, ℕ, ◌*◌, ◌≤◌, ◌<◌, ◌≡◌, refl, ap, ◌∙◌, true, false, List, [], ◌∷◌, ltb, All, arith,
  Bool-cases, inl, inr,
}
use stream_api.Transcode.Load.{TranscoderStatus, less, insert_left, sort_loop, first_of, least}

-- The load of the one is at most that of the other.
abbrev pub Below : TranscoderStatus → TranscoderStatus → Type 0
Below a b = less b a ≡ false

abbrev pub HasCapacity : TranscoderStatus → Type 0
HasCapacity a = 0 < a.capacity

less_lem :
    (a b : TranscoderStatus)
    → HasCapacity a
    → HasCapacity b
    → less a b ≡ ltb (a.num_streams * b.capacity) (b.num_streams * a.capacity)
unfolding less
less_lem a b ha hb = ground arith

mul_swap : (x y z : ℕ) → x * (y * z) ≡ z * (y * x)
mul_swap x y z = mul_comm x (y * z) ∙ ap (λ (w : ℕ). w * x) (mul_comm y z) ∙ mul_assoc z y x

Below-iff :
    (a b : TranscoderStatus)
    → HasCapacity a
    → HasCapacity b
    → Below a b ↔ (a.num_streams * b.capacity ≤ b.num_streams * a.capacity)
Below-iff a b ha hb = ground (arith, less_lem b a hb ha)

Below-trans :
    (a b c : TranscoderStatus)
    → HasCapacity a
    → HasCapacity b
    → HasCapacity c
    → Below a b
    → Below b c
    → Below a c
Below-trans a b c ha hb hc hab hbc =
    let first = mul-le-mul_left c.capacity ((Below-iff a b ha hb).0 hab) in
    let second = mul-le-mul_left a.capacity ((Below-iff b c hb hc).0 hbc) in
    let third : b.capacity * (a.num_streams * c.capacity)
        ≤ b.capacity * (c.num_streams * a.capacity) =
      omega (
        arith,
        first,
        second,
        mul_swap b.capacity a.num_streams c.capacity,
        mul_swap c.capacity b.num_streams a.capacity,
        mul_swap a.capacity c.num_streams b.capacity,
      ) in
    (Below-iff a c ha hc).1 (le_of_mul-le-mul_left third hb)

Below-less : (a b : TranscoderStatus) → HasCapacity a → HasCapacity b → less a b ≡ true → Below a b
Below-less a b ha hb h = ground (arith, less_lem a b ha hb, less_lem b a hb ha)

module _ {ℓ} (P : TranscoderStatus → Type ℓ) where
  All-insert_left :
      (x : TranscoderStatus) (ps : List TranscoderStatus)
      → P x
      → All P ps
      → All P (insert_left x ps)
  unfolding insert_left
  All-insert_left x [] hx hs = (hx, tt)
  All-insert_left x (p ∷ ps) hx (hp, hs) = elim (Bool-cases (less x p)) [
    | inl lower ↦ rw lower (hp, All-insert_left x ps hx hs)
    | inr higher ↦ rw higher (hx, (hp, hs))
  ]

  All-sort_loop :
      (sorted xs : List TranscoderStatus) → All P sorted → All P xs → All P (sort_loop sorted xs)
  unfolding sort_loop
  All-sort_loop sorted [] hs h = hs
  All-sort_loop sorted (x ∷ xs) hs (hx, h) =
      All-sort_loop (insert_left x sorted) xs (All-insert_left x sorted hx hs) h

  All-first_of : (xs : List TranscoderStatus) → All P xs → All P (first_of xs)
  unfolding first_of
  All-first_of [] h = tt
  All-first_of (x ∷ []) h = h
  All-first_of (x ∷ y ∷ xs) (_, h) = All-first_of (y ∷ xs) h

  -- The other way round: what holds of all sorted elements holds of all.
  insert_left-All :
      (x : TranscoderStatus) (ps : List TranscoderStatus)
      → All P (insert_left x ps)
      → P x × All P ps
  unfolding insert_left
  insert_left-All x [] h = h
  insert_left-All x (p ∷ ps) h = elim (Bool-cases (less x p)) [
    | inl lower ↦
        let (hp, hs) : P p × All P (insert_left x ps) = rw lower at h in
        let (hx, rest) = insert_left-All x ps hs in (hx, (hp, rest))
    | inr higher ↦ let all : P x × (P p × All P ps) = rw higher at h in all
  ]

  sort_loop-All :
      (sorted xs : List TranscoderStatus) → All P (sort_loop sorted xs) → All P sorted × All P xs
  unfolding sort_loop
  sort_loop-All sorted [] h = (h, tt)
  sort_loop-All sorted (x ∷ xs) h =
      let (hs, rest) = sort_loop-All (insert_left x sorted) xs h in
      let (hx, old) = insert_left-All x sorted hs in (old, (hx, rest))

-- In reverse: each element is above all that follow.
abbrev Descends : List TranscoderStatus → Type 0
Descends [] = Unit
Descends (x ∷ xs) = All (λ y. Below y x) xs × Descends xs

Below-All :
    (x p : TranscoderStatus) (ps : List TranscoderStatus)
    → HasCapacity x
    → HasCapacity p
    → All HasCapacity ps
    → Below p x
    → All (λ y. Below y p) ps
    → All (λ y. Below y x) ps
Below-All x p [] hx hp hs h all = tt
Below-All x p (y ∷ ps) hx hp (hy, hs) h (first, all) =
    (Below-trans y p x hy hp hx first h, Below-All x p ps hx hp hs h all)

insert_left-Descends :
    (x : TranscoderStatus) (ps : List TranscoderStatus)
    → HasCapacity x
    → All HasCapacity ps
    → Descends ps
    → Descends (insert_left x ps)
unfolding insert_left
insert_left-Descends x [] hx hs d = (tt, tt)
insert_left-Descends x (p ∷ ps) hx (hp, hs) (top, d) = elim (Bool-cases (less x p)) [
  | inl lower ↦ rw lower (
    All-insert_left (λ y. Below y p) x ps (Below-less x p hx hp lower) top,
    insert_left-Descends x ps hx hs d,
  )
  | inr higher ↦ rw higher ((higher, Below-All x p ps hx hp hs higher top), (top, d))
]

sort_loop-Descends :
    (sorted xs : List TranscoderStatus)
    → All HasCapacity sorted
    → All HasCapacity xs
    → Descends sorted
    → Descends (sort_loop sorted xs)
unfolding sort_loop
sort_loop-Descends sorted [] hs h d = d
sort_loop-Descends sorted (x ∷ xs) hs (hx, h) d =
    sort_loop-Descends (insert_left x sorted) xs (All-insert_left HasCapacity x sorted hx hs) h
      (insert_left-Descends x sorted hx hs d)

Below-self : (x : TranscoderStatus) → HasCapacity x → Below x x
Below-self x h = ground (arith, less_lem x x h h)

first_of-least :
    (xs rest : List TranscoderStatus) (z : TranscoderStatus)
    → All HasCapacity xs
    → Descends xs
    → first_of xs ≡ z ∷ rest
    → All (λ y. Below z y) xs
unfolding first_of
first_of-least [] rest z hs d h = tt
first_of-least (x ∷ []) rest z (hx, _) d h =
    let e : x ≡ z = ground arith in (subst (λ w. Below w x) e (Below-self x hx), tt)
first_of-least (x ∷ y ∷ xs) rest z (hx, hs) (top, d) h =
    let below = first_of-least (y ∷ xs) rest z hs d h in
    let z_below : All (λ w. Below w x) (z ∷ rest) =
      subst (All (λ w. Below w x)) h (All-first_of (λ w. Below w x) (y ∷ xs) top) in
    (z_below.0, below)

members_of :
    (x : TranscoderStatus) (xs ys : List TranscoderStatus)
    → All (λ w. Memᴰ w xs) ys
    → All (λ w. Memᴰ w (x ∷ xs)) ys
members_of x xs [] h = tt
members_of x xs (y ∷ ys) (m, h) = (Memᴰ.tail m, members_of x xs ys h)

All-members : (xs : List TranscoderStatus) → All (λ w. Memᴰ w xs) xs
All-members [] = tt
All-members (x ∷ xs) = (Memᴰ.head refl, members_of x xs xs (All-members xs))

-- Among statuses with capacity the first of the sorted list is one of them, and no other has less load.
pub least_lem :
    (xs rest : List TranscoderStatus) (z : TranscoderStatus)
    → All HasCapacity xs
    → least xs ≡ z ∷ rest
    → Memᴰ z xs × All (λ y. Below z y) xs
unfolding least
least_lem xs rest z hs h =
    let sorted = sort_loop [] xs in
    let found : All (λ w. Memᴰ w xs) (z ∷ rest) = subst (All (λ w. Memᴰ w xs)) h (
      All-first_of (λ w. Memᴰ w xs) sorted
        (All-sort_loop (λ w. Memᴰ w xs) [] xs tt (All-members xs))) in
    let below =
      first_of-least sorted rest z (All-sort_loop HasCapacity [] xs tt hs)
        (sort_loop-Descends [] xs tt hs tt) h in
    (found.0, (sort_loop-All (λ y. Below z y) [] xs below).1)
