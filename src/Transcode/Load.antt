-- ===== src/Transcode/Load.antt =====
-- `ByLoad` (transcode/status.go) and the sort by it. A capacity below 0 counts like 0. The quotients are
-- compared by their products, as float64 does for numbers below 2^26. `sort.Sort` is the insertion sort
-- that it is for up to twelve elements.
pub mod Order
use stream_api.Base.{ℕ, ◌*◌, Bool, true, false, List, [], ◌∷◌, Str, if◌then◌else◌, ltb, ◌==◌, ◌||◌}

pub record TranscoderStatus : Type 0 where
  pub name : Str
  pub capacity : ℕ
  pub num_streams : ℕ

unfoldable pub less : TranscoderStatus → TranscoderStatus → Bool
less a b =
    if (a.capacity == 0) || (b.capacity == 0)
    then ltb a.num_streams b.num_streams
    else ltb (a.num_streams * b.capacity) (b.num_streams * a.capacity)

-- An element moves to the front past those that it is less than; the sorted part stands in reverse.
insert_left : TranscoderStatus → List TranscoderStatus → List TranscoderStatus
unfolding less
insert_left x [] = x ∷ []
insert_left x (p ∷ ps) = if less x p then p ∷ insert_left x ps else x ∷ p ∷ ps

sort_loop : List TranscoderStatus → List TranscoderStatus → List TranscoderStatus
unfolding insert_left
sort_loop sorted [] = sorted
sort_loop sorted (x ∷ xs) = sort_loop (insert_left x sorted) xs

-- The last element, which is the first of the sorted list.
first_of : List TranscoderStatus → List TranscoderStatus
first_of [] = []
first_of (x ∷ []) = x ∷ []
first_of (x ∷ y ∷ xs) = first_of (y ∷ xs)

-- The first of the sorted list, if there is one.
unfoldable pub least : List TranscoderStatus → List TranscoderStatus
unfolding sort_loop first_of
least xs = first_of (sort_loop [] xs)
