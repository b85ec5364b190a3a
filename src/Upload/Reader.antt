-- ===== src/Upload/Reader.antt =====
-- `LimitReader` (upload/limit_reader.go) over a reader that hands out its bytes as far as a buffer
-- takes them, then `io.EOF`: with the last bytes, as the body of a request of known length does, or only
-- with a read that finds none. A limit of 0 or less is 0 here: both read nothing.
use stream_api.Base.{
  ℕ, zero, suc, ◌+◌, ◌-◌, ◌≤◌, ◌<◌, ◌≡◌, refl, sym, ap, ◌∙◌, Bool, true, false, ◌&&◌, ◌||◌, Option,
  none, some, [], ◌∷◌, ◌++◌, Str, if◌then◌else◌, ◌==◌, ltb, length, take, drop, arith,
  length-append, length-drop, append_assoc, Bool-cases, inl, inr, drop_nil,
}

pub data ReadError : Type 0 where
  eof : ReadError
  large_file : ReadError

-- The bytes of one `Read`, its error, and the reader afterwards.
pub record Reader : Type 0 where
  pub limit : ℕ
  pub eager : Bool
  pub rest : Str

-- What the reader below says of its end, by what it has before and after a read: `eager` says whether it
-- tells its end with its last bytes.
abbrev pub at_end : Bool → Str → Str → Option ReadError
at_end eager [] after = some eof
at_end true (x ∷ xs) [] = some eof
at_end false (x ∷ xs) [] = none
at_end eager (x ∷ xs) (_ ∷ _) = none

-- The reader below: a buffer of `size` bytes is filled from what is left.
abbrev pub read_below : Bool → ℕ → Str → Str × Option ReadError × Str
read_below eager size rest = (take size rest, at_end eager rest (drop size rest), drop size rest)

unfoldable pub read : ℕ → Reader → Str × Option ReadError × Reader
read size r =
    if r.limit == 0
    then ([], some large_file, r)
    else (let buffer = if ltb r.limit size then r.limit else size in
        let (bytes, failed, rest) = read_below r.eager buffer r.rest in
        (bytes, failed, record r { limit = r.limit - length bytes; rest = rest }))

-- `io.Copy` and `io.ReadAll`: reads until an error, with a buffer of `size` bytes. `io.EOF` is the
-- success. The fuel is one read a byte and two more.
read_loop : ℕ → ℕ → Str → Reader → Option (Str × ReadError)
read_loop zero size acc r = none
read_loop (suc fuel) size acc r =
    let (bytes, failed, r') = read size r in
    elim failed [ some e ↦ some (acc ++ bytes, e) | none ↦ read_loop fuel size (acc ++ bytes) r' ]

unfoldable pub read_all : ℕ → Reader → Option (Str × ReadError)
unfolding read_loop read
read_all size r = read_loop (length r.rest + 2) size [] r

take_all : (n : ℕ) (xs : Str) → length xs ≤ n → take n xs ≡ xs
take_all zero [] h = refl
take_all zero (x ∷ xs) h = absurd (omega arith)
take_all (suc n) [] h = refl
take_all (suc n) (x ∷ xs) h = ap (λ (ys : Str). x ∷ ys) (take_all n xs (omega arith))

length-take : (n : ℕ) (xs : Str) → n ≤ length xs → length (take n xs) ≡ n
length-take zero xs h = refl
length-take (suc n) [] h = absurd (omega arith)
length-take (suc n) (x ∷ xs) h = ap suc (length-take n xs (omega arith))

length-take_le : (n : ℕ) (xs : Str) → (length (take n xs) ≤ n) × (length (take n xs) ≤ length xs)
length-take_le zero xs = omega arith
length-take_le (suc n) [] = omega arith
length-take_le (suc n) (x ∷ xs) = omega (arith, length-take_le n xs)

take-append-drop : (n : ℕ) (xs : Str) → take n xs ++ drop n xs ≡ xs
take-append-drop zero xs = refl
take-append-drop (suc n) [] = refl
take-append-drop (suc n) (x ∷ xs) = ap (λ (ys : Str). x ∷ ys) (take-append-drop n xs)

-- The outcome by the number of bytes alone.
abbrev pub accepts : Bool → ℕ → ℕ → Bool
accepts eager limit n = ltb n limit || (eager && ((n == limit) && ltb 0 n))

abbrev pub outcome : Bool → ℕ → Str → Str × ReadError
outcome eager limit body =
    if accepts eager limit (length body) then (body, eof) else (take limit body, large_file)

take_nil : (n : ℕ) → take {A = ℕ} n [] ≡ []
take_nil zero = refl
take_nil (suc n) = refl

take_parts :
    (b m : ℕ) (xs : Str)
    → b ≤ m
    → take b xs ++ take (m - length (take b xs)) (drop b xs) ≡ take m xs
take_parts zero m xs h = let e : m - 0 ≡ m = omega arith in rw e
take_parts (suc b) m [] h = take_nil _ ∙ sym (take_nil m)
take_parts (suc b) zero (x ∷ xs) h = absurd (omega arith)
take_parts (suc b) (suc m) (x ∷ xs) h =
    let e : suc m - suc (length (take b xs)) ≡ m - length (take b xs) = omega arith in
    rw e (ap (λ (ys : Str). x ∷ ys) (take_parts b m xs (omega arith)))

length-parts : (b : ℕ) (xs : Str) → length (take b xs) + length (drop b xs) ≡ length xs
length-parts b xs =
    omega (arith, length-append (take b xs) (drop b xs), ap length (take-append-drop b xs))

-- The reader below has told its end.
abbrev told : Bool → Str → Bool
told eager after = eager && (length after == 0)

outcome_parts :
    (eager : Bool) (b limit : ℕ) (xs : Str)
    → b ≤ limit
    → told eager (drop b xs) ≡ false
    → let later = outcome eager (limit - length (take b xs)) (drop b xs) in
      outcome eager limit xs ≡ (take b xs ++ later.0, later.1)
outcome_parts eager b limit xs h more = elim (Bool-cases (accepts eager limit (length xs))) [
  | inl small ↦
      let e : accepts eager (limit - length (take b xs)) (length (drop b xs)) ≡ true =
        ground (arith, length-parts b xs, length-take_le b xs) in
      rw (small, e) (ground (arith, take-append-drop b xs))
  | inr large ↦
      let e : accepts eager (limit - length (take b xs)) (length (drop b xs)) ≡ false =
        ground (arith, length-parts b xs, length-take_le b xs) in
      rw (large, e) (ground (arith, take_parts b limit xs h))
]

at_end_lem :
    (eager : Bool) (x : ℕ) (xs after : Str)
    → at_end eager (x ∷ xs) after ≡ (if told eager after then some eof else none)
at_end_lem true x xs [] = refl
at_end_lem false x xs [] = refl
at_end_lem true x xs (y ∷ after) = ground arith
at_end_lem false x xs (y ∷ after) = refl

abbrev buffer_size : ℕ → ℕ → ℕ
buffer_size size l = if ltb (suc l) size then suc l else size

read_more :
    (eager : Bool) (size l x : ℕ) (xs : Str)
    → let b = buffer_size size l in
      read size (record { limit = suc l; eager = eager; rest = x ∷ xs }) ≡ (
        take b (x ∷ xs),
        if told eager (drop b (x ∷ xs)) then some eof else none,
        record { limit = suc l - length (take b (x ∷ xs)); eager = eager; rest = drop b (x ∷ xs) },
      )
unfolding read
read_more eager size l x xs =
    ground (arith, at_end_lem eager x xs (drop (buffer_size size l) (x ∷ xs)))

read_end :
    (eager : Bool) (size l : ℕ)
    → read size (record { limit = suc l; eager = eager; rest = [] })
      ≡ ([], some eof, record { limit = suc l; eager = eager; rest = [] })
unfolding read
read_end eager size l =
    ground (arith, take_nil (buffer_size size l), drop_nil {A = ℕ} (buffer_size size l))

read_spent :
    (eager : Bool) (size : ℕ) (rest : Str)
    → read size (record { limit = 0; eager = eager; rest = rest })
      ≡ ([], some large_file, record { limit = 0; eager = eager; rest = rest })
unfolding read
read_spent eager size rest = refl

-- The last bytes, with which the reader below tells its end
outcome_told :
    (eager : Bool) (b limit x : ℕ) (xs : Str)
    → b ≤ limit
    → told eager (drop b (x ∷ xs)) ≡ true
    → outcome eager limit (x ∷ xs) ≡ (take b (x ∷ xs), eof)
outcome_told eager b limit x xs h last =
    let none_left : length (drop b (x ∷ xs)) ≡ 0 = ground arith in
    let whole : take b (x ∷ xs) ≡ x ∷ xs =
      take_all b (x ∷ xs) (omega (arith, length-drop b (x ∷ xs), none_left)) in
    let e : accepts eager limit (length (x ∷ xs)) ≡ true =
      ground (arith, length-drop b (x ∷ xs), none_left) in
    rw (e, whole) refl

read_loop_lem :
    (fuel size limit : ℕ) (eager : Bool) (rest acc : Str)
    → 0 < size
    → length rest + 1 < fuel
    → read_loop fuel size acc (record { limit = limit; eager = eager; rest = rest })
      ≡ some (acc ++ (outcome eager limit rest).0, (outcome eager limit rest).1)
unfolding read_loop
read_loop_lem zero size limit eager rest acc hs hf = absurd (omega arith)
read_loop_lem (suc fuel) size zero eager rest acc hs hf = ground (arith, read_spent eager size rest)
read_loop_lem (suc fuel) size (suc l) eager [] acc hs hf = ground (arith, read_end eager size l)
read_loop_lem (suc fuel) size (suc l) eager (x ∷ xs) acc hs hf =
    let b : ℕ = buffer_size size l in
    let rest =
      read_loop_lem fuel size (suc l - length (take b (x ∷ xs))) eager (drop b (x ∷ xs))
        (acc ++ take b (x ∷ xs)) hs (ground (arith, length-drop b (x ∷ xs))) in
    elim (Bool-cases (told eager (drop b (x ∷ xs)))) [
      | inl last ↦ ground (
        arith,
        read_more eager size l x xs,
        last,
        outcome_told eager b (suc l) x xs (ground arith) last,
      )
      | inr more ↦ ground (
        arith,
        read_more eager size l x xs,
        more,
        rest,
        outcome_parts eager b (suc l) (x ∷ xs) (ground arith) more,
        append_assoc acc (take b (x ∷ xs))
            (outcome eager (suc l - length (take b (x ∷ xs))) (drop b (x ∷ xs))).0,
      )
    ]

-- Reading to the end with a buffer of any positive size comes to an end. If the body is shorter than the limit, its bytes
-- are delivered, with `io.EOF`. A body longer than the limit ends with `ErrLargeFile`, after `limit` bytes. A body of
-- exactly the limit is taken if it is not empty and the reader below tells its end with its last bytes, and else ends
-- with `ErrLargeFile` too.
pub read_all_lem :
    (size limit : ℕ) (eager : Bool) (body : Str)
    → 0 < size
    → read_all size (record { limit = limit; eager = eager; rest = body })
      ≡ some (outcome eager limit body)
unfolding read_all
read_all_lem size limit eager body h =
    read_loop_lem (length body + 2) size limit eager body [] h (omega arith)
