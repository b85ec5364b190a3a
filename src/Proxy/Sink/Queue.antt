-- ===== src/Proxy/Sink/Queue.antt =====
-- The queue of a sink keeps the newest requests (cmd/upload-proxy/sink.go).
use stream_api.Base.{
  ℕ, zero, suc, ◌+◌, ◌-◌, ◌≤◌, ◌<◌, ◌≡◌, refl, sym, ap, ◌∙◌, true, Option, some, List, [], ◌∷◌,
  ◌++◌, ltb, ◌>>=◌, length, drop, length-append, length-drop, append_assoc, append-nil, arith,
  Bool-cases, inl, inr,
}
use stream_api.Proxy.Sink.{SinkEntry, SinkMetrics, count_dropped, enqueue_loop, enqueue}

abbrev pub drop_count : ℕ → SinkMetrics → SinkMetrics
drop_count n m = record m { dropped = m.dropped + n }

enqueue_loop_lem :
    (fuel size : ℕ) (entry : SinkEntry) (queue : List SinkEntry) (m : SinkMetrics)
    → 0 < size
    → length queue < fuel
    → enqueue_loop fuel size entry queue m
      ≡ some (
        drop (length queue + 1 - size) (queue ++ (entry ∷ [])),
        drop_count (length queue + 1 - size) m,
      )
unfolding enqueue_loop
enqueue_loop_lem zero size entry queue m hs hf = absurd (omega arith)
enqueue_loop_lem (suc fuel) size entry [] m hs hf =
    let room : ltb 0 size ≡ true = ground arith in
    let e : 0 + 1 - size ≡ 0 = omega arith in
    let same : m.dropped + 0 ≡ m.dropped = omega arith in
    rw (room, e) (ap (λ (n : ℕ). some (entry ∷ [], record m { dropped = n })) (sym same))
enqueue_loop_lem (suc fuel) size entry (x ∷ rest) m hs hf =
    let later = enqueue_loop_lem fuel size entry rest (count_dropped m) hs (omega arith) in
    elim (Bool-cases (ltb (suc (length rest)) size)) [
      | inl room ↦
          let e : suc (length rest) + 1 - size ≡ 0 = ground arith in
          let same : m.dropped + 0 ≡ m.dropped = omega arith in
          rw (room, e)
            (ap (λ (n : ℕ). some (x ∷ rest ++ (entry ∷ []), record m { dropped = n })) (sym same))
      | inr full ↦
          let e : suc (length rest) + 1 - size ≡ suc (length rest + 1 - size) = ground arith in
          let n : suc m.dropped + (length rest + 1 - size)
              ≡ m.dropped + suc (length rest + 1 - size) =
            omega arith in
          rw (full, e)
            (later
              ∙ ap
                  (λ (k : ℕ). some (
                    drop (length rest + 1 - size) (rest ++ (entry ∷ [])),
                    record m { dropped = k },
                  ))
                  n)
    ]

enqueue_lem :
    (size : ℕ) (entry : SinkEntry) (queue : List SinkEntry) (m : SinkMetrics)
    → 0 < size
    → enqueue size entry queue m
      ≡ some (
        drop (length queue + 1 - size) (queue ++ (entry ∷ [])),
        drop_count (length queue + 1 - size) m,
      )
unfolding enqueue
enqueue_lem size entry queue m h =
    enqueue_loop_lem (suc (length queue)) size entry queue m h (omega arith)

drop_kept :
    (n k : ℕ) (xs ys : List SinkEntry)
    → n ≤ length xs
    → drop k (drop n xs ++ ys) ≡ drop (n + k) (xs ++ ys)
drop_kept zero k xs ys h = let e : 0 + k ≡ k = omega arith in rw e
drop_kept (suc n) k [] ys h = absurd (omega arith)
drop_kept (suc n) k (x ∷ xs) ys h =
    let e : suc n + k ≡ suc (n + k) = omega arith in rw e (drop_kept n k xs ys (omega arith))

unfoldable pub enqueue_all :
    ℕ → List SinkEntry → List SinkEntry → SinkMetrics → Option (List SinkEntry × SinkMetrics)
unfolding enqueue
enqueue_all size [] queue m = some (queue, m)
enqueue_all size (e ∷ es) queue m = enqueue size e queue m >>= λ r. enqueue_all size es r.0 r.1

-- Any number of requests put into a queue of a positive size that no worker empties: `handle` never blocks, the queue holds
-- the newest `size` of the entries in their order, and each of the others is counted as dropped.
pub enqueue_all_lem :
    (size : ℕ) (es queue : List SinkEntry) (m : SinkMetrics)
    → 0 < size
    → length queue ≤ size
    → enqueue_all size es queue m
      ≡ some (
        drop (length queue + length es - size) (queue ++ es),
        drop_count (length queue + length es - size) m,
      )
unfolding enqueue_all
enqueue_all_lem size [] queue m hs hq =
    let e : length queue + 0 - size ≡ 0 = omega arith in
    let same : m.dropped + 0 ≡ m.dropped = omega arith in
    rw (e, append-nil queue) (ap (λ (n : ℕ). some (queue, record m { dropped = n })) (sym same))
enqueue_all_lem size (entry ∷ es) queue m hs hq = rw (enqueue_lem size entry queue m hs) (
    enqueue_all_lem size es (drop (length queue + 1 - size) (queue ++ (entry ∷ [])))
      (drop_count (length queue + 1 - size) m) hs
      (omega (
        arith,
        length-drop (length queue + 1 - size) (queue ++ (entry ∷ [])),
        length-append queue (entry ∷ []),
      ))
    ∙ shown)
  where
    shown :
        let n = length queue + 1 - size in
        let kept = drop n (queue ++ (entry ∷ [])) in
        ◌≡◌ {A = Option (List SinkEntry × SinkMetrics)}
          (some (
            drop (length kept + length es - size) (kept ++ es),
            drop_count (length kept + length es - size) (drop_count n m),
          ))
          (some (
            drop (length queue + suc (length es) - size) (queue ++ (entry ∷ es)),
            drop_count (length queue + suc (length es) - size) m,
          ))
    shown =
        let n : ℕ = length queue + 1 - size in
        let kept : List SinkEntry = drop n (queue ++ (entry ∷ [])) in
        let k : n + (length kept + length es - size) ≡ length queue + suc (length es) - size =
          omega (arith, length-drop n (queue ++ (entry ∷ [])), length-append queue (entry ∷ [])) in
        let within : n ≤ length (queue ++ (entry ∷ [])) =
          omega (arith, length-append queue (entry ∷ [])) in
        let same : m.dropped + n + (length kept + length es - size)
            ≡ m.dropped + (length queue + suc (length es) - size) =
          omega (arith, k) in
        rw
          (
            drop_kept n (length kept + length es - size) (queue ++ (entry ∷ [])) es within,
            append_assoc queue (entry ∷ []) es,
            k,
            same,
          )
          refl
