-- ===== src/Proxy/Delivery/Ends.antt =====
-- A delivery comes to an end and is counted once (cmd/upload-proxy/sink.go).
use stream_api.Base.{
  ℕ, zero, suc, ◌+◌, ◌-◌, ◌*◌, ◌≤◌, ◌<◌, ◌≡◌, refl, Option, some, ltb, length, arith, Bool-cases,
  inl, inr, Runs, Runs-some,
}
use stream_api.Proxy.Sink.{SinkEntry, SinkMetrics}
use stream_api.Proxy.Delivery.{
  judge_answer, count_failed, Answer, timed_out, sink_error, answered, Try, Outcome, delivered,
  dropped, stopped_early, second, is_success, almost_full, upload_loop, upload,
}

abbrev pub if_delivered : Outcome → ℕ → ℕ
if_delivered delivered n = n
if_delivered dropped n = 0
if_delivered stopped_early n = 0

abbrev pub if_dropped : Outcome → ℕ → ℕ
if_dropped delivered n = 0
if_dropped dropped n = n
if_dropped stopped_early n = 0

-- What the metrics say after an entry that was begun at `now`: it is counted as uploaded or as dropped by
-- its outcome, and its failed tries, a second apart, began no later than the deadline.
pub record IsAccounted (entry : SinkEntry) (now : ℕ) (m : SinkMetrics) (r : Outcome × SinkMetrics)
    : Type 0 where
  pub uploaded : r.1.uploaded ≡ m.uploaded + if_delivered r.0 1
  pub bytes : r.1.bytes_uploaded ≡ m.bytes_uploaded + if_delivered r.0 (length entry.request.body)
  pub dropped : r.1.dropped ≡ m.dropped + if_dropped r.0 1
  pub counted : m.transient_errors ≤ r.1.transient_errors
  pub tries : (r.1.transient_errors - m.transient_errors) * second ≤ entry.deadline + second - now

module _ (size : ℕ) (world : ℕ → Try) (entry : SinkEntry) where
  retried :
      (now later : ℕ) (m : SinkMetrics) (r : Outcome × SinkMetrics)
      → now ≤ entry.deadline
      → now + second ≤ later
      → IsAccounted entry later (count_failed m) r
      → IsAccounted entry now m r
  retried now later m r early late h = record {
    uploaded = h.uploaded;
    bytes = h.bytes;
    dropped = h.dropped;
    counted = omega (arith, h.counted);
    tries = omega (arith, h.counted, h.tries);
  }

  -- Nothing was tried again: at most one try failed.
  ended :
      (now : ℕ) (m m' : SinkMetrics) (o : Outcome)
      → m'.uploaded ≡ m.uploaded + if_delivered o 1
      → m'.bytes_uploaded ≡ m.bytes_uploaded + if_delivered o (length entry.request.body)
      → m'.dropped ≡ m.dropped + if_dropped o 1
      → m.transient_errors ≤ m'.transient_errors
      → (m'.transient_errors - m.transient_errors) * second ≤ entry.deadline + second - now
      → Runs (IsAccounted entry now m) (some (o, m'))
  ended now m m' o hu hb hd hc ht =
      Runs-some (IsAccounted entry now m) (o, m')
        (record { uploaded = hu; bytes = hb; dropped = hd; counted = hc; tries = ht })

  judge_answer-IsAccounted :
      (now later : ℕ) (m : SinkMetrics) (a : Answer) (t : Try)
      (retry : Option (Outcome × SinkMetrics))
      → now ≤ entry.deadline
      → now + second ≤ later
      → Runs (IsAccounted entry later (count_failed m)) retry
      → Runs (IsAccounted entry now m) (judge_answer size world entry a t m retry)
  unfolding judge_answer
  judge_answer-IsAccounted now later m timed_out t retry early late h =
      ended now m _ dropped (omega arith) (omega arith) (omega arith) (omega arith) (omega arith)
  judge_answer-IsAccounted now later m sink_error t retry early late h =
      ended now m _ dropped (omega arith) (omega arith) (omega arith) (omega arith) (omega arith)
  judge_answer-IsAccounted now later m (answered code) t retry early late h =
      elim (Bool-cases (is_success code)) [
        | inl good ↦
            rw good
              (ended now m _ delivered (omega arith) refl (omega arith) (omega arith) (omega arith))
        | inr bad ↦ elim (Bool-cases (almost_full size t.waiting)) [
          | inl full ↦
              rw (bad, full)
                (ended now m _ dropped (omega arith) (omega arith) (omega arith) (omega arith)
                  (omega arith))
          | inr space ↦ elim (Bool-cases t.stopped) [
            | inl over ↦
                rw (bad, space, over)
                  (ended now m _ stopped_early (omega arith) (omega arith) (omega arith)
                    (omega arith) (omega arith))
            | inr on ↦
                rw (bad, space, on)
                  (record {
                    result = h.result;
                    runs = h.runs;
                    holds = retried now later m h.result early late h.holds;
                  })
          ]
        ]
      ]

  upload_loop-IsAccounted :
      (fuel i now : ℕ) (m : SinkMetrics)
      → 0 < fuel
      → entry.deadline + 2 ≤ fuel + now
      → Runs (IsAccounted entry now m) (upload_loop size world entry fuel i now m)
  unfolding upload_loop
  upload_loop-IsAccounted zero i now m h hf = absurd (omega arith)
  upload_loop-IsAccounted (suc fuel) i now m h hf = elim (Bool-cases (ltb entry.deadline now)) [
    | inl late ↦ rw late (
        ended now m _ dropped (omega arith) (omega arith) (omega arith) (omega arith) (omega arith))
    | inr early ↦
        let later : ℕ = now + (world i).took + second in
        rw early (
          judge_answer-IsAccounted now later m (world i).answer (world i) _ (ground arith)
            (omega arith)
            (upload_loop-IsAccounted fuel (suc i) later (count_failed m) (ground arith)
              (omega arith)))
  ]

  -- However the tries go, the worker is done with an entry, within the tries that its deadline allows, and
  -- counts it once: as uploaded, as dropped, or not at all if the sink was stopped.
  pub upload-IsAccounted :
      (now : ℕ) (m : SinkMetrics) → Runs (IsAccounted entry now m) (upload size world entry now m)
  unfolding upload
  upload-IsAccounted now m =
      upload_loop-IsAccounted (suc (entry.deadline + 1)) 0 now m (omega arith) (omega arith)
