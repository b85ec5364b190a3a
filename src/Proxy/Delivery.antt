-- ===== src/Proxy/Delivery.antt =====
-- The worker of a sink (`upload` of cmd/upload-proxy/sink.go): one entry is tried until it is delivered,
-- dropped, or the sink is stopped. What each try meets is given by its number.
pub mod Ends
use stream_api.Base.{
  ℕ, zero, suc, ◌+◌, Bool, true, false, Option, none, some, List, [], ◌∷◌, if◌then◌else◌, ltb, leb,
  ◌&&◌, length,
}
use stream_api.Proxy.Sink.{SinkEntry, SinkMetrics, count_dropped}

-- What `client.Do` returns.
pub data Answer : Type 0 where
  timed_out : Answer
  sink_error : Answer
  answered : ℕ → Answer

-- A try: how long the request takes, its answer, how many entries wait after it, and whether the sink is
-- stopped before the next one.
pub record Try : Type 0 where
  pub took : ℕ
  pub answer : Answer
  pub waiting : ℕ
  pub stopped : Bool

pub data Outcome : Type 0 where
  delivered : Outcome
  dropped : Outcome
  stopped_early : Outcome

abbrev second : ℕ
second = 1000000000

is_success : ℕ → Bool
is_success code = leb 200 code && leb code 299

-- The queue is almost full: `len(queue) > cap(queue) - 2`.
almost_full : ℕ → ℕ → Bool
almost_full size waiting = ltb size (waiting + 2)

abbrev count_failed : SinkMetrics → SinkMetrics
count_failed m = record m { transient_errors = suc m.transient_errors }

module _ (size : ℕ) (world : ℕ → Try) (entry : SinkEntry) where
  -- What follows from the answer of a try; `retry` is what a further try would come to.
  judge_answer :
      Answer → Try → SinkMetrics → Option (Outcome × SinkMetrics) → Option (Outcome × SinkMetrics)
  unfolding is_success almost_full
  judge_answer timed_out t m retry = some (dropped, count_dropped m)
  judge_answer sink_error t m retry = some (dropped, count_dropped m)
  judge_answer (answered code) t m retry =
      if is_success code
      then some (
        delivered,
        record m {
          uploaded = suc m.uploaded;
          bytes_uploaded = m.bytes_uploaded + length entry.request.body;
        },
      )
      else if almost_full size t.waiting
      then some (dropped, count_dropped (count_failed m))
      else if t.stopped
      then some (stopped_early, count_failed m)
      else retry

  -- The fuel is one try for each nanosecond up to the deadline and one more.
  upload_loop : ℕ → ℕ → ℕ → SinkMetrics → Option (Outcome × SinkMetrics)
  unfolding judge_answer
  upload_loop zero i now m = none
  upload_loop (suc fuel) i now m =
      let t = world i in
      let retry = upload_loop fuel (suc i) (now + t.took + second) (count_failed m) in
      if ltb entry.deadline now
      then some (dropped, count_dropped m)
      else judge_answer t.answer t m retry

  unfoldable pub upload : ℕ → SinkMetrics → Option (Outcome × SinkMetrics)
  unfolding upload_loop
  upload now m = upload_loop (suc (entry.deadline + 1)) 0 now m
