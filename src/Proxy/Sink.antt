-- ===== src/Proxy/Sink.antt =====
-- A sink of the upload proxy (cmd/upload-proxy/sink.go): its queue, its configuration and its grace
-- period. Times are nanoseconds; the zero time is 0. A stop that blocks for ever is `none`.
pub mod Queue
use stream_api.Base.{
  ◌>>=◌, ℕ, zero, suc, ◌+◌, ◌*◌, Bool, true, false, Option, none, some, List, [], ◌∷◌, ◌++◌, Str,
  str_eq, codes, if◌then◌else◌, ltb, ◌==◌, ◌&&◌, not, length,
}
use stream_api.Proxy.{AuthConfig, SinkConfig}
use stream_api.Proxy.Url.{Url, join_url_path}

pub record Request : Type 0 where
  pub method : Str
  pub url : Url
  pub basic_auth : Option (Str × Str)
  pub body : Str

pub record SinkEntry : Type 0 where
  pub request : Request
  pub queued_at : ℕ
  pub deadline : ℕ

pub record SinkMetrics : Type 0 where
  pub uploaded : ℕ
  pub dropped : ℕ
  pub transient_errors : ℕ
  pub bytes_uploaded : ℕ

abbrev pub no_metrics : SinkMetrics
no_metrics = record { uploaded = 0; dropped = 0; transient_errors = 0; bytes_uploaded = 0 }

pub record Sink : Type 0 where
  pub conf : SinkConfig
  pub url : Url
  pub queue : List SinkEntry
  pub grace_deadline : ℕ
  pub metrics : SinkMetrics

abbrev pub count_dropped : SinkMetrics → SinkMetrics
count_dropped m = record m { dropped = suc m.dropped }

-- `NewSink`; `parsed` is what `url.Parse` says of the address.
unfoldable pub new_sink : SinkConfig → Option Url → Option Sink
new_sink conf none = none
new_sink conf (some url) =
    some (record { conf = conf; url = url; queue = []; grace_deadline = 0; metrics = no_metrics })

-- The loop of `handle`. A queue of size 0 that no worker reads from blocks in the receive. The fuel is
-- one round for each entry and one more.
enqueue_loop :
    ℕ → ℕ → SinkEntry → List SinkEntry → SinkMetrics → Option (List SinkEntry × SinkMetrics)
enqueue_loop zero size entry queue m = none
enqueue_loop (suc fuel) size entry queue m =
    if ltb (length queue) size
    then some (queue ++ (entry ∷ []), m)
    else (elim queue [ [] ↦ none | _ ∷ rest ↦ enqueue_loop fuel size entry rest (count_dropped m) ])

unfoldable pub enqueue :
    ℕ → SinkEntry → List SinkEntry → SinkMetrics → Option (List SinkEntry × SinkMetrics)
unfolding enqueue_loop
enqueue size entry queue m = enqueue_loop (suc (length queue)) size entry queue m

module _ (escaped_path : Url → Str) where
  -- The request as it goes to the sink.
  redirect : Sink → Request → Request
  unfolding join_url_path
  redirect sink req =
      let (path, raw_path) = join_url_path escaped_path sink.url req.url in
      record req {
        url = record {
          scheme = sink.url.scheme;
          host = sink.url.host;
          path = path;
          raw_path = raw_path;
        };
        basic_auth =
            if str_eq sink.conf.auth.auth_type (codes "basic")
            then some (sink.conf.auth.username, sink.conf.auth.password)
            else req.basic_auth;
      }

  unfoldable pub handle : Request → ℕ → ℕ → Sink → Option Sink
  unfolding redirect enqueue
  handle req deadline now sink = do
    (queue, m) ←
        enqueue sink.conf.queue_size
          (record { request = redirect sink req; queued_at = now; deadline = deadline }) sink.queue
          sink.metrics
    some (record sink { queue = queue; metrics = m })

abbrev minute : ℕ
minute = 60 * 1000000000

unfoldable pub start_grace_period : ℕ → Sink → Sink
start_grace_period now sink =
    if sink.grace_deadline == 0 then record sink { grace_deadline = now + 5 * minute } else sink

unfoldable pub is_stale : ℕ → Sink → Bool
is_stale now sink = not (sink.grace_deadline == 0) && ltb sink.grace_deadline now

pub data SinkError : Type 0 where
  fixed_address : SinkError
  fixed_queue_size : SinkError
  invalid_address : Str → SinkError

same_conf : SinkConfig → SinkConfig → Bool
same_conf a b =
    str_eq a.address b.address
    && (a.queue_size == b.queue_size)
    && str_eq a.auth.username b.auth.username
    && str_eq a.auth.password b.auth.password
    && str_eq a.auth.auth_type b.auth.auth_type

-- `UpdateConfig`: a restart takes fresh metrics and leaves the queue.
unfoldable pub update_config : SinkConfig → Sink → Option SinkError × Sink
unfolding same_conf
update_config conf sink =
    let reset = record sink { grace_deadline = 0 } in
    if same_conf conf sink.conf
    then (none, reset)
    else if not (str_eq conf.address sink.conf.address)
    then (some fixed_address, reset)
    else if not (conf.queue_size == sink.conf.queue_size)
    then (some fixed_queue_size, reset)
    else (none, record reset { conf = conf; metrics = no_metrics })
