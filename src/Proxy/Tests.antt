-- ===== src/Proxy/Tests.antt =====
-- The theorems on the upload proxy (cmd/upload-proxy/) at concrete sinks.
use stream_api.Base.{ℕ, ◌≡◌, refl, false, none, some, List, [], ◌∷◌, Str, codes, arith, Runs}
use stream_api.Proxy.{SinkConfig}
use stream_api.Proxy.Url.{Url}
use stream_api.Proxy.Sink.{SinkEntry, no_metrics, Sink}
use stream_api.Proxy.Sink.Queue.{enqueue_all, drop_count, enqueue_all_lem}
use stream_api.Proxy.Delivery.{Try, answered, upload}
use stream_api.Proxy.Delivery.Ends.{IsAccounted, upload-IsAccounted}
use stream_api.Proxy.Sinks.{update_proxy}
use stream_api.Proxy.Sinks.Update.{find_sink, find_conf, IsApart, after, find-update_proxy}

abbrev an_url : Str → Url
an_url path = record { scheme = codes "http"; host = codes "cdn"; path = path; raw_path = [] }

abbrev entry : ℕ → SinkEntry
entry n = record {
  request = record {
    method = codes "PUT";
    url = an_url (codes "/a.ts");
    basic_auth = none;
    body = codes "data";
  };
  queued_at = n;
  deadline = 60000000000;
}

enqueue_all_lem_example :
    enqueue_all 2 (entry 1 ∷ entry 2 ∷ entry 3 ∷ []) [] no_metrics
    ≡ some (entry 2 ∷ entry 3 ∷ [], drop_count 1 no_metrics)
enqueue_all_lem_example =
    enqueue_all_lem 2 (entry 1 ∷ entry 2 ∷ entry 3 ∷ []) [] no_metrics (omega arith) (omega arith)

-- A server that always fails.
abbrev failing : ℕ → Try
failing i = record { took = 0; answer = answered 500; waiting = 0; stopped = false }

upload-IsAccounted_example :
    Runs (IsAccounted (entry 1) 5 no_metrics) (upload 128 failing (entry 1) 5 no_metrics)
upload-IsAccounted_example = upload-IsAccounted 128 failing (entry 1) 5 no_metrics

abbrev conf_of : Str → SinkConfig
conf_of address = record {
  address = address;
  queue_size = 128;
  auth = record { username = []; password = []; auth_type = [] };
}

abbrev old_sink : Sink
old_sink = record {
  conf = conf_of (codes "http://old");
  url = an_url [];
  queue = [];
  grace_deadline = 0;
  metrics = no_metrics;
}

abbrev new_confs : List SinkConfig
new_confs = conf_of (codes "http://new") ∷ []

new_confs-IsApart : IsApart new_confs
unfolding IsApart
new_confs-IsApart = (refl, tt)

find-update_proxy_example :
    find_sink
      (codes "http://old")
      (update_proxy (λ a. some (an_url [])) 7 new_confs (old_sink ∷ [])).1
    ≡ after
        (λ a. some (an_url []))
        7
        (find_conf (codes "http://old") new_confs)
        (find_sink (codes "http://old") (old_sink ∷ []))
find-update_proxy_example =
    find-update_proxy (λ a. some (an_url [])) 7 new_confs (codes "http://old") (old_sink ∷ [])
      new_confs-IsApart
