-- ===== src/Upload/Store.antt =====
-- `StreamStore` (upload/stream_store.go). The streams on which `Cleanup` is called are listed, in order.
pub mod Expiry
pub mod Release
use stream_api.Base.{
  ℕ, ◌+◌, ◌*◌, Bool, true, false, Option, none, some, List, [], ◌∷◌, ◌++◌, Str, str_Eq,
  if◌then◌else◌, ◌==◌, ◌>>=◌,
}
use stream_api.Base.Dict.{Dict, lookup, insert, remove}
use stream_api.Upload.Channels.{Channels}
use stream_api.Upload.Stream.{Stream, StreamError, new_stream, update, age, cleanup}

pub record StreamStoreConfig : Type 0 where
  pub stream_timeout : ℕ
  pub stream_expire_interval : ℕ
  pub stream_origin_duration : ℕ

abbrev second : ℕ
second = 1000000000

abbrev or_default : ℕ → ℕ → ℕ
or_default n default = if n == 0 then default else n

pub record StreamStore : Type 0 where
  pub config : StreamStoreConfig
  pub streams : Dict Str Stream
  pub cleaned : List Stream

unfoldable pub new_stream_store : StreamStoreConfig → StreamStore
new_stream_store c = record {
  config = record {
    stream_timeout = or_default c.stream_timeout (10 * second);
    stream_expire_interval = or_default c.stream_expire_interval (2 * second);
    stream_origin_duration = or_default c.stream_origin_duration (6 * second);
  };
  streams = [];
  cleaned = [];
}

-- `removeStream`
remove_found : Str → Option Stream → StreamStore → StreamStore
unfolding remove
remove_found slug none st = st
remove_found slug (some s) st = record st {
  streams = remove slug st.streams;
  cleaned = st.cleaned ++ (s ∷ []);
}

pub remove_stream : Str → StreamStore → StreamStore
unfolding remove_found lookup
remove_stream slug st = remove_found slug (lookup slug st.streams) st

-- One stream of the range in `timeout`: its age is kept in the stream, which may then go.
age_stream : Str → Stream → StreamStore → StreamStore
unfolding age insert remove_stream
age_stream slug s st =
    let (over, older) = age st.config.stream_expire_interval s in
    let aged = record st { streams = insert slug older st.streams } in
    if over then remove_stream slug aged else aged

timeout_loop : Dict Str Stream → StreamStore → StreamStore
unfolding age_stream
timeout_loop [] st = st
timeout_loop ((slug, s) ∷ entries) st = timeout_loop entries (age_stream slug s st)

unfoldable pub timeout : StreamStore → StreamStore
unfolding timeout_loop
timeout st = timeout_loop st.streams st

remove_loop : Dict Str Stream → StreamStore → StreamStore
unfolding remove_stream
remove_loop [] st = st
remove_loop ((slug, _) ∷ entries) st = remove_loop entries (remove_stream slug st)

-- The end of `run`, after `Stop`.
unfoldable pub remove_all : StreamStore → StreamStore
unfolding remove_loop
remove_all st = remove_loop st.streams st

-- A new stream takes a channel.
registered : Str → Option Stream → StreamStore → Channels → Stream × Channels
unfolding new_stream
registered slug (some s) st cs = (s, cs)
registered slug none st cs =
    new_stream slug st.config.stream_timeout st.config.stream_origin_duration cs

-- `UpdateStream`
unfoldable pub update_stream :
    Str → Str → ℕ → StreamStore → Channels → Option StreamError × StreamStore × Channels
unfolding registered lookup update insert
update_stream slug origin now st cs =
    let (s, cs') = registered slug (lookup slug st.streams) st cs in
    let (failed, s') = update origin now s in
    (failed, record st { streams = insert slug s' st.streams }, cs')

-- `GetStream`
unfoldable pub get_stream : Str → StreamStore → Option Stream
unfolding lookup
get_stream slug st = lookup slug st.streams

-- What the clean-ups do to the channels.
unfoldable pub cleanup_all : List Stream → Channels → Option Channels
unfolding cleanup
cleanup_all [] cs = some cs
cleanup_all (s ∷ streams) cs = cleanup s cs >>= λ r. cleanup_all streams r.1
