-- ===== src/Lib.antt =====
-- Verification of stream-api, the services that take, distribute and count live video streams.
--
-- The upload server (upload/) is `Upload`. A request passes `Server.HandleUpload` (upload/server.go,
-- `Upload.Handler.Server`): `StaticAuth` (upload/auth.go, `Upload.Auth`) gives it the slug of a stream,
-- `StreamStore` (upload/stream_store.go, `Upload.Store`) and `Stream` (upload/stream.go, `Upload.Stream`)
-- accept or refuse its origin, and `Handler.HandleFile` (upload/handler.go, `Upload.Handler`) takes the
-- file. It reads the body through `LimitReader` (upload/limit_reader.go, `Upload.Reader`), writes by
-- `AtomicWriter` (upload/writer.go, `Upload.Writer`), files it with `FileRegistry`
-- (upload/file_registry.go, `Upload.Registry`), and gives a playlist to `HLSParser` (upload/hls.go,
-- `Upload.Hls`), whose output is a `LivePlaylist` (`Upload.Playlist`) and whose counts are `HLSMetrics`
-- (upload/hls_metrics.go, `Upload.Metrics`). `Upload.Owners` says which stream owns which channel, and
-- `Upload.Handler.Server.Run` is the server at work: requests and ticks of the store and the registry.
--
-- The upload proxy (cmd/upload-proxy/) is `Proxy`: an upload is put into the queue of each sink (sink.go,
-- `Proxy.Sink`), whose worker delivers it (`Proxy.Delivery`); the sinks follow the configuration (config.go,
-- `Proxy`; proxy.go, `Proxy.Sinks`), and the paths are joined by `Proxy.Url`. The key-value store that the
-- other services share has its paths (client/path.go) in `Client.Path` and the handler of a watch
-- (client/consul.go) in `Client.Watch`.
--
-- The transcoder (transcode/) is `Transcode`: its events are the updates of the watches and the ticks
-- (`Transcode.Events`), on which it claims streams (`Transcode.Claim`) if it has the least load
-- (`Transcode.Load`). The publisher (publish/publisher.go) is `Publish`, its scrapers (publish/source/) are `Publish.Sources`,
-- and the watched settings of auth/watcher.go with the handler of auth/auth.go are `Auth`. The receiver of the access logs (logreceiver/) is
-- `Logs`: `HLSParser` (hls.go, `Logs.Hls`) knows the qualities of the streams, and `Parser` (parser.go,
-- `Logs.Parser`) attributes each entry to a user and a quality and counts the viewers; useragent.go is
-- `Logs.Agent`. The monitor (monitor/) is `Monitor`: its watcher (watcher.go) follows the key-value store and
-- relays each change to the server (server.go, `Monitor.Server`), which keeps the clients up to date, and the settings of the
-- streams are set and got through rest.go (`Monitor.Rest`) and the calls of client/consul.go (`Client.Kv`). The
-- service that keeps a unit of systemd alive (systemd/service.go) is `Systemd`. The
-- exporter of transcoding metrics (cmd/transcoding-exporter/progress.go, metrics.go) is `Exporter`. JSON, the
-- acquisition of keys and the connection to systemd are parameters.
--
-- State is passed: a method of a struct is a function from the struct, as a record, to its new value.
-- A panic is `none` of an `Option`; an error is a value of a data type. A mutex and a goroutine that
-- serves a channel make the calls one sequence, which is what a sequence of calls here is. Time is a
-- number of nanoseconds and is an argument; a channel that is only closed is a number (`Upload.Channels`).
-- A Go string is a list of bytes and a map an association list without duplicate keys (`Base.Dict`).
-- Integers of 64 bits are unbounded here: they are counts, and nanoseconds within 292 years. Fuel stands
-- in `Upload.Reader.read_all` (one read for each byte and two more), in `Proxy.Sink.enqueue` (one round for
-- each entry and one more) and in `Proxy.Delivery.upload` (one try for each nanosecond up to the deadline
-- and two more), and is shown to be enough there.
--
-- Parameters: the package go-m3u8 is the record `Upload.M3u8.Library` and the function `Logs.Hls.Fetch`,
-- `wildcard.MatchSimple` is `matches`, consul is the record `Client.Kv.Consul`, the float64 of the exporter with
-- `strconv.ParseFloat` is the record `Exporter.Floats`, the labels that prometheus takes are `label_ok`,
-- `net.SplitHostPort` is `split_host`, and of net/url `Parse` is `parse_url` and `EscapedPath` is `escaped_path`.
-- The functions of `path/filepath` and `strings` are written out (`Base.FilePath`, `Base.Text`).
--
-- Not modelled: the registration of metrics but for the labels that it refuses in `HLSMetrics`, logging, HTTP
-- transport and routing, the API stub upload/api.go,
-- the sessions of client/consul.go, logreceiver/dash.go, which nothing uses, the calls of dbus in
-- systemd/systemd.go, the configuration files, and the rest of cmd/.
pub mod Base
pub mod Upload
pub mod Client
pub mod Proxy
pub mod Transcode
pub mod Publish
pub mod Auth
pub mod Logs
pub mod Exporter
pub mod Monitor
pub mod Systemd
