-- ===== src/Upload/Handler.antt =====
-- `Handler.HandleFile` (upload/handler.go). The file writers are what `Library` and `copier` give; a
-- panic is `none`. The loop of the registry takes the entries in the order in which they were sent.
pub mod Server
pub mod Registers
pub mod Total
use stream_api.Base.{
  ℕ, ◌+◌, ◌*◌, Bool, true, false, Option, none, some, List, [], ◌∷◌, Str, str_Eq, str_eq, codes,
  if◌then◌else◌, ◌>>=◌, ◌||◌,
}
use stream_api.Base.Dict.{insert}
use stream_api.Base.FilePath.{dir, ext}
use stream_api.Upload.M3u8.{Library}
use stream_api.Upload.Channels.{Channels}
use stream_api.Upload.Hls.{HlsError, HlsParser, Hls}
use stream_api.Upload.Hls.Master.{parse_playlist}
use stream_api.Upload.Registry.{FileEntry, FileRegistry, add, keep_file, register_file}
use stream_api.Upload.Stream.{Stream, StreamError, get_hls_parser}
use stream_api.Upload.Store.{StreamStore, get_stream, update_stream}
use stream_api.Upload.Reader.{ReadError, eof, large_file, read_all}

pub data HandleError : Type 0 where
  unknown_stream : Str → HandleError
  playlist_error : HlsError → HandleError
  copy_failed : HandleError

abbrev second : ℕ
second = 1000000000

-- A request's body: what arrives of it, whether the connection then breaks, and whether its end is told with its
-- last bytes.
pub record Body : Type 0 where
  pub text : Str
  pub broken : Bool
  pub eager : Bool

-- The bytes that a reader behind `LimitReads` delivers, and whether it ends with an error.
abbrev pub delivered_as : Body → Str × ReadError → Str × Bool
delivered_as body (bytes, eof) = (bytes, body.broken)
delivered_as body (bytes, large_file) = (bytes, true)

pub delivered : ℕ → ℕ → Body → Option (Str × Bool)
unfolding read_all
delivered buffer limit body =
    read_all buffer (record { limit = limit; eager = body.eager; rest = body.text }) >>= λ r.
    some (delivered_as body r)

abbrev pub content_of : Str × Bool → Option Str
content_of (bytes, failed) = if failed then none else some bytes

unfoldable pub add_all : List FileEntry → FileRegistry → FileRegistry
unfolding add
add_all [] r = r
add_all (e ∷ es) r = add_all es (add e r)

unfoldable pub is_thumbnail : Str → Bool
unfolding ext
is_thumbnail path = str_eq (ext path) (codes ".jpg") || str_eq (ext path) (codes ".jpeg")

module _ (lib : Library) (copier : Str → Str → Bool → lib.Disk → Option (Bool × lib.Disk))
    (buffer : ℕ) where
  open lib use {Disk, label_ok}

  pub record Handler : Type 0 where
    pub registry : FileRegistry
    pub store : StreamStore
    pub channels : Channels
    pub disk : Disk
    pub playlist_size : ℕ
    pub max_playlist_size : ℕ
    pub max_segment_size : ℕ

  -- The stream's parser as the parse leaves it, and the registry with what the parse sent.
  after_parse : Str → Stream → Handler → Option HlsError × Hls lib → Option HandleError × Handler
  unfolding add_all insert
  after_parse slug s h (failed, hls) = (
    elim failed [ none ↦ none | some e ↦ some (playlist_error e) ],
    record h {
      registry = add_all hls.sent h.registry;
      store = record h.store {
        streams = insert slug (record s { parser = some hls.parser }) h.store.streams;
      };
      channels = hls.channels;
      disk = hls.disk;
    },
  )

  handle_playlist : Body → Str → Str → Stream → Handler → Option (Option HandleError × Handler)
  unfolding delivered get_hls_parser parse_playlist after_parse dir
  handle_playlist body slug path s h = do
    (parser, s') ← get_hls_parser label_ok slug (dir path) h.playlist_size s
    got ← delivered buffer h.max_playlist_size body
    r ←
        parse_playlist lib path (content_of got)
          (record { parser = parser; channels = h.channels; sent = []; disk = h.disk })
    some (after_parse slug s' h r)

  copy_segment : Body → ℕ → Str → Handler → Option (Option HandleError × Handler)
  unfolding register_file delivered
  copy_segment body now path h = do
    let registry = register_file path (now + 30 * second) h.registry
    (bytes, broken) ← delivered buffer h.max_segment_size body
    (failed, disk) ← copier path bytes broken h.disk
    some (if failed then some copy_failed else none, record h { registry = registry; disk = disk })

  handle_known : Body → ℕ → Str → Str → Stream → Handler → Option (Option HandleError × Handler)
  unfolding keep_file ext dir is_thumbnail handle_playlist copy_segment
  handle_known body now slug path s h₀ =
      let h = record h₀ { registry = keep_file (dir path) s.alive h₀.registry } in
      let thumbnail = record h { registry = keep_file path s.alive h.registry } in
      if str_eq (ext path) (codes ".m3u8")
      then handle_playlist body slug path s h
      else if str_eq (ext path) (codes ".mpd")
      then some (none, h)
      else copy_segment body now path (if is_thumbnail path then thumbnail else h)

  unfoldable pub handle_file :
      Body → ℕ → Str → Str → Handler → Option (Option HandleError × Handler)
  unfolding get_stream handle_known
  handle_file body now slug path h = elim (get_stream slug h.store) [
    | none ↦ some (some (unknown_stream slug), h)
    | some s ↦ handle_known body now slug path s h
  ]

  unfoldable pub validate : Str → Str → ℕ → Handler → Option StreamError × Handler
  unfolding update_stream
  validate slug origin now h =
      let (failed, store, channels) = update_stream slug origin now h.store h.channels in
      (failed, record h { store = store; channels = channels })
