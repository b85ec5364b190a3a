-- ===== src/Logs/Hls.antt =====
-- The qualities of the HLS streams that viewers ask for (logreceiver/hls.go). A master playlist is
-- fetched over HTTP and read by go-m3u8: what that comes to is the parameter `Fetch`. A fetch that ends
-- after its stream was removed changes nothing that the parser can see.
pub mod Named
use stream_api.Base.{
  ℕ, ◌+◌, ◌-◌, ◌*◌, Bool, true, false, ◌||◌, not, Option, none, some, List, [], ◌∷◌, ◌++◌, Str,
  str_Eq, str_eq, codes, if◌then◌else◌, ltb, ◌==◌,
}
use stream_api.Base.Dict.{Dict, lookup, insert, remove}
use stream_api.Base.Text.{split, trim_suffix, has_suffix}
use stream_api.Base.Text.Decimal.{decimal}
use stream_api.Base.FilePath.{base}
use stream_api.Logs.{StreamId, transport_hls, transport_hlsll, type_video, type_audio}

-- The fields of go-m3u8's items that the code reads.
pub record MediaItem : Type 0 where
  pub media_type : Str
  pub language : Option Str
  pub uri : Option Str

pub record PlaylistItem : Type 0 where
  pub uri : Str
  pub width : Option ℕ
  pub height : Option ℕ

pub data Item : Type 0 where
  media : MediaItem → Item
  playlist : PlaylistItem → Item
  other_item : Item

pub record Playlist : Type 0 where
  pub is_master : Bool
  pub items : List Item

-- `fetchPlaylist`: what the server answers at a URL, `none` on an error.
abbrev pub Fetch : Type 0
Fetch = Str → Option Playlist

pub record HlsStream : Type 0 where
  pub transport : Str
  pub qualities : Dict Str StreamId
  pub last_used : ℕ

pub record HlsParser : Type 0 where
  pub streams : Dict Str HlsStream
  pub stream_timeout : ℕ

abbrev pub second : ℕ
second = 1_000_000_000

abbrev default_timeout : ℕ
default_timeout = 15 * 60 * second

unfoldable pub new_hls_parser : ℕ → HlsParser
new_hls_parser stream_timeout = record {
  streams = [];
  stream_timeout = if stream_timeout == 0 then default_timeout else stream_timeout;
}

-- The element at 0, which `strings.Split` always gives.
first_part : List Str → Str
first_part [] = []
first_part (part ∷ _) = part

-- `parts[1]`, and `none` with fewer than two parts
second_part : List Str → Option Str
second_part (_ ∷ part ∷ _) = some part
second_part _ = none

-- The text before the first dot, without the suffix that mediamtx gives it.
unfoldable pub name_of : Str → Str
unfolding first_part split trim_suffix
name_of uri = trim_suffix (first_part (split uri b'.')) (codes "_stream")

or_empty : Option Str → Str
or_empty none = []
or_empty (some s) = s

-- "%dx%d", if both are known
size_text : Option ℕ → Option ℕ → Str
unfolding decimal
size_text (some width) (some height) = decimal width ++ (b'x' ∷ decimal height)
size_text _ _ = []

named_audio : Str → Str → Option Str → Option Str → Dict Str StreamId → Dict Str StreamId
unfolding insert name_of or_empty
named_audio slug transport language none qualities = qualities
named_audio slug transport language (some uri) qualities =
    insert (name_of uri)
      (record {
        slug = slug;
        transport = transport;
        stream_type = type_audio;
        variant = [];
        quality = name_of uri;
        meta = or_empty language;
      })
      qualities

-- One round of the loop over the items. The groups of audio renditions are collected there, and read nowhere.
unfoldable pub add_item : Str → Str → Item → Dict Str StreamId → Dict Str StreamId
unfolding named_audio insert name_of size_text
add_item slug transport (media item) qualities =
    if str_eq item.media_type (codes "AUDIO")
    then named_audio slug transport item.language item.uri qualities
    else qualities
add_item slug transport (playlist item) qualities =
    insert (name_of item.uri)
      (record {
        slug = slug;
        transport = transport;
        stream_type = type_video;
        variant = [];
        quality = name_of item.uri;
        meta = size_text item.width item.height;
      })
      qualities
add_item slug transport other_item qualities = qualities

unfoldable pub add_items : Str → Str → List Item → Dict Str StreamId → Dict Str StreamId
unfolding add_item
add_items slug transport [] qualities = qualities
add_items slug transport (item ∷ items) qualities =
    add_items slug transport items (add_item slug transport item qualities)

unfoldable pub master_playlist_url : Str → Str → Option Str
master_playlist_url transport slug =
    if str_eq transport transport_hls
    then some (codes "http://localhost/hls/" ++ (slug ++ codes "/native_hd.m3u8"))
    else if str_eq transport transport_hlsll
    then some (codes "http://localhost/hlsll/" ++ (slug ++ codes "/index.m3u8"))
    else none

fetch_at : Fetch → Option Str → Option Playlist
fetch_at fetch none = none
fetch_at fetch (some url) = fetch url

with_playlist : Str → HlsStream → Option Playlist → HlsStream
unfolding add_items
with_playlist slug stream none = stream
with_playlist slug stream (some fetched) =
    if fetched.is_master
    then record stream { qualities = add_items slug stream.transport fetched.items [] }
    else stream

unfoldable pub update_master_playlist : Fetch → Str → HlsStream → HlsStream
unfolding with_playlist fetch_at master_playlist_url
update_master_playlist fetch slug stream =
    with_playlist slug stream (fetch_at fetch (master_playlist_url stream.transport slug))

-- The call that a tick starts for a stream in the map, when it ends.
finish_found : Fetch → Str → Option HlsStream → HlsParser → HlsParser
unfolding update_master_playlist insert
finish_found fetch slug none h = h
finish_found fetch slug (some stream) h = record h {
  streams = insert slug (update_master_playlist fetch slug stream) h.streams;
}

unfoldable pub finish_update : Fetch → Str → HlsParser → HlsParser
unfolding finish_found lookup
finish_update fetch slug h = finish_found fetch slug (lookup slug h.streams) h

-- One tick of `updatePlaylists`, over the entries that the map had: those not used for longer than the
-- timeout go. The calls that it starts for the others end later, each by itself, with `finish_update`.
unfoldable pub tick_loop : ℕ → Dict Str HlsStream → HlsParser → HlsParser
unfolding remove
tick_loop now [] h = h
tick_loop now ((slug, stream) ∷ entries) h = tick_loop now entries (record h {
  streams =
      if ltb h.stream_timeout (now - stream.last_used) then remove slug h.streams else h.streams;
})

unfoldable pub update_playlists : ℕ → HlsParser → HlsParser
unfolding tick_loop
update_playlists now h = tick_loop now h.streams h

unfoldable pub quality_from_segment_uri : Str → Str → Option Str
unfolding split base first_part second_part
quality_from_segment_uri uri transport =
    if str_eq transport transport_hls
    then some (first_part (split (base uri) b'_'))
    else if str_eq transport transport_hlsll
    then second_part (split (base uri) b'_')
    else none

unfoldable pub is_segment_file : Str → Bool
unfolding has_suffix
is_segment_file file =
    has_suffix file (codes ".ts")
    || has_suffix file (codes ".m4s")
    || has_suffix file (codes ".mp4")

-- `addStream`; a stream that is there already stays.
add_missing : Option HlsStream → ℕ → Str → Str → HlsParser → HlsParser
unfolding insert
add_missing (some _) now slug transport h = h
add_missing none now slug transport h =
    let stream : HlsStream = record { transport = transport; qualities = []; last_used = now } in
    record h { streams = insert slug stream h.streams }

unfoldable pub add_stream : ℕ → Str → Str → HlsParser → HlsParser
unfolding add_missing lookup
add_stream now slug transport h = add_missing (lookup slug h.streams) now slug transport h

find_quality : Option Str → Dict Str StreamId → Option StreamId
unfolding lookup
find_quality none qualities = none
find_quality (some name) qualities = lookup name qualities

quality_in : Option HlsStream → ℕ → Str → Str → Str → HlsParser → Option StreamId × HlsParser
unfolding add_stream find_quality quality_from_segment_uri insert
quality_in none now slug transport file h = (none, add_stream now slug transport h)
quality_in (some stream) now slug transport file h =
    let used = record stream { last_used = now } in
    (
      find_quality (quality_from_segment_uri file transport) stream.qualities,
      record h { streams = insert slug used h.streams },
    )

unfoldable pub get_quality : ℕ → Str → Str → Str → HlsParser → Option StreamId × HlsParser
unfolding quality_in is_segment_file lookup
get_quality now slug transport file h =
    if is_segment_file file
    then quality_in (lookup slug h.streams) now slug transport file h
    else (none, h)
