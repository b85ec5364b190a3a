-- ===== src/Logs/Hls/Named.antt =====
-- What the qualities of a stream are called (logreceiver/hls.go).
use stream_api.Base.{
  ℕ, ◌-◌, ◌≡◌, refl, Bool, true, false, Option, none, some, List, [], ◌∷◌, Str, str_Eq, str_eq,
  codes, if◌then◌else◌, ltb, All, Bool-cases, inl, inr,
}
use stream_api.Base.Dict.{Dict, lookup, remove}
use stream_api.Base.Dict.Entries.{All-insert_entry, All-remove_entry, All-lookup}
use stream_api.Logs.{StreamId}
use stream_api.Logs.Hls.{
  Item, media, playlist, other_item, Playlist, Fetch, HlsStream, HlsParser, named_audio, add_item,
  add_items, fetch_at, with_playlist, update_master_playlist, master_playlist_url, tick_loop,
  update_playlists, finish_found, finish_update, is_segment_file, add_missing, add_stream,
  find_quality, quality_from_segment_uri, quality_in, get_quality,
}

-- An entry of a stream's qualities has the name of the stream and of its key.
pub record IsNamed (slug name : Str) (id : StreamId) : Type 0 where
  pub of_stream : id.slug ≡ slug
  pub of_key : id.quality ≡ name

abbrev pub AllNamed : Str → HlsStream → Type 0
AllNamed slug stream = All (λ e. IsNamed slug e.0 e.1) stream.qualities

abbrev pub HasNames : HlsParser → Type 0
HasNames h = All (λ e. AllNamed e.0 e.1) h.streams

named_audio-All :
    (slug transport : Str) (language uri : Option Str) (qualities : Dict Str StreamId)
    → All (λ e. IsNamed slug e.0 e.1) qualities
    → All (λ e. IsNamed slug e.0 e.1) (named_audio slug transport language uri qualities)
unfolding named_audio
named_audio-All slug transport language none qualities h = h
named_audio-All slug transport language (some uri) qualities h =
    All-insert_entry (IsNamed slug) _ _ qualities (record { of_stream = refl; of_key = refl }) h

add_item-All :
    (slug transport : Str) (item : Item) (qualities : Dict Str StreamId)
    → All (λ e. IsNamed slug e.0 e.1) qualities
    → All (λ e. IsNamed slug e.0 e.1) (add_item slug transport item qualities)
unfolding add_item
add_item-All slug transport (media item) qualities h =
    elim (Bool-cases (str_eq item.media_type (codes "AUDIO"))) [
      | inl audio ↦ rw audio (named_audio-All slug transport item.language item.uri qualities h)
      | inr other ↦ rw other h
    ]
add_item-All slug transport (playlist item) qualities h =
    All-insert_entry (IsNamed slug) _ _ qualities (record { of_stream = refl; of_key = refl }) h
add_item-All slug transport other_item qualities h = h

add_items-All :
    (slug transport : Str) (items : List Item) (qualities : Dict Str StreamId)
    → All (λ e. IsNamed slug e.0 e.1) qualities
    → All (λ e. IsNamed slug e.0 e.1) (add_items slug transport items qualities)
unfolding add_items
add_items-All slug transport [] qualities h = h
add_items-All slug transport (item ∷ items) qualities h =
    add_items-All slug transport items (add_item slug transport item qualities)
      (add_item-All slug transport item qualities h)

with_playlist-AllNamed :
    (slug : Str) (stream : HlsStream) (fetched : Option Playlist)
    → AllNamed slug stream
    → AllNamed slug (with_playlist slug stream fetched)
unfolding with_playlist
with_playlist-AllNamed slug stream none h = h
with_playlist-AllNamed slug stream (some fetched) h = elim (Bool-cases fetched.is_master) [
  | inl master ↦ rw master (add_items-All slug stream.transport fetched.items [] tt)
  | inr other ↦ rw other h
]

update_master_playlist-AllNamed :
    (fetch : Fetch) (slug : Str) (stream : HlsStream)
    → AllNamed slug stream
    → AllNamed slug (update_master_playlist fetch slug stream)
unfolding update_master_playlist
update_master_playlist-AllNamed fetch slug stream h =
    with_playlist-AllNamed slug stream (fetch_at fetch (master_playlist_url stream.transport slug))
      h

tick_loop-HasNames :
    (now : ℕ) (entries : Dict Str HlsStream) (h : HlsParser)
    → HasNames h
    → HasNames (tick_loop now entries h)
unfolding tick_loop
tick_loop-HasNames now [] h v = v
tick_loop-HasNames now ((slug, stream) ∷ entries) h v =
    tick_loop-HasNames now entries _ (by_age (ltb h.stream_timeout (now - stream.last_used)))
  where
    by_age :
        (old : Bool)
        → All (λ e. AllNamed e.0 e.1) (if old then remove slug h.streams else h.streams)
    by_age true = All-remove_entry (λ s t. AllNamed s t) slug h.streams v
    by_age false = v

pub update_playlists-HasNames :
    (now : ℕ) (h : HlsParser) → HasNames h → HasNames (update_playlists now h)
unfolding update_playlists
update_playlists-HasNames now h v = tick_loop-HasNames now h.streams h v

finish_found-HasNames :
    (fetch : Fetch) (slug : Str) (found : Option HlsStream) (h : HlsParser)
    → lookup slug h.streams ≡ found
    → HasNames h
    → HasNames (finish_found fetch slug found h)
unfolding finish_found
finish_found-HasNames fetch slug none h e v = v
finish_found-HasNames fetch slug (some stream) h e v =
    All-insert_entry (λ s t. AllNamed s t) slug (update_master_playlist fetch slug stream) h.streams
      (update_master_playlist-AllNamed fetch slug stream
        (All-lookup (λ s t. AllNamed s t) slug stream h.streams v e))
      v

pub finish_update-HasNames :
    (fetch : Fetch) (slug : Str) (h : HlsParser)
    → HasNames h
    → HasNames (finish_update fetch slug h)
unfolding finish_update
finish_update-HasNames fetch slug h v =
    finish_found-HasNames fetch slug (lookup slug h.streams) h refl v

add_missing-HasNames :
    (found : Option HlsStream) (now : ℕ) (slug transport : Str) (h : HlsParser)
    → HasNames h
    → HasNames (add_missing found now slug transport h)
unfolding add_missing
add_missing-HasNames none now slug transport h v =
    All-insert_entry (λ s t. AllNamed s t) slug _ h.streams tt v
add_missing-HasNames (some _) now slug transport h v = v

quality_in-HasNames :
    (found : Option HlsStream) (now : ℕ) (slug transport file : Str) (h : HlsParser)
    → lookup slug h.streams ≡ found
    → HasNames h
    → HasNames (quality_in found now slug transport file h).1
unfolding quality_in add_stream
quality_in-HasNames none now slug transport file h e v =
    add_missing-HasNames (lookup slug h.streams) now slug transport h v
quality_in-HasNames (some stream) now slug transport file h e v =
    All-insert_entry (λ s t. AllNamed s t) slug _ h.streams
      (All-lookup (λ s t. AllNamed s t) slug stream h.streams v e) v

pub get_quality-HasNames :
    (now : ℕ) (slug transport file : Str) (h : HlsParser)
    → HasNames h
    → HasNames (get_quality now slug transport file h).1
unfolding get_quality
get_quality-HasNames now slug transport file h v = elim (Bool-cases (is_segment_file file)) [
  | inl segment ↦
      rw segment (quality_in-HasNames (lookup slug h.streams) now slug transport file h refl v)
  | inr other ↦ rw other v
]

-- What a request for a file gives is a quality of the stream asked for, and the file is a segment.
pub record IsAnswer (slug file : Str) (answer : StreamId) : Type 0 where
  pub of_stream : answer.slug ≡ slug
  pub segment : is_segment_file file ≡ true

abbrev pub Answers : Str → Str → Option StreamId → Type 0
Answers slug file none = Unit
Answers slug file (some id) = IsAnswer slug file id

find_quality-Answers :
    (slug file : Str) (name : Option Str) (stream : HlsStream)
    → is_segment_file file ≡ true
    → AllNamed slug stream
    → Answers slug file (find_quality name stream.qualities)
unfolding find_quality
find_quality-Answers slug file none stream e v = tt
find_quality-Answers slug file (some name) stream e v = by_found (lookup name stream.qualities) refl
  where
    by_found :
        (found : Option StreamId) → lookup name stream.qualities ≡ found → Answers slug file found
    by_found none f = tt
    by_found (some id) f = record {
      of_stream = (All-lookup (IsNamed slug) name id stream.qualities v f).of_stream;
      segment = e;
    }

quality_in-Answers :
    (found : Option HlsStream) (now : ℕ) (slug transport file : Str) (h : HlsParser)
    → is_segment_file file ≡ true
    → lookup slug h.streams ≡ found
    → HasNames h
    → Answers slug file (quality_in found now slug transport file h).0
unfolding quality_in
quality_in-Answers none now slug transport file h s e v = tt
quality_in-Answers (some stream) now slug transport file h s e v =
    find_quality-Answers slug file (quality_from_segment_uri file transport) stream s
      (All-lookup (λ s t. AllNamed s t) slug stream h.streams v e)

pub get_quality-Answers :
    (now : ℕ) (slug transport file : Str) (h : HlsParser)
    → HasNames h
    → Answers slug file (get_quality now slug transport file h).0
unfolding get_quality
get_quality-Answers now slug transport file h v = elim (Bool-cases (is_segment_file file)) [
  | inl segment ↦
      rw segment
        (quality_in-Answers (lookup slug h.streams) now slug transport file h segment refl v)
  | inr other ↦ rw other tt
]
