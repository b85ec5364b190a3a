-- ===== src/Upload/Tests/Stores.antt =====
-- The theorems on streams, files and their readers (upload/) at concrete values.
use stream_api.Base.{
  ◌≡◌, ◌⊎◌, refl, true, false, none, some, List, [], ◌∷◌, Str, codes, arith, Runs, str_Eq, ◌≤◌,
}
use stream_api.Base.Dict.{lookup, insert, IsDistinct}
use stream_api.Base.Int.{pos}
use stream_api.Upload.Registry.{
  FileEntry, FileRegistry, new_file_registry, add, file_status, expire,
}
use stream_api.Upload.Registry.Lifetime.{
  IsFiled, new_file_registry-IsFiled, judged, status-expire, Event, added, ticked, handle_all,
  kept_file_survives, add-IsFiled,
}
use stream_api.Upload.Stream.{Stream}
use stream_api.Upload.Stream.Origin.{Request, serve, serve-keeps_origin}
use stream_api.Upload.Store.{StreamStore, timeout, get_stream}
use stream_api.Upload.Store.Expiry.{aged, get_stream-timeout}
use stream_api.Upload.Reader.{outcome, read_all, read_all_lem}
use stream_api.Upload.Writer.{Faults, Files, write_file}
use stream_api.Upload.Writer.Atomic.{Leaves, leftover, write_error, write_file-IsAtomic}

abbrev path : Str
path = codes "/srv/s1/a.ts"

abbrev kept_entry : FileEntry
kept_entry = record { path = path; deadline = 0; keep = some 0 }

abbrev plain_entry : FileEntry
plain_entry = record { path = path; deadline = 100; keep = none }

abbrev empty_registry : FileRegistry
empty_registry = new_file_registry (record { expire_interval = 0; keep_delay = 0 })

abbrev kept_registry : FileRegistry
kept_registry = add kept_entry empty_registry

kept_registry-IsFiled : IsFiled kept_registry
kept_registry-IsFiled =
    add-IsFiled kept_entry empty_registry
      (new_file_registry-IsFiled (record { expire_interval = 0; keep_delay = 0 }))

status-expire_example :
    file_status path (expire (λ _. true) 50 (λ _. 51) kept_registry)
    ≡ judged
        (λ _. true)
        50
        (λ _. 51)
        kept_registry.config.keep_delay
        (file_status path kept_registry)
status-expire_example =
    status-expire (λ _. true) 50 (λ _. 51) kept_registry path kept_registry-IsFiled

abbrev events : List Event
events = added plain_entry ∷ ticked (λ _. false) 1000 (λ _. 1000) ∷ []

kept_registry_status : file_status path kept_registry ≡ some kept_entry
unfolding file_status add new_file_registry lookup insert
kept_registry_status = refl

kept_file_survives_example : file_status path (handle_all events kept_registry) ≡ some kept_entry
kept_file_survives_example =
    kept_file_survives path 0 kept_entry events kept_registry kept_registry-IsFiled
      kept_registry_status refl (λ _. refl, (refl, tt))

abbrev a_stream : Stream
a_stream = record {
  slug = codes "s1";
  timeout = 10;
  origin_timeout = 6;
  ttl = pos 2;
  origin = codes "10.0.0.1";
  origin_updated = 100;
  alive = 0;
  parser = none;
}

abbrev requests : List Request
requests = (codes "10.0.0.2", 101) ∷ (codes "10.0.0.1", 102) ∷ (codes "10.0.0.3", 105) ∷ []

serve-keeps_origin_example :
    ((serve requests a_stream).origin ≡ codes "10.0.0.1")
    × (100 ≤ (serve requests a_stream).origin_updated)
    × ((serve requests a_stream).origin_timeout ≡ 6)
serve-keeps_origin_example =
    serve-keeps_origin requests a_stream (omega arith, (omega arith, (omega arith, tt)))
      (omega arith, (omega arith, (omega arith, tt)))

abbrev a_store : StreamStore
a_store = record {
  config = record { stream_timeout = 10; stream_expire_interval = 2; stream_origin_duration = 6 };
  streams = (codes "s1", a_stream) ∷ [];
  cleaned = [];
}

a_store-IsDistinct : IsDistinct a_store.streams
unfolding lookup
a_store-IsDistinct = (refl, tt)

get_stream-timeout_example :
    get_stream (codes "s1") (timeout a_store) ≡ aged 2 (get_stream (codes "s1") a_store)
get_stream-timeout_example = get_stream-timeout a_store (codes "s1") a_store-IsDistinct

read_all_lem_example :
    read_all 2 (record { limit = 5; eager = true; rest = codes "12345" })
    ≡ some (outcome true 5 (codes "12345"))
read_all_lem_example = read_all_lem 2 5 true (codes "12345") (omega arith)

abbrev full_disk : Faults
full_disk = record {
  mkdir_fails = false;
  open_fails = false;
  write_fails = true;
  close_fails = false;
  rename_fails = false;
  remove_fails = true;
  partial = codes "hal";
}

abbrev old_files : Files
old_files = (path, codes "old") ∷ []

write_file-IsAtomic_example :
    ((false ≡ true) × (write_file full_disk path (codes "half") old_files ≡ none))
    ⊎ ((false ≡ false)
        × Runs
            (Leaves path
              (codes "half")
              (leftover full_disk true (codes "hal"))
              old_files
              (write_error full_disk))
            (write_file full_disk path (codes "half") old_files))
write_file-IsAtomic_example = write_file-IsAtomic full_disk path (codes "half") old_files
