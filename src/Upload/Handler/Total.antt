-- ===== src/Upload/Handler/Total.antt =====
-- Every request to the upload server comes to an answer (upload/server.go, upload/handler.go).
use stream_api.Base.{
  ℕ, ◌<◌, ◌≡◌, refl, Bool, true, false, Option, some, [], Str, str_Eq, str_eq, codes, Option-cases,
  inl, inr, ◌⊎◌, Runs, Runs-some, Runs-bind, Runs-if, ◌>>=◌, subst, if◌then◌else◌,
}
use mathlib.Core.Option.{some-injective}
use stream_api.Base.Dict.{lookup}
use stream_api.Base.FilePath.{dir, base, ext}
use stream_api.Upload.M3u8.{Library}
use stream_api.Upload.Hls.{HlsError, HlsParser, Hls}
use stream_api.Upload.Hls.Safe.{IsSafe, IsSafe-fields}
use stream_api.Upload.Hls.Master.{parse_playlist}
use stream_api.Upload.Hls.Master.Total.{parse_playlist-IsSafe}
use stream_api.Upload.Registry.{FileRegistry}
use stream_api.Upload.Stream.{Stream}
use stream_api.Upload.Store.{StreamStore, get_stream, update_stream}
use stream_api.Upload.Owners.{Held, IsOwned, at_work}
use stream_api.Upload.Channels.{Channels}
use stream_api.Upload.Owners.Step.{put-IsOwned}
use stream_api.Upload.Owners.Update.{
  update-IsAlike, revise-IsOwned, start-IsOwned, get_hls_parser-IsSafe,
}
use stream_api.Upload.Handler.Registers.{delivered_lem}
use stream_api.Upload.Handler.{
  Handler, Body, HandleError, after_parse, handle_playlist, copy_segment, handle_known, handle_file,
  validate, is_thumbnail,
}

module _ (lib : Library) (copier : Str → Str → Bool → lib.Disk → Option (Bool × lib.Disk))
    (buffer : ℕ) where
  -- The streams own their channels, no clean-up is due, and playlists have room for an item.
  pub record IsSound (h : Handler lib copier buffer) : Type 0 where
    pub owned : IsOwned lib h.store.streams h.channels
    pub collected : h.store.cleaned ≡ []
    pub positive : 0 < h.playlist_size

  abbrev pub Leaves : Option HandleError × Handler lib copier buffer → Type 0
  Leaves r = IsSound r.1

  after_parse-IsSound :
      (slug : Str) (s t : Stream) (h : Handler lib copier buffer) (r : Option HlsError × Hls lib)
      → IsSound h
      → lookup slug h.store.streams ≡ some s
      → t.alive ≡ s.alive
      → IsSafe lib (λ c. Held slug h.store.streams c ⊎ (c ≡ s.alive)) r.1
      → IsSound (after_parse lib copier buffer slug t h r).1
  unfolding after_parse
  after_parse-IsSound slug s t h (failed, hls) sound found same safe =
      let held = safe.has.tracked in
      record {
        owned =
            put-IsOwned lib h.disk slug h.store.streams h.channels
              (record t { parser = some hls.parser }) hls.channels sound.owned held.fresh
              (record {
                alive =
                    rw same (held.held_made s.alive (inr refl), held.held_open s.alive (inr refl));
                apart = rw same (sound.owned.owner slug s found).apart;
                safe = λ p e sent disk.
                    subst
                      (λ p'.
                        IsSafe lib (λ c. Held slug h.store.streams c ⊎ (c ≡ t.alive))
                          (at_work lib p' hls.channels sent disk))
                      (some-injective hls.parser p e)
                      (rw same (
                        IsSafe-fields lib (λ c. Held slug h.store.streams c ⊎ (c ≡ s.alive)) hls _
                          refl refl
                          (record { same_subs = refl; same_base = refl; same_size = refl }) safe));
              })
              (λ c k. (held.held_made c (inl k), held.held_open c (inl k)));
        collected = sound.collected;
        positive = sound.positive;
      }

  either-IsSound :
      (b : Bool) (h h' : Handler lib copier buffer)
      → IsSound h
      → IsSound h'
      → IsSound (if b then h else h')
  either-IsSound true h h' sound sound' = sound
  either-IsSound false h h' sound sound' = sound'

  registry-IsSound :
      (h : Handler lib copier buffer) (registry : FileRegistry)
      → IsSound h
      → IsSound (record h { registry = registry })
  registry-IsSound h registry sound = record {
    owned = sound.owned;
    collected = sound.collected;
    positive = sound.positive;
  }

  module _ (enough : 0 < buffer)
      (copies : (path bytes : Str) (broken : Bool) (disk : lib.Disk)
        → (r : Bool × lib.Disk) × (copier path bytes broken disk ≡ some r))
      (writes : (path text : Str) (disk : lib.Disk)
        → (r : Bool × lib.Disk) × (lib.write_file path text disk ≡ some r)) where
    parsed-IsSound :
        (slug path : Str) (content : Option Str) (s s' : Stream) (parser : HlsParser)
        (h : Handler lib copier buffer)
        → lib.label_ok (base path) ≡ true
        → IsSound h
        → lookup slug h.store.streams ≡ some s
        → s'.alive ≡ s.alive
        → IsSafe lib
            (λ c. Held slug h.store.streams c ⊎ (c ≡ s.alive))
            (at_work lib parser h.channels [] h.disk)
        → Runs Leaves (
            parse_playlist lib path content (at_work lib parser h.channels [] h.disk) >>= λ r.
            some (after_parse lib copier buffer slug s' h r))
    parsed-IsSound slug path content s s' parser h ok sound found same safe =
        let held : ℕ → Type 0 = λ c. Held slug h.store.streams c ⊎ (c ≡ s.alive) in
        Runs-bind (λ (r : Option HlsError × Hls lib). IsSafe lib held r.1) Leaves _ _
          (parse_playlist-IsSafe lib held writes path content
            (at_work lib parser h.channels [] h.disk) ok safe)
          (λ r safe'.
            Runs-some Leaves (after_parse lib copier buffer slug s' h r)
              (after_parse-IsSound slug s s' h r sound found same safe'))

    handle_playlist-IsSound :
        (body : Body) (slug path : Str) (s : Stream) (h : Handler lib copier buffer)
        → lib.label_ok slug ≡ true
        → lib.label_ok (base path) ≡ true
        → IsSound h
        → lookup slug h.store.streams ≡ some s
        → Runs Leaves (handle_playlist lib copier buffer body slug path s h)
    unfolding handle_playlist
    handle_playlist-IsSound body slug path s h slug_ok name_ok sound found =
        rw (delivered_lem buffer h.max_playlist_size body enough) (
          Runs-bind
            (λ (r : HlsParser × Stream).
              (r.1.alive ≡ s.alive)
              × IsSafe lib (λ c. Held slug h.store.streams c ⊎ (c ≡ s.alive))
                  (at_work lib r.0 h.channels [] h.disk))
            Leaves _ _
            (get_hls_parser-IsSafe lib h.disk slug h.store.streams h.channels sound.owned (dir path)
              h.playlist_size s slug_ok sound.positive found)
            (λ r fits. parsed-IsSound slug path _ s r.1 r.0 h name_ok sound found fits.0 fits.1))

    copy_segment-IsSound :
        (body : Body) (now : ℕ) (path : Str) (h : Handler lib copier buffer)
        → IsSound h
        → Runs Leaves (copy_segment lib copier buffer body now path h)
    unfolding copy_segment
    copy_segment-IsSound body now path h sound =
        rw (delivered_lem buffer h.max_segment_size body enough) (
          rw ((copies path _ _ h.disk).1) (
            Runs-some Leaves _ (record {
              owned = sound.owned;
              collected = sound.collected;
              positive = sound.positive;
            })))

    handle_known-IsSound :
        (body : Body) (now : ℕ) (slug path : Str) (s : Stream) (h : Handler lib copier buffer)
        → lib.label_ok slug ≡ true
        → lib.label_ok (base path) ≡ true
        → IsSound h
        → lookup slug h.store.streams ≡ some s
        → Runs Leaves (handle_known lib copier buffer body now slug path s h)
    unfolding handle_known
    handle_known-IsSound body now slug path s h slug_ok name_ok sound found =
        Runs-if Leaves (str_eq (ext path) (codes ".m3u8")) _ _
          (handle_playlist-IsSound body slug path s _ slug_ok name_ok (registry-IsSound h _ sound)
            found)
          (Runs-if Leaves (str_eq (ext path) (codes ".mpd")) _ _
            (Runs-some Leaves _ (registry-IsSound h _ sound))
            (copy_segment-IsSound body now path _ (
              either-IsSound (is_thumbnail path) _ _ (registry-IsSound h _ sound)
                (registry-IsSound h _ sound))))

    pub handle_file-IsSound :
        (body : Body) (now : ℕ) (slug path : Str) (h : Handler lib copier buffer)
        → lib.label_ok slug ≡ true
        → lib.label_ok (base path) ≡ true
        → IsSound h
        → Runs Leaves (handle_file lib copier buffer body now slug path h)
    unfolding handle_file get_stream
    handle_file-IsSound body now slug path h slug_ok name_ok sound =
        elim (Option-cases (lookup slug h.store.streams)) [
          | inl unknown ↦ rw (unknown, handle_file) (Runs-some Leaves _ sound)
          | inr (s, found) ↦
              rw (found, handle_file)
                (handle_known-IsSound body now slug path s h slug_ok name_ok sound found)
        ]

  -- The stream of the slug is there or is made, and then updated.
  update_stream-IsOwned :
      (slug origin : Str) (now : ℕ) (disk : lib.Disk) (st : StreamStore) (cs : Channels)
      → IsOwned lib st.streams cs
      → let r = update_stream slug origin now st cs in IsOwned lib r.1.streams r.2
  unfolding update_stream
  update_stream-IsOwned slug origin now disk st cs owned =
      elim (Option-cases (lookup slug st.streams)) [
        | inr (s, found) ↦
            rw (found, update_stream)
              (revise-IsOwned lib disk slug st.streams cs owned s _ found
                (update-IsAlike origin now s))
        | inl unknown ↦
            rw (unknown, update_stream)
              (start-IsOwned lib disk slug st.streams cs owned st.config.stream_timeout
                st.config.stream_origin_duration _ (update-IsAlike origin now _))
      ]

  pub validate-IsSound :
      (slug origin : Str) (now : ℕ) (h : Handler lib copier buffer)
      → IsSound h
      → IsSound (validate lib copier buffer slug origin now h).1
  unfolding validate
  validate-IsSound slug origin now h sound = record {
    owned = update_stream-IsOwned slug origin now h.disk h.store h.channels sound.owned;
    collected = sound.collected;
    positive = sound.positive;
  }
