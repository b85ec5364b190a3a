-- ===== src/Upload/Owners/Update.antt =====
-- `UpdateStream` and `GetHLSParser` (upload/stream_store.go, upload/stream.go): what a stream owns.
use stream_api.Base.{
  ℕ, suc, ◌<◌, ◌≡◌, refl, sym, ◌∙◌, some, [], Str, str_Eq, arith, true, Runs, Runs-some, Runs-bind,
  Option-cases, inl, inr, ◌⊎◌,
}
use stream_api.Base.Dict.{Dict, lookup, insert}
use stream_api.Upload.M3u8.{Library}
use stream_api.Upload.Channels.{Channels}
use stream_api.Upload.Hls.{HlsParser}
use stream_api.Upload.Hls.Safe.{IsSafe, new_hls_parser-IsSafe}
use stream_api.Upload.Stream.{Stream, new_stream, get_hls_parser, update}
use stream_api.Upload.Owners.{Held, IsOpen, IsOwner, IsOwned, owner_open, at_work}
use stream_api.Upload.Owners.Step.{put-IsOwned}

-- The stream's channel and parser are the same.
pub record IsAlike (s t : Stream) : Type 0 where
  pub same_alive : t.alive ≡ s.alive
  pub same_parser : t.parser ≡ s.parser

pub update-IsAlike : (origin : Str) (now : ℕ) (s : Stream) → IsAlike s (update origin now s).1
unfolding update
update-IsAlike origin now s = record { same_alive = ground arith; same_parser = ground arith }

module _ (lib : Library) (disk : lib.Disk) (slug : Str) (streams : Dict Str Stream) (cs : Channels)
    (owned : IsOwned lib streams cs) where
  pub held_open : (c : ℕ) → Held slug streams c → IsOpen cs c
  held_open c (q, t, e, other, o) = (owner_open lib disk (owned.owner q t e) c o).0

  IsAlike-IsOwner :
      (held : ℕ → Type 0) (s t : Stream)
      → IsAlike s t
      → IsOwner lib held s cs
      → IsOwner lib held t cs
  IsAlike-IsOwner held s t same o = record {
    alive = rw same.same_alive o.alive;
    apart = rw same.same_alive o.apart;
    safe = λ p e. rw same.same_alive (o.safe p (sym same.same_parser ∙ e));
  }

  -- A stream is changed in its times and its origin alone.
  pub revise-IsOwned :
      (s t : Stream)
      → lookup slug streams ≡ some s
      → IsAlike s t
      → IsOwned lib (insert slug t streams) cs
  revise-IsOwned s t found same =
      put-IsOwned lib disk slug streams cs t cs owned owned.fresh
        (IsAlike-IsOwner (Held slug streams) s t same (owned.owner slug s found)) held_open

  -- A new stream takes the next channel.
  pub start-IsOwned :
      (timeout origin_timeout : ℕ) (t : Stream)
      → IsAlike (new_stream slug timeout origin_timeout cs).0 t
      → IsOwned lib (insert slug t streams) (new_stream slug timeout origin_timeout cs).1
  unfolding new_stream
  start-IsOwned timeout origin_timeout t same =
      put-IsOwned lib disk slug streams cs t (record cs { next = suc cs.next }) owned
        (λ c h. owned.fresh c (omega arith))
        (record {
          alive = rw same.same_alive (omega arith, owned.fresh cs.next (omega arith));
          apart = rw same.same_alive (λ h. let below = (held_open cs.next h).0 in omega arith);
          safe =
              λ p e. let no : ⊥ = ground (arith, e, same.same_parser) in λ sent disk'. elim no [ ];
        })
        (λ c h. let (made, is_open) = held_open c h in (omega arith, is_open))

  -- The parser that a playlist is given is safe, whether it is new or not.
  pub get_hls_parser-IsSafe :
      (base_path : Str) (size : ℕ) (s : Stream)
      → lib.label_ok slug ≡ true
      → 0 < size
      → lookup slug streams ≡ some s
      → Runs {A = HlsParser × Stream}
          (λ r.
            (r.1.alive ≡ s.alive)
            × IsSafe lib (λ c. Held slug streams c ⊎ (c ≡ s.alive)) (at_work lib r.0 cs [] disk))
          (get_hls_parser lib.label_ok slug base_path size s)
  unfolding get_hls_parser
  get_hls_parser-IsSafe base_path size s ok positive found =
      let o = owned.owner slug s found in
      let mine : ℕ → Type 0 = λ c. Held slug streams c ⊎ (c ≡ s.alive) in
      let Fits : HlsParser × Stream → Type 0 =
        λ r. (r.1.alive ≡ s.alive) × IsSafe lib mine (at_work lib r.0 cs [] disk) in
      elim (Option-cases s.parser) [
        | inr (p, e) ↦ rw (e, get_hls_parser) (Runs-some Fits (p, s) (refl, o.safe p e [] disk))
        | inl fresh ↦
            rw (fresh, get_hls_parser)
              (Runs-bind (λ p. IsSafe lib mine (at_work lib p cs [] disk)) Fits _ _
                (new_hls_parser-IsSafe lib mine slug base_path size cs disk ok positive owned.fresh
                  (λ c h. elim h [ inl held ↦ held_open c held | inr same ↦ rw same o.alive ]))
                (λ p safe. Runs-some Fits (p, record s { parser = some p }) (refl, safe)))
      ]
