-- ===== src/Logs/Parser/Attribution.antt =====
-- To whom and to what an entry of the log is attributed (`parseEntry` of logreceiver/parser.go).
use stream_api.Base.{
  ℕ, ◌≡◌, ◌≢◌, refl, sym, true, Option, none, some, List, [], ◌∷◌, ◌++◌, str_eq, str_eq_iff, codes,
  if◌then◌else◌, arith, Bool-cases, inl, inr, ◌⊎◌,
}
use stream_api.Base.Dict.{lookup, lookup-insert}
use stream_api.Logs.{UserId, user_Eq, user_eq, user_eq_iff, StreamId, Segment}
use stream_api.Logs.Hls.{HlsParser, get_quality, is_segment_file}
use stream_api.Logs.Hls.Named.{HasNames, Answers, get_quality-Answers}
use stream_api.Logs.Parser.{
  NginxLogEntry, Parser, Groups, find_groups, or_no_segments, add_segment, add_found, parse_matched,
  parse_entry,
}
use stream_api.Logs.Parser.Uri.{EndsWith, find_groups-EndsWith}

abbrev pub user_of : NginxLogEntry → UserId
user_of point = record { ip = point.address; agent = point.user_agent; country = point.country }

-- The segments that a parser holds of a user.
pub segments_of : UserId → Parser → List Segment
unfolding or_no_segments lookup
segments_of q p = or_no_segments (lookup q p.segments)

-- A user has one more segment, at the end: of the time, and of the stream that the URI names.
pub record IsAttributed (now : ℕ) (point : NginxLogEntry) (q : UserId) (p p' : Parser)
    : Type 0 where
  pub groups : Groups
  pub id : StreamId
  pub got : point.method ≡ codes "GET"
  pub in_uri : EndsWith point.uri groups
  pub not_dash : groups.transport ≢ codes "dash"
  pub segment_file : is_segment_file groups.file ≡ true
  pub of_stream : id.slug ≡ groups.slug
  pub of_user : q ≡ user_of point
  pub added :
      segments_of q p' ≡ segments_of q p ++ (record { timestamp = now; stream_id = id } ∷ [])

-- The user's segments are what they were, or one more.
abbrev pub Attributes : ℕ → NginxLogEntry → UserId → Parser → Parser → Type 0
Attributes now point q p p' = (segments_of q p' ≡ segments_of q p) ⊎ IsAttributed now point q p p'

segments-add_segment :
    (now : ℕ) (user q : UserId) (id : StreamId) (p : Parser)
    → segments_of q (add_segment now user id p) ≡ (
        if user_eq user q
        then segments_of q p ++ (record { timestamp = now; stream_id = id } ∷ [])
        else segments_of q p)
unfolding add_segment segments_of or_no_segments
segments-add_segment now user q id p = ground (
  arith,
  lookup-insert user q
      (or_no_segments (lookup user p.segments) ++ (record { timestamp = now; stream_id = id } ∷ []))
      p.segments,
  user_eq_iff user q,
)

add_found-Attributes :
    (now : ℕ) (point : NginxLogEntry) (g : Groups) (q : UserId) (p : Parser) (hls : HlsParser)
    (found : Option StreamId)
    → point.method ≡ codes "GET"
    → EndsWith point.uri g
    → g.transport ≢ codes "dash"
    → Answers g.slug g.file found
    → Attributes now point q p (add_found now (user_of point) found (record p { hls = hls }))
unfolding add_found
add_found-Attributes now point g q p hls none got in_uri not_dash a =
    inl (unfold segments_of in refl)
add_found-Attributes now point g q p hls (some id) got in_uri not_dash a =
    let p' : Parser = record p { hls = hls } in
    let same : segments_of q p' ≡ segments_of q p = unfold segments_of in refl in
    let e = segments-add_segment now (user_of point) q id p' in
    elim (Bool-cases (user_eq (user_of point) q)) [
      | inl this ↦ inr (record {
        groups = g;
        id = id;
        got = got;
        in_uri = in_uri;
        not_dash = not_dash;
        segment_file = a.segment;
        of_stream = a.of_stream;
        of_user = sym ((user_eq_iff (user_of point) q).0 this);
        added = rw (this, same) at e;
      })
      | inr another ↦ inl (rw (another, same) at e)
    ]

parse_matched-Attributes :
    (now : ℕ) (point : NginxLogEntry) (found : Option Groups) (q : UserId) (p : Parser)
    → point.method ≡ codes "GET"
    → find_groups point.uri ≡ found
    → HasNames p.hls
    → Attributes now point q p (parse_matched now point found p)
unfolding parse_matched
parse_matched-Attributes now point none q p got e v = inl refl
parse_matched-Attributes now point (some g) q p got e v =
    elim (Bool-cases (str_eq g.transport (codes "dash"))) [
      | inl dash ↦ rw dash (inl refl)
      | inr other ↦ rw other (
          add_found-Attributes now point g q p (get_quality now g.slug g.transport g.file p.hls).1
            (get_quality now g.slug g.transport g.file p.hls).0 got
            (find_groups-EndsWith point.uri g e)
            (λ t. ground (arith, str_eq_iff g.transport (codes "dash")))
            (get_quality-Answers now g.slug g.transport g.file p.hls v))
    ]

-- Where the qualities that the parser knows have the names of their streams, an entry of the log changes no
-- user's segments, or it adds one: at the end, of the time of the call, for the user of the entry, and of
-- a quality of the very stream that the URI names. It adds one only for a GET of a segment file of an HLS stream.
pub parse_entry-Attributes :
    (now : ℕ) (point : NginxLogEntry) (q : UserId) (p : Parser)
    → HasNames p.hls
    → Attributes now point q p (parse_entry now point p)
unfolding parse_entry
parse_entry-Attributes now point q p v = elim (Bool-cases (str_eq point.method (codes "GET"))) [
  | inl get ↦ rw get (
      parse_matched-Attributes now point (find_groups point.uri) q p
        ((str_eq_iff point.method (codes "GET")).0 get) refl v)
  | inr other ↦ rw other (inl refl)
]
