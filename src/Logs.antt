-- ===== src/Logs.antt =====
-- The receiver of the access logs (logreceiver/): who watches which quality of which stream.
pub mod Hls
pub mod Parser
pub mod Agent
pub mod Tests
use stream_api.Base.{◌≡◌, Bool, true, ◌&&◌, ◌↔◌, Str, Eq, str_eq, str_eq_iff, codes, arith, ℕ}

abbrev pub transport_hls : Str
transport_hls = codes "hls"

abbrev pub transport_hlsll : Str
transport_hlsll = codes "hlsll"

abbrev pub type_video : Str
type_video = codes "video"

abbrev pub type_audio : Str
type_audio = codes "audio"

pub record UserId : Type 0 where
  pub ip : Str
  pub agent : Str
  pub country : Str

-- The names of transports, types, variants and qualities are texts.
pub record StreamId : Type 0 where
  pub slug : Str
  pub transport : Str
  pub stream_type : Str
  pub variant : Str
  pub quality : Str
  pub meta : Str

-- `timestamp` is in nanoseconds.
pub record Segment : Type 0 where
  pub timestamp : ℕ
  pub stream_id : StreamId

-- Go's `==` on the two structs that serve as map keys.
abbrev pub user_eq : UserId → UserId → Bool
user_eq a b = str_eq a.ip b.ip && str_eq a.agent b.agent && str_eq a.country b.country

pub user_eq_iff : (a b : UserId) → (user_eq a b ≡ true) ↔ (a ≡ b)
user_eq_iff a b =
    ground (arith, str_eq_iff a.ip b.ip, str_eq_iff a.agent b.agent, str_eq_iff a.country b.country)

instance abbrev pub user_Eq : Eq UserId
user_Eq = record { beq = user_eq; beq_iff = user_eq_iff }

abbrev pub stream_eq : StreamId → StreamId → Bool
stream_eq a b =
    str_eq a.slug b.slug
    && str_eq a.transport b.transport
    && str_eq a.stream_type b.stream_type
    && str_eq a.variant b.variant
    && str_eq a.quality b.quality
    && str_eq a.meta b.meta

pub stream_eq_iff : (a b : StreamId) → (stream_eq a b ≡ true) ↔ (a ≡ b)
stream_eq_iff a b = ground (
  arith,
  str_eq_iff a.slug b.slug,
  str_eq_iff a.transport b.transport,
  str_eq_iff a.stream_type b.stream_type,
  str_eq_iff a.variant b.variant,
  str_eq_iff a.quality b.quality,
  str_eq_iff a.meta b.meta,
)

instance abbrev pub stream_Eq : Eq StreamId
stream_Eq = record { beq = stream_eq; beq_iff = stream_eq_iff }
