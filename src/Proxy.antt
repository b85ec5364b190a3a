-- ===== src/Proxy.antt =====
-- The upload proxy (cmd/upload-proxy/), which hands each upload to several sinks: its configuration
-- (config.go). An `AuthType` is its text.
pub mod Url
pub mod Sink
pub mod Delivery
pub mod Sinks
pub mod Tests
use stream_api.Base.{
  ℕ, Bool, true, false, List, [], ◌∷◌, Str, str_eq, codes, if◌then◌else◌, ◌==◌, ◌&&◌, not, map,
}

pub record AuthConfig : Type 0 where
  pub username : Str
  pub password : Str
  pub auth_type : Str

pub record SinkConfig : Type 0 where
  pub address : Str
  pub queue_size : ℕ
  pub auth : AuthConfig

pub record Config : Type 0 where
  pub sinks : List SinkConfig
  pub auth : AuthConfig

abbrev pub default_queue_size : ℕ
default_queue_size = 128

-- A username without a known kind of authorisation means the basic one.
with_type : AuthConfig → AuthConfig
with_type a =
    if not (str_eq a.username [])
      && not (str_eq a.auth_type (codes "basic"))
      && not (str_eq a.auth_type (codes "digest"))
    then record a { auth_type = codes "basic" }
    else a

unfoldable pub apply_defaults : SinkConfig → SinkConfig
unfolding with_type
apply_defaults c = record c {
  queue_size = if c.queue_size == 0 then default_queue_size else c.queue_size;
  auth = with_type c.auth;
}

-- `Load`, after the files were read.
unfoldable pub load : Config → Config
unfolding apply_defaults with_type
load c =
    let auth = with_type c.auth in
    record {
      sinks =
          map
            (λ s.
              let d = apply_defaults s in
              if str_eq auth.username [] then d else record d { auth = auth })
            c.sinks;
      auth = auth;
    }
