-- ===== src/Logs/Agent.antt =====
-- The kind of player that a user agent tells of (logreceiver/useragent.go).
use stream_api.Base.{Str, [], str_eq, codes, if◌then◌else◌, ◌≡◌, refl}
use stream_api.Base.Text.{contains}

pub data ClientType : Type 0 where
  chrome : ClientType
  firefox : ClientType
  safari : ClientType
  mpv : ClientType
  vlc : ClientType
  ffmpeg : ClientType
  other : ClientType

pub parse_user_agent : Str → ClientType
unfolding contains
parse_user_agent user_agent =
    if str_eq user_agent []
    then other
    else if contains user_agent (codes "Chrome")
    then chrome
    else if contains user_agent (codes "Firefox")
    then firefox
    else if contains user_agent (codes "libmpv")
    then mpv
    else if contains user_agent (codes "VLC")
    then vlc
    else if contains user_agent (codes "Lavf")
    then ffmpeg
    else if contains user_agent (codes "Safari")
    then safari
    else other

chrome_before_safari : parse_user_agent (codes "Chrome/120 Safari/537") ≡ chrome
unfolding parse_user_agent
chrome_before_safari = refl

safari_alone : parse_user_agent (codes "Version/17 Safari/605") ≡ safari
unfolding parse_user_agent
safari_alone = refl
