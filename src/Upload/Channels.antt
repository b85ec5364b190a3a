-- ===== src/Upload/Channels.antt =====
-- Go channels that are only made and closed (`keep` and `alive` of upload/): a channel is the number
-- of channels made before it. Closing a channel twice is a panic, `none`.
use stream_api.Base.{ℕ, suc, ◌≤◌, ◌≡◌, Bool, true, false, Option, none, some, ◌==◌, if◌then◌else◌}

pub record Channels : Type 0 where
  pub next : ℕ
  pub closed : ℕ → Bool

-- `make(chan struct{})`
unfoldable pub make_channel : Channels → ℕ × Channels
make_channel cs = (cs.next, record cs { next = suc cs.next })

-- `close(c)`
unfoldable pub close : ℕ → Channels → Option Channels
close c cs =
    if cs.closed c
    then none
    else some (record cs { closed = λ d. if c == d then true else cs.closed d })

-- Only channels that were made can be closed.
abbrev pub IsFresh : Channels → Type 0
IsFresh cs = (c : ℕ) → cs.next ≤ c → cs.closed c ≡ false

abbrev pub no_channels : Channels
no_channels = record { next = 0; closed = λ _. false }
