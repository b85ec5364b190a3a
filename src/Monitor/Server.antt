-- ===== src/Monitor/Server.antt =====
-- The server of the monitor (monitor/server.go): the cases of its loop. A websocket is a number; `written`
-- is what was written to each, in order, also where the write failed and the code only logs that.
use stream_api.Base.{ℕ, Bool, true, Option, none, some, List, [], ◌∷◌, ◌++◌, Str, str_Eq, nat_Eq}
use stream_api.Base.Dict.{Dict, lookup, insert, remove}
use stream_api.Monitor.{Value, Update}

abbrev pub Message : Type 0
Message = Dict Str Value

pub record Server : Type 0 where
  pub state : Dict Str Value
  pub clients : Dict ℕ Bool
  pub written : Dict ℕ (List Message)

abbrev pub new_server : Server
new_server = record { state = []; clients = []; written = [] }

pub data Event : Type 0 where
  add_client : ℕ → Event
  remove_client : ℕ → Event
  update : Update → Event

abbrev pub or_none : Option (List Message) → List Message
or_none none = []
or_none (some messages) = messages

unfoldable pub messages_to : ℕ → Server → List Message
unfolding lookup
messages_to ws s = or_none (lookup ws s.written)

-- `ws.WriteJSON`
unfoldable pub write : ℕ → Message → Server → Server
unfolding messages_to insert
write ws message s = record s { written = insert ws (messages_to ws s ++ message ∷ []) s.written }

unfoldable pub broadcast : Dict ℕ Bool → Message → Server → Server
unfolding write
broadcast [] message s = s
broadcast ((ws, _) ∷ clients) message s = broadcast clients message (write ws message s)

-- One round of the loop of `run`
unfoldable pub handle_event : Event → Server → Server
unfolding write broadcast insert remove
handle_event (add_client ws) s =
    let told = write ws s.state s in record told { clients = insert ws true told.clients }
handle_event (remove_client ws) s = record s { clients = remove ws s.clients }
handle_event (update (key, value)) s =
    broadcast s.clients ((key, value) ∷ []) (record s { state = insert key value s.state })

unfoldable pub run : List Event → Server → Server
unfolding handle_event
run [] s = s
run (e ∷ events) s = run events (handle_event e s)
