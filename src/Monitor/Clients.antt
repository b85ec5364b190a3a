-- ===== src/Monitor/Clients.antt =====
-- Every client of the monitor has what the watcher has (monitor/server.go, monitor/watcher.go).
use stream_api.Base.{
  ◌&&◌, subst, ◌≡◌, refl, sym, ap, ◌∙◌, Bool, true, false, none, some, is_some, List, [], ◌∷◌, ◌++◌,
  Str, str_Eq, nat_Eq, str_eq, str_eq_iff, if◌then◌else◌, arith, Bool-cases, inl, inr, ◌⊎◌, ◌==◌,
  ==_iff, ℕ,
}
use stream_api.Base.Dict.{
  Dict, lookup, insert, remove, lookup-insert, lookup-remove, IsDistinct, insert-IsDistinct,
}
use stream_api.Monitor.{Value}
use stream_api.Monitor.Server.{
  Message, Server, new_server, Event, add_client, remove_client, update, or_none, messages_to,
  write, broadcast, handle_event, run,
}

-- A client that keeps the latest value of each key.
unfoldable pub merge : Message → Message → Message
unfolding insert
merge [] view = view
merge ((key, value) ∷ message) view = merge message (insert key value view)

unfoldable pub merge_all : List Message → Message → Message
unfolding merge
merge_all [] view = view
merge_all (m ∷ messages) view = merge_all messages (merge m view)

unfoldable pub view_of : ℕ → Server → Message
unfolding merge_all messages_to
view_of ws s = merge_all (messages_to ws s) []

lookup-merge :
    (q : Str) (message view : Message)
    → IsDistinct message
    → lookup q (merge message view)
      ≡ (if is_some (lookup q message) then lookup q message else lookup q view)
unfolding merge lookup
lookup-merge q [] view h = refl
lookup-merge q ((key, value) ∷ message) view (fresh, h) = ground (
  arith,
  lookup-merge q message (insert key value view) h,
  lookup-insert key q value view,
  str_eq_iff key q,
  fresh,
)

merge_all-append :
    (messages : List Message) (m view : Message)
    → merge_all (messages ++ (m ∷ [])) view ≡ merge m (merge_all messages view)
unfolding merge_all
merge_all-append [] m view = refl
merge_all-append (n ∷ messages) m view = merge_all-append messages m (merge n view)

messages-write :
    (ws q : ℕ) (m : Message) (s : Server)
    → messages_to q (write ws m s)
      ≡ (if ws == q then messages_to q s ++ (m ∷ []) else messages_to q s)
unfolding write messages_to
messages-write ws q m s =
    ground
      (arith, lookup-insert ws q (or_none (lookup ws s.written) ++ (m ∷ [])) s.written, ==_iff ws q)

view-write :
    (ws q : ℕ) (m : Message) (s : Server)
    → view_of q (write ws m s) ≡ (if ws == q then merge m (view_of q s) else view_of q s)
unfolding view_of
view-write ws q m s = elim (Bool-cases (ws == q)) [
  | inl same ↦ rw same (
      ap (λ ms. merge_all ms []) (rw same at (messages-write ws q m s))
      ∙ merge_all-append (messages_to q s) m [])
  | inr other ↦ rw other (ap (λ ms. merge_all ms []) (rw other at (messages-write ws q m s)))
]

-- What a broadcast makes of a view: the message once more, for a client.
view-broadcast :
    (clients : Dict ℕ Bool) (q : ℕ) (key k : Str) (value : Value) (s : Server)
    → lookup k (view_of q (broadcast clients ((key, value) ∷ []) s))
      ≡ (if is_some (lookup q clients) && str_eq key k then some value else lookup k (view_of q s))
unfolding broadcast lookup
view-broadcast [] q key k value s = refl
view-broadcast ((ws, b) ∷ clients) q key k value s = ground (
  arith,
  view-broadcast clients q key k value (write ws ((key, value) ∷ []) s),
  ap (lookup k) (view-write ws q ((key, value) ∷ []) s),
  lookup-merge k ((key, value) ∷ []) (view_of q s) (refl, tt),
  ==_iff ws q,
)

pub write-rest :
    (ws : ℕ) (m : Message) (s : Server)
    → ((write ws m s).state ≡ s.state) × ((write ws m s).clients ≡ s.clients)
unfolding write
write-rest ws m s = (refl, refl)

pub broadcast-rest :
    (clients : Dict ℕ Bool) (m : Message) (s : Server)
    → ((broadcast clients m s).state ≡ s.state) × ((broadcast clients m s).clients ≡ s.clients)
unfolding broadcast
broadcast-rest [] m s = (refl, refl)
broadcast-rest ((ws, b) ∷ clients) m s =
    let (state, same) = broadcast-rest clients m (write ws m s) in
    let (state', same') = write-rest ws m s in (state ∙ state', same ∙ same')

-- A client's view is the state, and no view has a key that the state has not.
pub record IsTold (s : Server) : Type 0 where
  pub distinct : IsDistinct s.state
  pub behind : (ws : ℕ) (k : Str) → lookup k s.state ≡ none → lookup k (view_of ws s) ≡ none
  pub told :
      (ws : ℕ) (k : Str)
      → is_some (lookup ws s.clients) ≡ true
      → lookup k (view_of ws s) ≡ lookup k s.state

-- The same views and the same state, with other clients, of whom only told ones are new.
with_clients :
    (s : Server) (clients : Dict ℕ Bool)
    → IsTold s
    → ((ws : ℕ) (k : Str)
        → is_some (lookup ws clients) ≡ true
        → lookup k (view_of ws s) ≡ lookup k s.state)
    → IsTold (record s { clients = clients })
unfolding view_of messages_to
with_clients s clients t h = record { distinct = t.distinct; behind = t.behind; told = h }

write_state :
    (ws q : ℕ) (k : Str) (s : Server)
    → IsTold s
    → lookup k (view_of q (write ws s.state s))
      ≡ (if ws == q then lookup k s.state else lookup k (view_of q s))
write_state ws q k s t = ground (
  arith,
  ap (lookup k) (view-write ws q s.state s),
  lookup-merge k s.state (view_of q s) t.distinct,
  t.behind q k,
)

add_client-IsTold : (ws : ℕ) (s : Server) → IsTold s → IsTold (handle_event (add_client ws) s)
unfolding handle_event
add_client-IsTold ws s t =
    let s' = write ws s.state s in
    let (state, clients) = write-rest ws s.state s in
    with_clients s' (insert ws true s'.clients)
      (record {
        distinct = subst IsDistinct (sym state) t.distinct;
        behind = λ q k e.
            let e' : lookup k s.state ≡ none = ap (lookup k) (sym state) ∙ e in
            ground (arith, write_state ws q k s t, t.behind q k e', e');
        told = λ q k e.
            let e' : is_some (lookup q s.clients) ≡ true =
              ap (λ c. is_some (lookup q c)) (sym clients) ∙ e in
            ground (arith, write_state ws q k s t, t.told q k e', ap (lookup k) state);
      })
      (λ q k e. told q k (Bool-cases (ws == q)) e)
  where
    told :
        (q : ℕ) (k : Str)
        → ((ws == q) ≡ true) ⊎ ((ws == q) ≡ false)
        → is_some (lookup q (insert ws true (write ws s.state s).clients)) ≡ true
        → lookup k (view_of q (write ws s.state s)) ≡ lookup k (write ws s.state s).state
    told q k (inl same) e =
        write_state ws q k s t ∙ rw same (ap (lookup k) (sym (write-rest ws s.state s).0))
    told q k (inr other) e =
        let old = lookup-insert ws q true (write ws s.state s).clients in
        let found : is_some (lookup q s.clients) ≡ true =
          ap (λ c. is_some (lookup q c)) (sym (write-rest ws s.state s).1)
          ∙ ap is_some (sym (rw other at old))
          ∙ e in
        write_state ws q k s t
        ∙ rw other (t.told q k found ∙ ap (lookup k) (sym (write-rest ws s.state s).0))

remove_client-IsTold : (ws : ℕ) (s : Server) → IsTold s → IsTold (handle_event (remove_client ws) s)
unfolding handle_event
remove_client-IsTold ws s t =
    with_clients s (remove ws s.clients) t
      (λ q k e. t.told q k (ground (arith, lookup-remove ws q s.clients)))

update-IsTold :
    (key : Str) (value : Value) (s : Server)
    → IsTold s
    → IsTold (handle_event (update (key, value)) s)
unfolding handle_event
update-IsTold key value s t =
    let s' : Server = record s { state = insert key value s.state } in
    let (state, clients) = broadcast-rest s.clients ((key, value) ∷ []) s' in
    record {
      distinct = subst IsDistinct (sym state) (insert-IsDistinct key value s.state t.distinct);
      behind = λ q k e.
          let e' : lookup k (insert key value s.state) ≡ none = ap (lookup k) (sym state) ∙ e in
          ground (
            arith,
            view-broadcast s.clients q key k value s',
            lookup-insert key k value s.state,
            e',
            kept q k,
            t.behind q k,
          );
      told = λ q k e.
          let e' : is_some (lookup q s.clients) ≡ true =
            ap (λ c. is_some (lookup q c)) (sym clients) ∙ e in
          ground (
            arith,
            view-broadcast s.clients q key k value s',
            lookup-insert key k value s.state,
            ap (lookup k) state,
            e',
            kept q k,
            t.told q k e',
          );
    }
  where
    kept :
        (q : ℕ) (k : Str)
        → lookup k (view_of q (record s { state = insert key value s.state }))
          ≡ lookup k (view_of q s)
    kept q k = unfold view_of messages_to in refl

handle_event-IsTold : (e : Event) (s : Server) → IsTold s → IsTold (handle_event e s)
handle_event-IsTold (add_client ws) s t = add_client-IsTold ws s t
handle_event-IsTold (remove_client ws) s t = remove_client-IsTold ws s t
handle_event-IsTold (update (key, value)) s t = update-IsTold key value s t

pub run-IsTold : (events : List Event) (s : Server) → IsTold s → IsTold (run events s)
unfolding run
run-IsTold [] s t = t
run-IsTold (e ∷ events) s t = run-IsTold events (handle_event e s) (handle_event-IsTold e s t)

pub new_server-IsTold : IsTold new_server
unfolding view_of messages_to lookup merge_all
new_server-IsTold = record { distinct = tt; behind = λ ws k e. refl; told = λ ws k e. refl }
