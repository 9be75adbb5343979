-- ===== src/Ws/Client/Streams.antt =====
-- Opening and closing streams: subscribeMarketStream, subscribeUserStream, closeMarketStream,
-- closeUserStream and Close.
pub mod Sync
pub mod Leaks
use polymarket_go_sdk.Base.{
  ℕ, suc, ◌+◌, ◌%◌, ◌^◌, Bool, true, false, ◌||◌, ◌&&◌, not, Option, none, some, List, [], ◌∷◌,
  ◌==◌, is_empty, is_some, if◌then◌else◌,
}
use polymarket_go_sdk.Base.Text.{Text}
use polymarket_go_sdk.Base.Result.{Result, ok, err}
use polymarket_go_sdk.Ws.Refs.{keys}
use polymarket_go_sdk.Ws.Requests.{AuthPayload, new_market_unsubscribe, new_user_unsubscribe}
use polymarket_go_sdk.Ws.Client.{
  EventType, Error, asset_ids_required, markets_required, credentials_required, Entry, Conn, Client,
  Net, write_json, close_conn, auth_payload, resolve_auth, add_market_refs, remove_market_refs,
  add_user_refs, remove_user_refs, send_market, send_user,
}

-- newSubscriptionEntry: the next id, a uint64.
abbrev pub new_entry : Client → EventType → List Text → Entry
new_entry c event ids = record { id = (c.next_sub_id + 1) % 2 ^ 64; event = event; ids = ids }

or_entry : Option Error → Entry → Result Error Entry
or_entry none e = ok e
or_entry (some x) e = err x

open_market : Option Error → Client → Entry → Client
open_market none c e = record c { next_sub_id = e.id; market_streams = e ∷ c.market_streams }
open_market (some x) c e = c

open_user : Option Error → Client → Entry → Client
open_user none c e = record c { next_sub_id = e.id; user_streams = e ∷ c.user_streams }
open_user (some x) c e = c

unfoldable pub subscribe_market_stream :
    Net → Client → List Text → EventType → Bool → Client × Result Error Entry
unfolding or_entry open_market
subscribe_market_stream net c ids event custom =
    if is_empty ids
    then (c, err asset_ids_required)
    else let (d, fresh) = add_market_refs c ids custom in
      let (s, e) = send_market net d fresh custom in
      (open_market e s (new_entry s event ids), or_entry e (new_entry s event ids))

unfoldable subscribe_user_stream :
    Net → Client → List Text → EventType → Client × Result Error Entry
unfolding or_entry open_user
subscribe_user_stream net c ids event =
    if is_empty ids then (c, err markets_required) else elim (resolve_auth c none) [
      | none ↦ (c, err credentials_required)
      | some a ↦
          let (d, fresh) = add_user_refs c ids (some a) in
          let (s, e) = send_user net d fresh (some a) in
          (open_user e s (new_entry s event ids), or_entry e (new_entry s event ids))
    ]

-- entry.close() and the deletion from its map: false if the entry is not open.
unfoldable pub is_open : ℕ → List Entry → Bool
is_open id [] = false
is_open id (e ∷ es) = e.id == id || is_open id es

unfoldable pub without : ℕ → List Entry → List Entry
without id [] = []
without id (e ∷ es) = let rest = without id es in if e.id == id then rest else e ∷ rest

-- The unsubscription of ids that nothing refers to any more, on a connection that is there.
unfoldable pub drop_market : Net → Client → List Text → Client
drop_market net c gone =
    if is_empty gone || not c.market_conn.up
    then c
    else record c { market_conn = (write_json net c.market_conn (new_market_unsubscribe gone)).0 }

unfoldable drop_user : Net → Client → List Text → Client
drop_user net c gone =
    if is_empty gone || not c.user_conn.up then c else elim (resolve_auth c none) [
      | none ↦ c
      | some a ↦ record c {
        user_conn =
            (write_json net c.user_conn (record (new_user_unsubscribe gone) { auth = some a })).0;
      }
    ]

unfoldable pub close_market_stream : Net → Client → Entry → Client
close_market_stream net c entry =
    if is_open entry.id c.market_streams
    then (let (d, gone) =
          remove_market_refs (record c { market_streams = without entry.id c.market_streams })
            entry.ids in
        drop_market net d gone)
    else c

unfoldable close_user_stream : Net → Client → Entry → Client
close_user_stream net c entry =
    if is_open entry.id c.user_streams
    then (let (d, gone) =
          remove_user_refs (record c { user_streams = without entry.id c.user_streams })
            entry.ids in
        drop_user net d gone)
    else c

-- `if auth == nil { auth = c.authPayload() }`
abbrev cleanup_auth : Option AuthPayload → Client → Option AuthPayload
cleanup_auth none c = auth_payload c
cleanup_auth (some a) c = some a

-- cleanupSubscriptions
unfoldable pub cleanup_subscriptions : Net → Client → Client
cleanup_subscriptions net c =
    let d = drop_market net c (keys c.market_refs) in
    if is_empty (keys d.user_refs) || not d.user_conn.up
    then d
    else elim (cleanup_auth d.last_auth d) [
      | none ↦ d
      | some a ↦ record d {
        user_conn =
            (write_json net d.user_conn
              (record (new_user_unsubscribe (keys d.user_refs)) { auth = some a })).0;
      }
    ]

-- Close: unsubscribe, close both connections and then every stream.
unfoldable pub close : Net → Client → Client
close net c =
    let d = cleanup_subscriptions net c in
    record d {
      market_conn = close_conn d.market_conn;
      user_conn = close_conn d.user_conn;
      market_streams = [];
      user_streams = [];
    }
