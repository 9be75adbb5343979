-- ===== src/Ws/Client.antt =====
-- The client of impl.go, lifecycle.go and subscriptions.go: reference counts, connections and what
-- was written on them. A call is one sequence of steps; the state of a connection (connecting,
-- reconnecting), its goroutines and the event channels stand elsewhere.
pub mod Streams
pub mod Apply
use polymarket_go_sdk.Base.{
  ℕ, suc, ◌+◌, Bool, true, false, ◌||◌, Option, none, some, List, [], ◌∷◌, is_empty, is_some,
  if◌then◌else◌,
}
use polymarket_go_sdk.Base.Text.{Text}
use polymarket_go_sdk.Base.Result.{Result, ok, err, ◌>>=◌}
use polymarket_go_sdk.Ws.Refs.{Refs, keys, add_refs, remove_refs}
use polymarket_go_sdk.Ws.Requests.{
  AuthPayload, SubscriptionRequest, new_market_subscription, new_market_unsubscribe,
  new_user_subscription, new_user_unsubscribe, with_custom_features,
}

pub data EventType : Type 0 where
  orderbook price_change midpoint last_trade_price tick_size_change best_bid_ask new_market
        market_resolved user_orders user_trades :
      EventType

pub data Error : Type 0 where
  asset_ids_required markets_required type_required request_required unknown_channel
        unknown_operation credentials_required dial_failed write_failed not_established :
      Error

-- A stream that is open, that is, in the map of its event type and not closed.
pub record Entry : Type 0 where
  pub id : ℕ
  pub event : EventType
  pub ids : List Text

-- One of the two connections, and what was written on it since it was dialled, latest first.
pub record Conn : Type 0 where
  pub up : Bool
  pub sent : List SubscriptionRequest

pub record Client : Type 0 where
  pub api_key : Option AuthPayload
  pub last_auth : Option AuthPayload
  pub custom_features : Bool
  pub market_refs : Refs
  pub user_refs : Refs
  pub market_conn : Conn
  pub user_conn : Conn
  pub market_streams : List Entry
  pub user_streams : List Entry
  pub next_sub_id : ℕ

-- What the network does to one call: whether a dial and a write succeed.
pub record Net : Type 0 where
  pub dial_ok : Bool
  pub write_ok : Bool

abbrev pub no_conn : Conn
no_conn = record { up = false; sent = [] }

-- ensureMarketConn and ensureUserConn
unfoldable pub ensure_conn : Net → Conn → Conn × Option Error
ensure_conn net k =
    if k.up
    then (k, none)
    else if net.dial_ok
    then (record { up = true; sent = [] }, none)
    else (k, some dial_failed)

-- writeJSON on the connection of a channel
unfoldable pub write_json : Net → Conn → SubscriptionRequest → Conn × Option Error
write_json net k r =
    if k.up
    then (if net.write_ok then (record k { sent = r ∷ k.sent }, none) else (k, some write_failed))
    else (k, some not_established)

-- closeConn
unfoldable pub close_conn : Conn → Conn
close_conn k = no_conn

-- authPayload: the API key, if all its parts are set.
unfoldable pub auth_payload : Client → Option AuthPayload
auth_payload c = elim c.api_key [
  | none ↦ none
  | some k ↦
      if is_empty k.api_key || is_empty k.secret || is_empty k.passphrase then none else some k
]

abbrev or_else : Option AuthPayload → Option AuthPayload → Option AuthPayload
or_else none b = b
or_else (some a) b = some a

-- resolveAuth: the explicit credentials, else the API key, else those used last.
unfoldable pub resolve_auth : Client → Option AuthPayload → Option AuthPayload
unfolding auth_payload
resolve_auth c explicit = or_else explicit (or_else (auth_payload c) c.last_auth)

unfoldable pub add_market_refs : Client → List Text → Bool → Client × List Text
add_market_refs c ids custom =
    if is_empty ids
    then (c, [])
    else let (refs, fresh) = add_refs c.market_refs ids in
      (record c { market_refs = refs; custom_features = custom || c.custom_features }, fresh)

unfoldable pub remove_market_refs : Client → List Text → Client × List Text
remove_market_refs c ids =
    let (refs, gone) = remove_refs c.market_refs ids in (record c { market_refs = refs }, gone)

unfoldable pub add_user_refs : Client → List Text → Option AuthPayload → Client × List Text
add_user_refs c ids auth =
    if is_empty ids
    then (c, [])
    else let (refs, fresh) = add_refs c.user_refs ids in
      (record c { user_refs = refs; last_auth = or_else auth c.last_auth }, fresh)

unfoldable pub remove_user_refs : Client → List Text → Client × List Text
remove_user_refs c ids =
    let (refs, gone) = remove_refs c.user_refs ids in (record c { user_refs = refs }, gone)

abbrev market_request : List Text → Bool → SubscriptionRequest
market_request ids custom =
    if custom
    then with_custom_features (new_market_subscription ids) true
    else new_market_subscription ids

-- ensureConn(ChannelMarket), and then the subscription of the ids that are new, if any.
unfoldable pub send_market : Net → Client → List Text → Bool → Client × Option Error
unfolding ensure_conn write_json
send_market net c fresh custom =
    let (k, e) = ensure_conn net c.market_conn in
    let d : Client = record c { market_conn = k } in
    if is_some e
    then (d, e)
    else if is_empty fresh
    then (d, none)
    else let (k', e') = write_json net k (market_request fresh custom) in
      (record d { market_conn = k' }, e')

unfoldable pub send_user : Net → Client → List Text → Option AuthPayload → Client × Option Error
unfolding ensure_conn write_json
send_user net c fresh auth =
    let (k, e) = ensure_conn net c.user_conn in
    let d : Client = record c { user_conn = k } in
    if is_some e
    then (d, e)
    else if is_empty fresh
    then (d, none)
    else let (k', e') = write_json net k (record (new_user_subscription fresh) { auth = auth }) in
      (record d { user_conn = k' }, e')

-- resubscribe, after a reconnect
unfoldable resubscribe_market : Net → Client → Client
unfolding write_json
resubscribe_market net c = if is_empty (keys c.market_refs) then c else record c {
  market_conn =
      (write_json net c.market_conn (market_request (keys c.market_refs) c.custom_features)).0;
}

unfoldable resubscribe_user : Net → Client → Client
unfolding write_json
resubscribe_user net c = if is_empty (keys c.user_refs) then c else elim c.last_auth [
  | none ↦ c
  | some a ↦ record c {
    user_conn =
        (write_json net c.user_conn
          (record (new_user_subscription (keys c.user_refs)) { auth = some a })).0;
  }
]

-- A successful round of reconnectLoop: the old connection closed, a new one dialled, and the ids
-- that are counted subscribed again.
unfoldable pub reconnect_market : Net → Client → Client
unfolding resubscribe_market
reconnect_market net c =
    resubscribe_market net (record c { market_conn = record { up = true; sent = [] } })

unfoldable reconnect_user : Net → Client → Client
unfolding resubscribe_user
reconnect_user net c =
    resubscribe_user net (record c { user_conn = record { up = true; sent = [] } })
