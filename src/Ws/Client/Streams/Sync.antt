-- ===== src/Ws/Client/Streams/Sync.antt =====
-- What the server was told on the market connection, against the reference counts.
use polymarket_go_sdk.Base.{◌≡◌, Bool, true, false, ◌||◌, ◌&&◌, not, List, [], ◌∷◌, ltb}
use polymarket_go_sdk.Base.Text.{Text}
use polymarket_go_sdk.Ws.Refs.{get, occurs}
use polymarket_go_sdk.Ws.Refs.Keys.{IsProper}
use polymarket_go_sdk.Ws.Requests.{
  Operation, no_operation, subscribe, unsubscribe, other_operation, SubscriptionRequest,
}
use polymarket_go_sdk.Ws.Client.{EventType, Entry, Client, Net, reconnect_market}
use polymarket_go_sdk.Ws.Client.Streams.{subscribe_market_stream, close_market_stream}

abbrev heard : Operation → Bool → Bool → Bool
heard subscribe named before = named || before
heard unsubscribe named before = not named && before
heard no_operation named before = before
heard other_operation named before = before

-- Whether the server sends an asset's events, by the requests written since the dial, latest first.
abbrev pub server : List SubscriptionRequest → Text → Bool
server [] x = false
server (r ∷ older) x = heard r.operation (ltb 0 (occurs x r.asset_ids)) (server older x)

-- On a connection that is up the server sends exactly the assets that are counted; where there is
-- none, none is counted; and the map holds no id that it does not count.
pub record InSync (c : Client) : Type 0 where
  pub proper : IsProper c.market_refs
  pub told :
      (x : Text)
      → c.market_conn.up ≡ true
      → server c.market_conn.sent x ≡ ltb 0 (get c.market_refs x)
  pub idle : (x : Text) → c.market_conn.up ≡ false → get c.market_refs x ≡ 0

abbrev pub good : Net
good = record { dial_ok = true; write_ok = true }

-- What happens to the market side of a client: streams opened and closed, and the connection lost
-- and made again.
pub data Event : Type 0 where
  opens : List Text → EventType → Bool → Event
  closes : Entry → Event
  reconnects : Event

unfoldable pub step : Client → Event → Client
step c (opens ids event custom) = (subscribe_market_stream good c ids event custom).0
step c (closes entry) = close_market_stream good c entry
step c reconnects = reconnect_market good c

unfoldable pub run : Client → List Event → Client
unfolding step
run c [] = c
run c (e ∷ es) = run (step c e) es
