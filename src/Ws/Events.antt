-- ===== src/Ws/Events.antt =====
-- pkg/clob/ws/events.go: the dispatch of decoded events to the streams. A feed is what the client
-- holds for one type of event; the entries are those of its map, in the order of the snapshot. The
-- decoding of messages is not modelled.
pub mod Users
use polymarket_go_sdk.Base.{
  ℕ, Bool, true, false, ◌||◌, ◌&&◌, not, Option, none, some, List, [], ◌∷◌, ◌++◌, map, is_empty,
  length, ltb, if◌then◌else◌,
}
use polymarket_go_sdk.Base.Text.{Text}
use polymarket_go_sdk.Ws.Buffers.{SubscriptionEntry, matches, matches_any_asset, try_send}

-- The channel that all events of a type go to; it holds at most 100.
pub record GlobalChannel {ℓ} (T : Type ℓ) : Type ℓ where
  pub items : List T
  pub closed : Bool

abbrev global_buffer : ℕ
global_buffer = 100

pub record Feed {ℓ} (T : Type ℓ) : Type ℓ where
  pub global : Option (GlobalChannel T)
  pub subs : List (SubscriptionEntry T)

-- A change of a price, of which an event holds several.
pub record PriceChange : Type 0 where
  pub asset_id : Text
  pub price : Text
  pub timestamp : Text

pub record PriceEvent : Type 0 where
  pub price_changes : List PriceChange
  pub timestamp : Text

module _ {ℓ} {T : Type ℓ} where
  -- A send on a closed channel panics, and the panic is recovered.
  unfoldable try_send_global : Option (GlobalChannel T) → T → Option (GlobalChannel T)
  try_send_global none msg = none
  try_send_global (some ch) msg =
      if ch.closed
      then some ch
      else if ltb (length ch.items) global_buffer
      then some (record ch { items = ch.items ++ msg ∷ [] })
      else some ch

  -- The loop over the snapshot, with a test of each entry.
  unfoldable pub send_where :
      (SubscriptionEntry T → Bool) → T → List (SubscriptionEntry T) → List (SubscriptionEntry T)
  send_where wants msg [] = []
  send_where wants msg (s ∷ ss) = (if wants s then try_send s msg else s) ∷ send_where wants msg ss

  unfoldable pub dispatch_where : Bool → (SubscriptionEntry T → Bool) → Feed T → T → Feed T
  unfolding try_send_global send_where
  dispatch_where closing wants f msg =
      if closing
      then f
      else record { global = try_send_global f.global msg; subs = send_where wants msg f.subs }

  -- dispatchOrderbook, dispatchMidpoint, dispatchLastTrade, dispatchTickSize and
  -- dispatchBestBidAsk, of an event of an asset.
  unfoldable dispatch_asset : Bool → Feed T → Text → T → Feed T
  unfolding dispatch_where
  dispatch_asset closing f asset_id msg =
      dispatch_where closing (λ s. matches s.assets asset_id) f msg

  -- dispatchNewMarket and dispatchMarketResolved, of an event of several assets.
  unfoldable dispatch_assets : Bool → Feed T → List Text → T → Feed T
  unfolding dispatch_where
  dispatch_assets closing f asset_ids msg =
      dispatch_where closing (λ s. matches_any_asset s.assets asset_ids) f msg

  -- dispatchTrade, of an event of a market.
  unfoldable pub dispatch_trade : Bool → Feed T → Text → T → Feed T
  unfolding dispatch_where
  dispatch_trade closing f market msg =
      dispatch_where closing (λ s. not (not (is_empty market) && not (matches s.markets market))) f
        msg

  -- dispatchOrder
  unfoldable pub dispatch_order : Bool → Feed T → T → Feed T
  unfolding dispatch_where
  dispatch_order closing f msg = dispatch_where closing (λ s. true) f msg

-- The inner loop of dispatchPrice, over the changes of an event.
unfoldable send_changes :
    Text → List PriceChange → SubscriptionEntry PriceChange → SubscriptionEntry PriceChange
send_changes timestamp [] s = s
send_changes timestamp (p ∷ ps) s =
    send_changes timestamp ps
      (if matches s.assets p.asset_id then try_send s (record p { timestamp = timestamp }) else s)

-- The global channel of dispatchPrice takes the event as a whole.
unfoldable dispatch_price :
    Bool
    → Option (GlobalChannel PriceEvent)
    → List (SubscriptionEntry PriceChange)
    → PriceEvent
    → Option (GlobalChannel PriceEvent) × List (SubscriptionEntry PriceChange)
unfolding try_send_global send_changes
dispatch_price closing global subs event =
    if closing
    then (global, subs)
    else (try_send_global global event, map (send_changes event.timestamp event.price_changes) subs)
