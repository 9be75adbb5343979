-- ===== src/Ws/Examples.antt =====
-- The theorems on pkg/clob/ws at concrete inputs.
use polymarket_go_sdk.Base.{ℕ, ◌≡◌, refl, true, false, none, List, [], ◌∷◌, arith, inl}
use polymarket_go_sdk.Base.Text.{codes, text_eq}
use polymarket_go_sdk.Ws.Refs.{get}
use polymarket_go_sdk.Ws.Client.{Client, no_conn, orderbook, best_bid_ask}
use polymarket_go_sdk.Ws.Client.Streams.{subscribe_market_stream}
use polymarket_go_sdk.Ws.Client.Streams.Sync.{good, Event, opens, reconnects, run}
use polymarket_go_sdk.Ws.Client.Streams.Leaks.{no_dial, failed_dial_leaks, custom_not_sent}
use polymarket_go_sdk.Ws.Events.{Feed, dispatch_trade, dispatch_order}
use polymarket_go_sdk.Ws.Events.Users.{At, order_ignores_markets}
use polymarket_go_sdk.Ws.Buffers.{SubscriptionEntry, new_entry, make_id_set, in_set, matches}
use polymarket_go_sdk.Ws.Buffers.Matches.{matches_iff}
use polymarket_go_sdk.Ws.Buffers.Delivers.{
  Faithful, opened, sends, takes, takes_error, closes, run-Faithful,
}
use polymarket_go_sdk.Ws.Buffers.Delivers

abbrev plain : Client
plain = record {
  api_key = none;
  last_auth = none;
  custom_features = false;
  market_refs = [];
  user_refs = [];
  market_conn = no_conn;
  user_conn = no_conn;
  market_streams = [];
  user_streams = [];
  next_sub_id = 0;
}

abbrev opening : List Event
opening = opens (codes "a" ∷ codes "b" ∷ codes "a" ∷ []) orderbook false ∷ reconnects ∷ []

failed_dial_leaks_example :
    get
      (subscribe_market_stream no_dial plain (codes "a" ∷ []) orderbook false).0.market_refs
      (codes "a")
    ≡ 1
unfolding get
failed_dial_leaks_example = (failed_dial_leaks plain (codes "a") orderbook refl refl refl).1

abbrev counting : Client
counting = record plain {
  market_refs = (codes "a", 1) ∷ [];
  market_conn = record { up = true; sent = [] };
}

custom_not_sent_example :
    (subscribe_market_stream good counting (codes "a" ∷ []) best_bid_ask true).0.market_conn
    ≡ counting.market_conn
unfolding get text_eq
custom_not_sent_example =
    (custom_not_sent counting (codes "a") best_bid_ask refl refl (omega arith)).2

-- A stream of blank ids alone takes every asset.
matches_iff_example : matches (make_id_set ([] ∷ [])) (codes "a") ≡ true
matches_iff_example = (matches_iff ([] ∷ []) (codes "a") refl).1 (inl refl)

run-Faithful_example : Faithful {T = ℕ} (
    Delivers.run
      (opened (codes "a" ∷ []) [])
      (sends 1 ∷ sends 2 ∷ takes ∷ closes ∷ sends 3 ∷ takes ∷ takes_error ∷ []))
run-Faithful_example =
    run-Faithful (codes "a" ∷ []) []
      (sends 1 ∷ sends 2 ∷ takes ∷ closes ∷ sends 3 ∷ takes ∷ takes_error ∷ [])

-- A stream of one market.
abbrev of_market : SubscriptionEntry ℕ
unfolding new_entry make_id_set
of_market = new_entry [] (codes "m" ∷ [])

abbrev feed : Feed ℕ
feed = record { global = none; subs = of_market ∷ [] }

order_ignores_markets_example :
    At (dispatch_trade false feed (codes "other") 1).subs 0 of_market
    × At (dispatch_order false feed 2).subs 0 (record of_market { ch = 2 ∷ [] })
unfolding matches in_set text_eq of_market
order_ignores_markets_example =
    order_ignores_markets feed feed 0 0 of_market of_market (codes "other") 1 2 ([], [], refl, refl)
      ([], [], refl, refl) refl refl (refl, omega arith)
