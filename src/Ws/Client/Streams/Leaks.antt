-- ===== src/Ws/Client/Streams/Leaks.antt =====
-- Where the counts and the server part.
use polymarket_go_sdk.Base.{◌≡◌, true, false, [], ◌∷◌, arith, is_empty, ◌<◌}
use polymarket_go_sdk.Base.Text.{Text, text_eq_refl}
use polymarket_go_sdk.Base.Result.{ok, err}
use polymarket_go_sdk.Ws.Refs.{get, add_refs}
use polymarket_go_sdk.Ws.Refs.Laws.{get-put}
use polymarket_go_sdk.Ws.Client.{EventType, Client, Net, dial_failed, add_market_refs, send_market}
use polymarket_go_sdk.Ws.Client.Streams.{subscribe_market_stream, new_entry}
use polymarket_go_sdk.Ws.Client.Streams.Sync.{good, server}

abbrev pub no_dial : Net
no_dial = record { dial_ok = false; write_ok = true }

-- A subscription that fails to dial keeps its reference, though no stream is open for it. So where
-- an asset was not counted and there is no connection, the next subscription of it succeeds, with a
-- connection and a stream, and the server is never asked for the asset.
pub failed_dial_leaks :
    (c : Client) (id : Text) (event : EventType)
    → is_empty id ≡ false
    → c.market_conn.up ≡ false
    → get c.market_refs id ≡ 0
    → let (d, r) = subscribe_market_stream no_dial c (id ∷ []) event false in
      let (s, q) = subscribe_market_stream good d (id ∷ []) event false in
      (r ≡ err dial_failed)
      × (get d.market_refs id ≡ 1)
      × (d.market_streams ≡ c.market_streams)
      × (q ≡ ok (new_entry d event (id ∷ [])))
      × (s.market_conn.up ≡ true)
      × (server s.market_conn.sent id ≡ false)
unfolding subscribe_market_stream add_market_refs send_market add_refs
failed_dial_leaks c id event h u z = ground (arith, text_eq_refl id, get-put c.market_refs id 1 id)

-- Custom features are asked for together with new assets only: a stream that wants them, of an asset
-- that is counted already, on a connection that is up, is opened and nothing is written for it.
pub custom_not_sent :
    (c : Client) (id : Text) (event : EventType)
    → is_empty id ≡ false
    → c.market_conn.up ≡ true
    → 0 < get c.market_refs id
    → let (d, r) = subscribe_market_stream good c (id ∷ []) event true in
      (r ≡ ok (new_entry c event (id ∷ [])))
      × (d.custom_features ≡ true)
      × (d.market_conn ≡ c.market_conn)
unfolding subscribe_market_stream add_market_refs send_market add_refs
custom_not_sent c id event h u z = ground arith
