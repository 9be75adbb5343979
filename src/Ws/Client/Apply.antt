-- ===== src/Ws/Client/Apply.antt =====
-- Subscribe, Unsubscribe and applySubscription of subscriptions.go. The request is the caller's and
-- is written to: its type and operation, where they are not set.
use polymarket_go_sdk.Base.{
  Bool, true, false, Option, none, some, List, [], ◌∷◌, is_empty, if◌then◌else◌, ◌≡◌, refl,
}
use polymarket_go_sdk.Base.Text.{Text}
use polymarket_go_sdk.Ws.Requests.{
  Channel, no_channel, market, user, subscribe_channel, other_channel, Operation, no_operation,
  subscribe, unsubscribe, other_operation, AuthPayload, SubscriptionRequest, new_market_unsubscribe,
  new_user_subscription, new_user_unsubscribe,
}
use polymarket_go_sdk.Ws.Client.{
  Error, asset_ids_required, markets_required, type_required, request_required, unknown_channel,
  unknown_operation, credentials_required, Client, Net, ensure_conn, write_json, resolve_auth,
  add_market_refs, remove_market_refs, add_user_refs, remove_user_refs, send_market, send_user,
}

-- `c.ensureConn(...)` and then the write of an unsubscription.
remove_market : Net → Client × List Text → Client × Option Error
remove_market net (c, []) = (c, none)
remove_market net (c, x ∷ xs) =
    let (k, e) = ensure_conn net c.market_conn in
    let d : Client = record c { market_conn = k } in
    elim e [
      | some x' ↦ (d, some x')
      | none ↦
          let (k', e') = write_json net k (new_market_unsubscribe (x ∷ xs)) in
          (record d { market_conn = k' }, e')
    ]

remove_user : Net → Option AuthPayload → Client × List Text → Client × Option Error
remove_user net auth (c, []) = (c, none)
remove_user net auth (c, x ∷ xs) =
    let (k, e) = ensure_conn net c.user_conn in
    let d : Client = record c { user_conn = k } in
    elim e [
      | some x' ↦ (d, some x')
      | none ↦
          let (k', e') =
            write_json net k (record (new_user_unsubscribe (x ∷ xs)) { auth = auth }) in
          (record d { user_conn = k' }, e')
    ]

abbrev is_true : Option Bool → Bool
is_true (some true) = true
is_true _ = false

apply_market : Operation → Net → Client → SubscriptionRequest → Client × Option Error
unfolding remove_market
apply_market subscribe net c r =
    let (d, fresh) = add_market_refs c r.asset_ids (is_true r.custom_feature_enabled) in
    send_market net d fresh (is_true r.custom_feature_enabled)
apply_market unsubscribe net c r = remove_market net (remove_market_refs c r.asset_ids)
apply_market no_operation net c r = (c, some unknown_operation)
apply_market other_operation net c r = (c, some unknown_operation)

apply_user : Operation → Net → Client → SubscriptionRequest → AuthPayload → Client × Option Error
unfolding remove_user
apply_user subscribe net c r a =
    let (d, fresh) = add_user_refs c r.markets (some a) in send_user net d fresh (some a)
apply_user unsubscribe net c r a = remove_user net (some a) (remove_user_refs c r.markets)
apply_user no_operation net c r a = (c, some unknown_operation)
apply_user other_operation net c r a = (c, some unknown_operation)

-- The type of a request that has none: by the list that it carries.
abbrev infer_type : Channel → SubscriptionRequest → Channel
infer_type no_channel r =
    if is_empty r.asset_ids then (if is_empty r.markets then no_channel else user) else market
infer_type t r = t

abbrev or_operation : Operation → Operation → Operation
or_operation no_operation d = d
or_operation o d = o

-- After the checks of the type and of the lists.
apply_typed :
    Channel
    → Net
    → Client
    → SubscriptionRequest
    → Operation
    → Client × SubscriptionRequest × Option Error
unfolding apply_market apply_user
apply_typed market net c r default_op =
    if is_empty r.asset_ids
    then (c, r, some asset_ids_required)
    else let o = or_operation r.operation default_op in
      let (d, e) = apply_market o net c r in (d, record r { operation = o }, e)
apply_typed user net c r default_op =
    if is_empty r.markets
    then (c, r, some markets_required)
    else let o = or_operation r.operation default_op in
      elim (resolve_auth c r.auth) [
        | none ↦ (c, record r { operation = o }, some credentials_required)
        | some a ↦ let (d, e) = apply_user o net c r a in (d, record r { operation = o }, e)
      ]
apply_typed no_channel net c r default_op = (c, r, some type_required)
apply_typed subscribe_channel net c r default_op = (c, r, some unknown_channel)
apply_typed other_channel net c r default_op = (c, r, some unknown_channel)

unfoldable apply_subscription :
    Net → Client → SubscriptionRequest → Operation → Client × SubscriptionRequest × Option Error
unfolding apply_typed
apply_subscription net c r default_op =
    let t = infer_type r.type r in apply_typed t net c (record r { type = t }) default_op

abbrev with_pointer :
    Option SubscriptionRequest
    → Client
    → (SubscriptionRequest → Client × SubscriptionRequest × Option Error)
    → Client × Option SubscriptionRequest × Option Error
with_pointer none c f = (c, none, some request_required)
with_pointer (some r) c f = let (d, r', e) = f r in (d, some r', e)

unfoldable subscribe_request :
    Net → Client → Option SubscriptionRequest → Client × Option SubscriptionRequest × Option Error
unfolding apply_subscription
subscribe_request net c req = with_pointer req c (λ r. apply_subscription net c r subscribe)

unfoldable unsubscribe_request :
    Net → Client → Option SubscriptionRequest → Client × Option SubscriptionRequest × Option Error
unfolding apply_subscription
unsubscribe_request net c req =
    with_pointer req c
      (λ r. apply_subscription net c (record r { operation = unsubscribe }) unsubscribe)

unfoldable unsubscribe_market_assets : Net → Client → List Text → Client × Option Error
unfolding unsubscribe_request
unsubscribe_market_assets net c ids =
    if is_empty ids
    then (c, some asset_ids_required)
    else let (d, r, e) = unsubscribe_request net c (some (new_market_unsubscribe ids)) in (d, e)

unfoldable unsubscribe_user_markets : Net → Client → List Text → Client × Option Error
unfolding unsubscribe_request
unsubscribe_user_markets net c ids =
    if is_empty ids
    then (c, some markets_required)
    else let (d, r, e) = unsubscribe_request net c (some (new_user_unsubscribe ids)) in (d, e)

-- A request made by NewUserSubscription cannot be subscribed: its type is "subscribe", which
-- applySubscription does not know, so that nothing is counted and nothing is written.
new_user_subscription_refused :
    (net : Net) (c : Client) (ids : List Text) (auth : Option AuthPayload)
    → let r = record (new_user_subscription ids) { auth = auth } in
      subscribe_request net c (some r) ≡ (c, some r, some unknown_channel)
unfolding subscribe_request new_user_subscription
new_user_subscription_refused net c ids auth = refl
