-- ===== src/Ws/Events/Users.antt =====
-- Which streams the events of orders and trades go to.
use polymarket_go_sdk.Base.{
  ℕ, suc, ◌≡◌, refl, ap, ◌∙◌, Bool, true, false, List, [], ◌∷◌, ◌++◌, is_empty, length,
  if◌then◌else◌, lt→ltb, ◌<◌,
}
use polymarket_go_sdk.Base.Text.{Text}
use polymarket_go_sdk.Ws.Buffers.{SubscriptionEntry, matches, try_send}
use polymarket_go_sdk.Ws.Events.{Feed, dispatch_where, send_where, dispatch_trade, dispatch_order}

module _ {ℓ} {T : Type ℓ} where
  -- An open stream whose buffer has room.
  abbrev Ready : SubscriptionEntry T → Type 0
  Ready s = (s.closed ≡ false) × (length s.ch < 100)

  try_send-Ready :
      (s : SubscriptionEntry T) (msg : T)
      → Ready s
      → try_send s msg ≡ record s { ch = s.ch ++ msg ∷ [] }
  unfolding try_send
  try_send-Ready s msg h = rw h.0 (rw (lt→ltb (length s.ch) 100 h.1) refl)

  send_where-append :
      (wants : SubscriptionEntry T → Bool) (msg : T) (xs ys : List (SubscriptionEntry T))
      → send_where wants msg (xs ++ ys) ≡ send_where wants msg xs ++ send_where wants msg ys
  unfolding send_where
  send_where-append wants msg [] ys = refl
  send_where-append wants msg (x ∷ xs) ys =
      ap (λ l. (if wants x then try_send x msg else x) ∷ l) (send_where-append wants msg xs ys)

  length-send_where :
      (wants : SubscriptionEntry T → Bool) (msg : T) (xs : List (SubscriptionEntry T))
      → length (send_where wants msg xs) ≡ length xs
  unfolding send_where
  length-send_where wants msg [] = refl
  length-send_where wants msg (x ∷ xs) = ap suc (length-send_where wants msg xs)

  -- In a list of streams, one stands at a place.
  abbrev pub At : List (SubscriptionEntry T) → ℕ → SubscriptionEntry T → Type ℓ
  At l n s =
      (before after : List (SubscriptionEntry T)) × (length before ≡ n)
      × (l ≡ before ++ (s ∷ after))

  send_where-At :
      (wants : SubscriptionEntry T → Bool) (msg : T) (l : List (SubscriptionEntry T)) (n : ℕ)
      (s r : SubscriptionEntry T)
      → At l n s
      → (if wants s then try_send s msg else s) ≡ r
      → At (send_where wants msg l) n r
  unfolding send_where
  send_where-At wants msg l n s r (before, after, h, e) p = (
    send_where wants msg before,
    send_where wants msg after,
    length-send_where wants msg before ∙ h,
    ap (send_where wants msg) e
        ∙ send_where-append wants msg before (s ∷ after)
        ∙ ap (λ x. send_where wants msg before ++ (x ∷ send_where wants msg after)) p,
  )

-- A trade of a market that a stream of trades did not ask for leaves the stream as it is; an order
-- is put into the buffer of every stream of orders that is open and has room, whatever the markets
-- that it asked for.
pub order_ignores_markets {ℓ κ} :
    {T : Type ℓ} {O : Type κ} (trades : Feed T) (orders : Feed O) (n k : ℕ)
    (s : SubscriptionEntry T) (r : SubscriptionEntry O) (market : Text) (trade : T) (order : O)
    → At trades.subs n s
    → At orders.subs k r
    → is_empty market ≡ false
    → matches s.markets market ≡ false
    → Ready r
    → At (dispatch_trade false trades market trade).subs n s
      × At (dispatch_order false orders order).subs k (record r { ch = r.ch ++ order ∷ [] })
unfolding dispatch_trade dispatch_order dispatch_where
order_ignores_markets trades orders n k s r market trade order a b m u e = (
  send_where-At _ trade trades.subs n s s a (rw m (rw u refl)),
  send_where-At (λ x. true) order orders.subs k r (record r { ch = r.ch ++ order ∷ [] }) b
      (try_send-Ready r order e),
)
