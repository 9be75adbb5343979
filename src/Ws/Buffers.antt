-- ===== src/Ws/Buffers.antt =====
-- pkg/clob/ws/subscription_manager.go: the filters and the buffers of a stream. The lock makes each
-- method atomic. A set of ids is a list, whose order and repetitions nothing reads; a buffered
-- channel is the list of what it holds, oldest first, and an error is the count of its LaggedError.
pub mod Delivers
pub mod Matches
use polymarket_go_sdk.Base.{
  ℕ, Bool, true, false, ◌||◌, List, [], ◌∷◌, ◌++◌, is_empty, length, ltb, leb, ◌==◌, if◌then◌else◌,
}
use polymarket_go_sdk.Base.Text.{Text, text_eq}

abbrev default_stream_buffer : ℕ
default_stream_buffer = 100

abbrev default_err_buffer : ℕ
default_err_buffer = 10

pub record SubscriptionEntry {ℓ} (T : Type ℓ) : Type ℓ where
  pub assets : List Text
  pub markets : List Text
  pub ch : List T
  pub err_ch : List ℕ
  pub closed : Bool

-- The ids that are not empty; nil is the set of none.
unfoldable pub make_id_set : List Text → List Text
make_id_set [] = []
make_id_set (id ∷ ids) = let rest = make_id_set ids in if is_empty id then rest else id ∷ rest

-- Is a key in a set?
unfoldable pub in_set : List Text → Text → Bool
in_set [] id = false
in_set (x ∷ xs) id = text_eq x id || in_set xs id

-- matchesAsset and matchesMarket, of the set that they read.
unfoldable pub matches : List Text → Text → Bool
matches set id = if is_empty set then true else in_set set id

any_in_set : List Text → List Text → Bool
any_in_set set [] = false
any_in_set set (id ∷ ids) = in_set set id || any_in_set set ids

unfoldable pub matches_any_asset : List Text → List Text → Bool
unfolding any_in_set
matches_any_asset set ids = if is_empty set then true else any_in_set set ids

module _ {ℓ} {T : Type ℓ} where
  -- The entry that a subscription of ids makes (subscriptions.go).
  unfoldable pub new_entry : List Text → List Text → SubscriptionEntry T
  unfolding make_id_set
  new_entry assets markets = record {
    assets = make_id_set assets;
    markets = make_id_set markets;
    ch = [];
    err_ch = [];
    closed = false;
  }

  -- notifyLag and notifyLagLocked
  unfoldable pub notify_lag : SubscriptionEntry T → ℕ → SubscriptionEntry T
  notify_lag s count =
      if count == 0 || s.closed
      then s
      else if ltb (length s.err_ch) default_err_buffer
      then record s { err_ch = s.err_ch ++ count ∷ [] }
      else s

  unfoldable pub try_send : SubscriptionEntry T → T → SubscriptionEntry T
  unfolding notify_lag
  try_send s msg =
      if s.closed
      then s
      else if ltb (length s.ch) default_stream_buffer
      then record s { ch = s.ch ++ msg ∷ [] }
      else notify_lag s 1

  -- The entry, and whether this call closed it. What the channels hold can still be received.
  unfoldable pub close : SubscriptionEntry T → SubscriptionEntry T × Bool
  close s = if s.closed then (s, false) else (record s { closed = true }, true)
