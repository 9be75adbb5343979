-- ===== src/Ws/Requests.antt =====
-- SubscriptionRequest of types.go and its constructors.
use polymarket_go_sdk.Base.{Bool, true, Option, none, some, List, []}
use polymarket_go_sdk.Base.Text.{Text}

-- The string types of types.go, with the empty string and any other text.
pub data Channel : Type 0 where
  no_channel market user subscribe_channel other_channel : Channel

pub data Operation : Type 0 where
  no_operation subscribe unsubscribe other_operation : Operation

pub record AuthPayload : Type 0 where
  pub api_key : Text
  pub secret : Text
  pub passphrase : Text

pub record SubscriptionRequest : Type 0 where
  pub type : Channel
  pub operation : Operation
  pub markets : List Text
  pub asset_ids : List Text
  pub initial_dump : Option Bool
  pub custom_feature_enabled : Option Bool
  pub auth : Option AuthPayload

unfoldable pub new_market_subscription : List Text → SubscriptionRequest
new_market_subscription ids = record {
  type = market;
  operation = subscribe;
  markets = [];
  asset_ids = ids;
  initial_dump = some true;
  custom_feature_enabled = none;
  auth = none;
}

unfoldable pub new_market_unsubscribe : List Text → SubscriptionRequest
new_market_unsubscribe ids = record {
  type = market;
  operation = unsubscribe;
  markets = [];
  asset_ids = ids;
  initial_dump = none;
  custom_feature_enabled = none;
  auth = none;
}

unfoldable pub new_user_subscription : List Text → SubscriptionRequest
new_user_subscription ids = record {
  type = subscribe_channel;
  operation = subscribe;
  markets = ids;
  asset_ids = [];
  initial_dump = some true;
  custom_feature_enabled = none;
  auth = none;
}

unfoldable pub new_user_unsubscribe : List Text → SubscriptionRequest
new_user_unsubscribe ids = record {
  type = user;
  operation = unsubscribe;
  markets = ids;
  asset_ids = [];
  initial_dump = none;
  custom_feature_enabled = none;
  auth = none;
}

unfoldable pub with_custom_features : SubscriptionRequest → Bool → SubscriptionRequest
with_custom_features r enabled = record r { custom_feature_enabled = some enabled }
