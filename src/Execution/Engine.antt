-- ===== src/Execution/Engine.antt =====
-- pkg/execution/clob_engine.go and attribution.go. The CLOB client is a parameter: it answers with
-- a value or an error. An operation returns the requests that it makes of the client too.
pub mod Attributed
use polymarket_go_sdk.Base.{
  ℕ, Bool, true, false, Option, none, some, List, [], ◌∷◌, is_empty, if◌then◌else◌,
}
use polymarket_go_sdk.Base.Int.{ℤ, pos, is_nonpos}
use polymarket_go_sdk.Base.Text.{Text, codes, trim_space, to_lower}
use polymarket_go_sdk.Base.Result.{Result, ok, err}
use polymarket_go_sdk.Clob.Pagination.Queries.{OrdersRequest}
use polymarket_go_sdk.Clob.Pagination.All.{zero_orders}

pub record Attribution : Type 0 where
  pub builder : Text
  pub funder : Text
  pub source : Text

unfoldable pub normalize_attribution : Attribution → Attribution
normalize_attribution a = record {
  builder = to_lower (trim_space a.builder);
  funder = to_lower (trim_space a.funder);
  source = to_lower (trim_space a.source);
}

abbrev put_unless_empty : Text → Text → List (Text × Text) → List (Text × Text)
put_unless_empty name value out = if is_empty value then out else (name, value) ∷ out

-- The entries of the map, whose keys differ.
unfoldable pub header_map : Attribution → List (Text × Text)
header_map a =
    let n = normalize_attribution a in
    put_unless_empty (codes "X-Attribution-Builder") n.builder (
      put_unless_empty (codes "X-Attribution-Funder") n.funder
        (put_unless_empty (codes "X-Attribution-Source") n.source []))

-- A response with the attribution that it carries on.
pub record Response {ℓ} (A : Type ℓ) : Type ℓ where
  pub value : A
  pub attribution : Attribution

pub record OrdersResponse {ℓ} (R : Type ℓ) : Type ℓ where
  pub orders : List R
  pub next_cursor : Text
  pub limit : ℤ
  pub count : ℤ

pub record Replayed {ℓ} (R : Type ℓ) : Type ℓ where
  pub orders : List R
  pub next_cursor : Text
  pub count : ℤ
  pub limit : ℤ

pub data Call {ℓ} (O : Type ℓ) : Type ℓ where
  create_order : O → Call O
  cancel_order order : Text → Call O
  orders : OrdersRequest → Call O

pub data EngineError {ℓ} (E : Type ℓ) : Type ℓ where
  order_required order_id_required : EngineError E
  client_error : E → EngineError E

pub record ExecutionClient {ℓ κ μ} (O : Type ℓ) (R : Type κ) (E : Type μ) : Type (ℓ ⊔ κ ⊔ μ) where
  pub create_order : O → Result E R
  pub cancel_order : Text → Result E Text
  pub order : Text → Result E R
  pub orders : OrdersRequest → Result E (OrdersResponse R)

-- What the client answers, with the attribution of the request.
respond {ℓ κ} :
    {A : Type ℓ} {E : Type κ} → Attribution → Result E A → Result (EngineError E) (Response A)
respond a (err e) = err (client_error e)
respond a (ok x) = ok (record { value = x; attribution = normalize_attribution a })

abbrev default_replay_limit : ℤ
default_replay_limit = pos 100

module _ {ℓ κ μ} {O : Type ℓ} {R : Type κ} {E : Type μ} (c : ExecutionClient O R E) where
  unfoldable pub place :
      Option O → Attribution → List (Call O) × Result (EngineError E) (Response R)
  unfolding respond
  place none a = ([], err order_required)
  place (some o) a = (create_order o ∷ [], respond a (c.create_order o))

  unfoldable pub cancel :
      Text → Attribution → List (Call O) × Result (EngineError E) (Response Text)
  unfolding respond
  cancel order_id a =
      let id = trim_space order_id in
      if is_empty id
      then ([], err order_id_required)
      else (cancel_order id ∷ [], respond a (c.cancel_order id))

  unfoldable pub query : Text → Attribution → List (Call O) × Result (EngineError E) (Response R)
  unfolding respond
  query order_id a =
      let id = trim_space order_id in
      if is_empty id then ([], err order_id_required) else (order id ∷ [], respond a (c.order id))

  replay_request : Text → Text → ℤ → OrdersRequest
  replay_request market cursor limit = record zero_orders {
    market = trim_space market;
    cursor = trim_space cursor;
    limit = if is_nonpos limit then default_replay_limit else limit;
  }

  replayed : OrdersRequest → Result E (OrdersResponse R) → Result E (Replayed R)
  replayed req (err e) = err e
  replayed req (ok r) = ok (record {
    orders = r.orders;
    next_cursor = r.next_cursor;
    count = r.count;
    limit = req.limit;
  })

  unfoldable pub replay :
      Text → Text → ℤ → Attribution → List (Call O) × Result (EngineError E) (Response (Replayed R))
  unfolding respond replay_request replayed
  replay market cursor limit a =
      let req = replay_request market cursor limit in
      (orders req ∷ [], respond a (replayed req (c.orders req)))
