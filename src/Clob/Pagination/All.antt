-- ===== src/Clob/Pagination/All.antt =====
-- MarketsAll of impl_market.go and OrdersAll, TradesAll and BuilderTradesAll of impl_orders.go. The
-- HTTP GET of a path with a query, its errors mapped, is a parameter.
use polymarket_go_sdk.Base.{
  ℕ, false, Option, none, some, List, [], ◌∷◌, ◌++◌, ◌≡◌, is_empty, if◌then◌else◌,
}
use mathlib.Core.List.{append_assoc, append-nil}
use polymarket_go_sdk.Base.Int.{pos}
use polymarket_go_sdk.Base.Text.{Text, codes}
use polymarket_go_sdk.Base.Result.{Result}
use polymarket_go_sdk.Clob.Pagination.{initial_cursor, Page, page_loop}
use polymarket_go_sdk.Clob.Pagination.Queries.{
  Query, text, MarketsRequest, OrdersRequest, TradesRequest, BuilderTradesRequest, markets_query,
  orders_query, trades_query, builder_trades_query, either_cursor,
}

-- The zero request that a nil pointer stands for.
abbrev zero_markets : MarketsRequest
zero_markets = record { limit = pos 0; cursor = []; active = none; asset_id = [] }

abbrev pub zero_orders : OrdersRequest
zero_orders = record {
  id = [];
  market = [];
  asset_id = [];
  limit = pos 0;
  cursor = [];
  next_cursor = [];
}

abbrev zero_trades : TradesRequest
zero_trades = record {
  id = [];
  taker = [];
  maker = [];
  market = [];
  asset_id = [];
  before = pos 0;
  after = pos 0;
  limit = pos 0;
  cursor = [];
  next_cursor = [];
}

abbrev zero_builder_trades : BuilderTradesRequest
zero_builder_trades = record {
  id = [];
  maker = [];
  market = [];
  asset_id = [];
  before = pos 0;
  after = pos 0;
  limit = pos 0;
  cursor = [];
  next_cursor = [];
}

abbrev pub or_zero {ℓ} : {A : Type ℓ} → A → Option A → A
or_zero zero none = zero
or_zero zero (some r) = r

-- The cursor that a loop starts from: the request's own, or the initial one.
abbrev start_at : Text → Text
start_at c = if is_empty c then initial_cursor else c

module _ {ℓ κ} {E : Type ℓ} {A : Type κ} (get : Text → Query → Result E (Page A)) where
  unfoldable markets_all : ℕ → Option MarketsRequest → Option (Result E (List A))
  markets_all fuel req =
      let r = or_zero zero_markets req in
      page_loop (λ c. get (codes "/markets") (markets_query (record r { cursor = c }))) fuel
        (start_at r.cursor) []

  unfoldable orders_all : ℕ → Option OrdersRequest → Option (Result E (List A))
  orders_all fuel req =
      let r = or_zero zero_orders req in
      page_loop (λ c. get (codes "/data/orders") (orders_query (record r { next_cursor = c }))) fuel
        (start_at (either_cursor r.next_cursor r.cursor)) []

  unfoldable trades_all : ℕ → Option TradesRequest → Option (Result E (List A))
  trades_all fuel req =
      let r = or_zero zero_trades req in
      page_loop (λ c. get (codes "/data/trades") (trades_query (record r { next_cursor = c }))) fuel
        (start_at (either_cursor r.next_cursor r.cursor)) []

  unfoldable builder_trades_all : ℕ → Option BuilderTradesRequest → Option (Result E (List A))
  builder_trades_all fuel req =
      let r = or_zero zero_builder_trades req in
      page_loop
        (λ c. get (codes "/builder/trades") (builder_trades_query (record r { next_cursor = c })))
        fuel (start_at (either_cursor r.next_cursor r.cursor)) []

-- The query of a page is the filters of the request, the same for every page, and then the cursor of
-- the page: the cursors that the request itself carries have no part in it.
page_query :
    (o : OrdersRequest) (t : TradesRequest) (b : BuilderTradesRequest) (c : Text)
    → is_empty c ≡ false
    → let last : Query = (codes "next_cursor", text c) ∷ [] in
      (orders_query (record o { next_cursor = c })
        ≡ orders_query (record o { cursor = []; next_cursor = [] }) ++ last)
      × (trades_query (record t { next_cursor = c })
          ≡ trades_query (record t { cursor = []; next_cursor = [] }) ++ last)
      × (builder_trades_query (record b { next_cursor = c })
          ≡ builder_trades_query (record b { cursor = []; next_cursor = [] }) ++ last)
unfolding orders_query trades_query builder_trades_query
page_query o t b c h = (
  simp (h, append_assoc, append-nil),
  simp (h, append_assoc, append-nil),
  simp (h, append_assoc, append-nil),
)
