-- ===== src/Clob/Pagination/Queries.antt =====
-- The list requests of impl_market.go and impl_orders.go, and the URL queries made of them. A value
-- of a query is kept as what it was formatted from.
use polymarket_go_sdk.Base.{Bool, Option, none, some, List, [], ◌∷◌, ◌++◌, is_empty, if◌then◌else◌}
use polymarket_go_sdk.Base.Int.{ℤ, is_nonpos}
use polymarket_go_sdk.Base.Text.{Text, codes}

pub data Value : Type 0 where
  text : Text → Value
  number : ℤ → Value
  flag : Bool → Value

abbrev pub Query : Type 0
Query = List (Text × Value)

-- `if v != "" { q.Set(key, v) }`
abbrev set_text : Text → Text → Query
set_text key v = if is_empty v then [] else (key, text v) ∷ []

-- `if v > 0 { q.Set(key, strconv.Itoa(v)) }`
abbrev set_number : Text → ℤ → Query
set_number key v = if is_nonpos v then [] else (key, number v) ∷ []

-- `if v != nil { q.Set(key, strconv.FormatBool(*v)) }`
abbrev set_flag : Text → Option Bool → Query
set_flag key none = []
set_flag key (some b) = (key, flag b) ∷ []

pub record MarketsRequest : Type 0 where
  pub limit : ℤ
  pub cursor : Text
  pub active : Option Bool
  pub asset_id : Text

pub record OrdersRequest : Type 0 where
  pub id : Text
  pub market : Text
  pub asset_id : Text
  pub limit : ℤ
  pub cursor : Text
  pub next_cursor : Text

pub record TradesRequest : Type 0 where
  pub id : Text
  pub taker : Text
  pub maker : Text
  pub market : Text
  pub asset_id : Text
  pub before : ℤ
  pub after : ℤ
  pub limit : ℤ
  pub cursor : Text
  pub next_cursor : Text

pub record BuilderTradesRequest : Type 0 where
  pub id : Text
  pub maker : Text
  pub market : Text
  pub asset_id : Text
  pub before : ℤ
  pub after : ℤ
  pub limit : ℤ
  pub cursor : Text
  pub next_cursor : Text

-- `nextCursor := req.NextCursor; if nextCursor == "" { nextCursor = req.Cursor }`
abbrev pub either_cursor : Text → Text → Text
either_cursor next_cursor cursor = if is_empty next_cursor then cursor else next_cursor

unfoldable pub markets_query : MarketsRequest → Query
markets_query r =
    set_number (codes "limit") r.limit
    ++ set_text (codes "cursor") r.cursor
    ++ set_flag (codes "active") r.active
    ++ set_text (codes "asset_id") r.asset_id

unfoldable pub orders_query : OrdersRequest → Query
orders_query r =
    set_text (codes "id") r.id
    ++ set_text (codes "market") r.market
    ++ set_text (codes "asset_id") r.asset_id
    ++ set_number (codes "limit") r.limit
    ++ set_text (codes "next_cursor") (either_cursor r.next_cursor r.cursor)

unfoldable pub trades_query : TradesRequest → Query
trades_query r =
    set_text (codes "id") r.id
    ++ set_text (codes "taker") r.taker
    ++ set_text (codes "maker") r.maker
    ++ set_text (codes "market") r.market
    ++ set_text (codes "asset_id") r.asset_id
    ++ set_number (codes "before") r.before
    ++ set_number (codes "after") r.after
    ++ set_number (codes "limit") r.limit
    ++ set_text (codes "next_cursor") (either_cursor r.next_cursor r.cursor)

unfoldable pub builder_trades_query : BuilderTradesRequest → Query
builder_trades_query r =
    set_text (codes "id") r.id
    ++ set_text (codes "maker") r.maker
    ++ set_text (codes "market") r.market
    ++ set_text (codes "asset_id") r.asset_id
    ++ set_number (codes "before") r.before
    ++ set_number (codes "after") r.after
    ++ set_number (codes "limit") r.limit
    ++ set_text (codes "next_cursor") (either_cursor r.next_cursor r.cursor)
