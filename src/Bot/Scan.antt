-- ===== src/Bot/Scan.antt =====
-- engine.go and analyze.go: the opportunities of a scan, and what is computed of a token's book.
-- `sort` is sort.Slice with the score's descending order, of which Scan/Ranked.antt says what is asked.
pub mod Ranked
use polymarket_go_sdk.Base.{
  ℕ, Bool, true, false, ◌||◌, not, ◌&&◌, Option, none, some, List, [], ◌∷◌, ◌++◌, map, is_empty,
  length, take, ltb, if◌then◌else◌,
}
use polymarket_go_sdk.Base.Int.{ℤ, pos, pos_part}
use polymarket_go_sdk.Base.Text.{Text, codes, to_upper}
use polymarket_go_sdk.Base.Result.{Result, ok, err, ◌>>=◌}
use polymarket_go_sdk.Decimal.{Decimals}
use polymarket_go_sdk.Clob.Orders.{PriceLevel, Book}
use polymarket_go_sdk.Bot.{BotConfig, Opportunity}

pub record MarketToken : Type 0 where
  pub token_id : Text
  pub outcome : Text

pub record Market : Type 0 where
  pub id : Text
  pub question : Text
  pub tokens : List MarketToken

pub data AnalyzeError {κ} (E : Type κ) : Type κ where
  no_book : E → AnalyzeError E
  empty_book bad_price bad_size crossed_book : AnalyzeError E

module _ {ℓ κ} {D : Type ℓ} (d : Decimals D) {E : Type κ} where
  -- Of levels that are not empty.
  top_of_book : List PriceLevel → Result (AnalyzeError E) (D × D)
  top_of_book [] = err empty_book
  top_of_book (level ∷ levels) = elim (d.parse level.price) [
    | none ↦ err bad_price
    | some price ↦ elim (d.parse level.size) [
      | none ↦ err bad_size
      | some depth ↦ ok (price, depth)
    ]
  ]

module _ {ℓ} {D : Type ℓ} (d : Decimals D) where
  spread_in_bps : D → D → D
  spread_in_bps spread mid =
      if not (d.is_positive mid) && not (d.is_negative mid)
      then d.from_int (pos 0)
      else d.mul (d.div spread mid) (d.from_int (pos 10000))

  imbalance_of : D → D → D
  imbalance_of bid_depth ask_depth =
      let total = d.add bid_depth ask_depth in
      if d.greater_than total (d.from_int (pos 0))
      then d.div (d.sub bid_depth ask_depth) total
      else d.from_int (pos 0)

  recommended_of : D → Text
  recommended_of imbalance =
      if d.greater_than imbalance (d.from_int (pos 0))
      then codes "BUY"
      else if d.less_than imbalance (d.from_int (pos 0))
      then codes "SELL"
      else codes "HOLD"

  confidence_of : D → D → D
  confidence_of imbalance spread_bps =
      d.mul (d.mul (d.abs imbalance) (d.from_int (pos 10000)))
        (d.div spread_bps (d.from_int (pos 100)))

  -- What is computed of the best levels of a book that is not crossed.
  opportunity_of : Market → MarketToken → D × D → D × D → Opportunity D
  unfolding spread_in_bps imbalance_of recommended_of confidence_of
  opportunity_of m t (bid, bid_depth) (ask, ask_depth) =
      let mid = d.div (d.add bid ask) (d.from_int (pos 2)) in
      let spread = d.sub ask bid in
      let spread_bps = spread_in_bps spread mid in
      let imbalance = imbalance_of bid_depth ask_depth in
      record {
        market_id = m.id;
        question = m.question;
        token_id = t.token_id;
        outcome = t.outcome;
        bid = bid;
        ask = ask;
        mid = mid;
        spread = spread;
        spread_bps = spread_bps;
        bid_depth = bid_depth;
        ask_depth = ask_depth;
        imbalance = imbalance;
        signal_score = confidence_of imbalance spread_bps;
        recommended = to_upper (recommended_of imbalance);
        confidence_bps = confidence_of imbalance spread_bps;
      }

module _ {ℓ κ} {D : Type ℓ} (d : Decimals D) {E : Type κ} where
  analyze_book : Market → MarketToken → Book → Result (AnalyzeError E) (Opportunity D)
  unfolding top_of_book opportunity_of
  analyze_book m t book =
      if is_empty book.bids || is_empty book.asks
      then err empty_book
      else top_of_book d book.bids >>= λ bid. top_of_book d book.asks >>= λ ask.
          if d.at_most ask.0 bid.0 then err crossed_book else ok (opportunity_of d m t bid ask)

  unfoldable pub analyze_token :
      (Text → Result E Book) → Market → MarketToken → Result (AnalyzeError E) (Opportunity D)
  unfolding analyze_book
  analyze_token order_book m t = elim (order_book t.token_id) [
    | err e ↦ err (no_book e)
    | ok book ↦ analyze_book m t book
  ]

module _ {ℓ} {D : Type ℓ} (d : Decimals D) (c : BotConfig D) where
  -- The filters of a scan.
  unfoldable pub passes : Opportunity D → Bool
  passes o =
      not (d.less_than o.spread_bps c.min_spread_bps)
      && not (
          d.less_than o.bid_depth c.min_book_depth_shares
          || d.less_than o.ask_depth c.min_book_depth_shares)
      && not (d.less_than (d.abs o.imbalance) c.min_imbalance)

  -- An opportunity is put at the end of those that are found; a token that is not analyzed is skipped.
  keep_if {κ} :
      {E : Type κ}
      → Result (AnalyzeError E) (Opportunity D)
      → List (Opportunity D)
      → List (Opportunity D)
  unfolding passes
  keep_if (err e) opps = opps
  keep_if (ok o) opps = if passes o then opps ++ o ∷ [] else opps

module _ {ℓ κ} {D : Type ℓ} (d : Decimals D) {E : Type κ} (c : BotConfig D)
    (order_book : Text → Result E Book) where
  scan_tokens : Market → List MarketToken → List (Opportunity D) → List (Opportunity D)
  unfolding keep_if
  scan_tokens m [] opps = opps
  scan_tokens m (t ∷ ts) opps = scan_tokens m ts (keep_if d c (analyze_token d order_book m t) opps)

  unfoldable pub scan_markets : List Market → List (Opportunity D) → List (Opportunity D)
  unfolding scan_tokens
  scan_markets [] opps = opps
  scan_markets (m ∷ ms) opps = scan_markets ms (scan_tokens m m.tokens opps)

  -- `opps[:TopN]`, of a positive TopN.
  top : List (Opportunity D) → List (Opportunity D)
  top opps = if ltb (pos_part c.top_n) (length opps) then take (pos_part c.top_n) opps else opps

  unfoldable pub scan_opportunities :
      (List (Opportunity D) → List (Opportunity D))
      → Result E (List Market)
      → Result E (List (Opportunity D))
  unfolding top
  scan_opportunities sort (err e) = err e
  scan_opportunities sort (ok markets) = ok (top (sort (scan_markets markets [])))
