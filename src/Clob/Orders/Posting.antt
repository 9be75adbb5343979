-- ===== src/Clob/Orders/Posting.antt =====
-- impl_orders.go: the orders that a client signs and posts, and the requests to cancel them. What the
-- exchange answers is a parameter, for each base URL.
pub mod Kept
pub mod Refused
pub mod Expires
pub mod SignedAmounts
use polymarket_go_sdk.Base.{
  ℕ, Bool, true, false, ◌&&◌, not, Option, none, some, List, [], ◌∷◌, is_empty, length, ltb,
  if◌then◌else◌,
}
use polymarket_go_sdk.Base.Int.{ℤ, pos, ltb_ℤ}
use polymarket_go_sdk.Base.Text.{Text, codes, contains}
use polymarket_go_sdk.Base.Result.{Result, ok, err}
use polymarket_go_sdk.Decimal.{Decimals}
use polymarket_go_sdk.Clob.Orders.{OrderType, Order, SignableOrder}
use polymarket_go_sdk.Clob.Orders.Resolve.{is_zero}
use polymarket_go_sdk.Clob.Orders.Payload.{
  SignedOrder, PayloadError, Printer, Payload, build_order_payload, build_orders_payload,
}
use polymarket_go_sdk.Clob.Orders.Signing.{SignError, Signing, Step, sign_order_v1, sign_order_v2}

abbrev exchange_v1 : Text
exchange_v1 = codes "0x4bFb41d5B3570DeFd03C39a9A4D8dE6Bd8B8982E"

abbrev neg_risk_exchange_v1 : Text
neg_risk_exchange_v1 = codes "0xC5d563A36AE78145C45a50134d48A1215220f80a"

abbrev exchange_v2 : Text
exchange_v2 = codes "0xE111180000d2663C0091e4f400237545B87B996B"

abbrev neg_risk_exchange_v2 : Text
neg_risk_exchange_v2 = codes "0xe2222d279d744050d28e00520010520000310F59"

abbrev pub url_v1 : Text
url_v1 = codes "https://clob.polymarket.com"

abbrev pub url_v2 : Text
url_v2 = codes "https://clob-v2.polymarket.com"

abbrev pub is_v2 : Text → Bool
is_v2 base = contains base (codes "clob-v2")

abbrev pub alt_base : Text → Text
alt_base base = if is_v2 base then url_v1 else url_v2

pub data PostError {ℓ} (E : Type ℓ) : Type ℓ where
  order_required : PostError E
  not_signed : SignError E → PostError E
  bad_payload : PayloadError → PostError E
  too_many : ℕ → PostError E
  refused : E → PostError E

-- What a client is answered at a base URL, of the order's token.
pub record Exchange {ℓ κ} (E : Type ℓ) (R : Type κ) : Type (ℓ ⊔ κ) where
  pub neg_risk : Result E Bool
  pub base_fee : Result E ℤ
  pub post_order : Payload → Result E R
  pub post_orders : List Payload → Result E R

pub record OrderOptions : Type 0 where
  pub order_type : OrderType
  pub post_only : Option Bool
  pub defer_exec : Option Bool

module _ {ℓ κ} {E : Type ℓ} {R : Type κ} where
  abbrev is_neg_risk : Exchange E R → Bool
  is_neg_risk x = elim x.neg_risk [ ok b ↦ b | err e ↦ false ]

  unfoldable pub contract_of : Exchange E R → Bool → Option ℤ → Text
  contract_of x true none = exchange_v2
  contract_of x true (some token) = if is_neg_risk x then neg_risk_exchange_v2 else exchange_v2
  contract_of x false none = exchange_v1
  contract_of x false (some token) = if is_neg_risk x then neg_risk_exchange_v1 else exchange_v1

with_options {ℓ} : {D : Type ℓ} → Option OrderOptions → SignedOrder D → SignedOrder D
with_options none s = s
with_options (some opts) s = record s {
  order_type = opts.order_type;
  post_only = opts.post_only;
  defer_exec = opts.defer_exec;
}

is_zero_decimal {ℓ} : {D : Type ℓ} → Decimals D → D → Bool
is_zero_decimal d x = not (d.is_positive x) && not (d.is_negative x)

module _ {ℓ κ} {D : Type ℓ} (d : Decimals D) {E : Type κ} where
  new_fee : Result E ℤ → Order D → Order D
  new_fee (err e) o = o
  new_fee (ok fee) o = if ltb_ℤ (pos 0) fee then record o { fee_rate_bps = d.from_int fee } else o

  -- A fee of zero is asked for.
  unfoldable pub ask_fee : Result E ℤ → Order D → Order D
  unfolding is_zero_decimal new_fee
  ask_fee base_fee o = elim o.token_id [
    | none ↦ o
    | some token ↦ if is_zero_decimal d o.fee_rate_bps then new_fee base_fee o else o
  ]

abbrev number_of {ℓ} : {A : Type ℓ} → Option (List A) → ℕ
number_of none = 0
number_of (some xs) = length xs

-- Of an order that is not nil.
module _ {ℓ κ μ} {D : Type ℓ} (d : Decimals D) (p : Printer D) {E : Type κ} {R : Type μ}
    (c : Signing E) (exchange_at : Text → Exchange E R) where
  sign_for : Bool → Text → Step D E (SignedOrder D)
  sign_for true contract = sign_order_v2 d p c contract
  sign_for false contract = sign_order_v1 d p c contract

  unfoldable pub sign_order_with_context : Text → Step D E (SignedOrder D)
  unfolding ask_fee sign_for
  sign_order_with_context base o =
      let x = exchange_at base in
      sign_for (is_v2 base) (contract_of x (is_v2 base) o.token_id) (ask_fee d x.base_fee o)

  unfoldable pub post_order : Text → SignedOrder D → Result (PostError E) R
  post_order base s = elim (build_order_payload p s) [
    | err e ↦ err (bad_payload e)
    | ok payload ↦ elim ((exchange_at base).post_order payload) [
      | ok r ↦ ok r
      | err e ↦ err (refused e)
    ]
  ]

  -- The order as it is left, and the answer.
  unfoldable pub create_order_once :
      Text → Option OrderOptions → Order D → Order D × Result (PostError E) R
  unfolding with_options
  create_order_once base opts o =
      let signed = sign_order_with_context base o in
      (
        signed.0,
        elim (signed.1) [
          | err e ↦ err (not_signed e)
          | ok s ↦ post_order base (with_options opts s)
        ],
      )

  -- One more attempt, at the other exchange, where the error is that of a version mismatch. `text_of`
  -- is the Error method.
  unfoldable pub create_order_with_options :
      (PostError E → Text) → Text → Option OrderOptions → Order D → Order D × Result (PostError E) R
  create_order_with_options text_of base opts o =
      let first = create_order_once base opts o in
      elim (first.1) [
        | ok r ↦ first
        | err e ↦ elim (contains (text_of e) (codes "order_version_mismatch")) [
          | true ↦ create_order_once (alt_base base) opts first.0
          | false ↦ first
        ]
      ]

  unfoldable pub create_order_from_signable :
      (PostError E → Text) → Text → Option (SignableOrder D) → Result (PostError E) R
  create_order_from_signable text_of base none = err order_required
  create_order_from_signable text_of base (some so) =
      (create_order_with_options text_of base
        (some (record { order_type = so.order_type; post_only = so.post_only; defer_exec = none }))
        so.order).1

  unfoldable pub post_orders : Text → Option (List (SignedOrder D)) → Result (PostError E) R
  post_orders base orders =
      if ltb 15 (number_of orders)
      then err (too_many (number_of orders))
      else elim (build_orders_payload p orders) [
        | err e ↦ err (bad_payload e)
        | ok payload ↦ elim ((exchange_at base).post_orders payload) [
          | ok r ↦ ok r
          | err e ↦ err (refused e)
        ]
      ]

-- The bodies of the requests to cancel: none where there is nothing to say.
unfoldable cancel_order_body : Option Text → Option (List (Text × Text))
cancel_order_body none = none
cancel_order_body (some id) = if is_empty id then none else some ((codes "orderId", id) ∷ [])

unfoldable cancel_orders_body {ℓ} :
    {E : Type ℓ} → Option (List Text) → Result (PostError E) (Option (List Text))
cancel_orders_body none = ok none
cancel_orders_body (some ids) =
    if ltb 3000 (length ids)
    then err (too_many (length ids))
    else ok (if is_empty ids then none else some ids)

-- Of a market and an asset.
unfoldable cancel_market_orders_body : Option (Text × Text) → Option (List (Text × Text))
cancel_market_orders_body none = none
cancel_market_orders_body (some (market, asset)) =
    let asset_entry : List (Text × Text) =
      if is_empty asset then [] else (codes "asset_id", asset) ∷ [] in
    let entries = if is_empty market then asset_entry else (codes "market", market) ∷ asset_entry in
    if is_empty entries then none else some entries
