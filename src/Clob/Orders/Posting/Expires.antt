-- ===== src/Clob/Orders/Posting/Expires.antt =====
-- The expiration of an order that is good till a date, at the second version of the exchange.
use polymarket_go_sdk.Base.{
  ◌≡◌, sym, ap, ◌∙◌, Bool, true, false, not, ◌&&◌, Option, none, some, arith,
}
use polymarket_go_sdk.Base.Int.{ℤ, pos, negsuc}
use polymarket_go_sdk.Base.Text.{Text, text_eq, text_eq_complete}
use polymarket_go_sdk.Base.Result.{ok}
use polymarket_go_sdk.Decimal.{Decimals}
use polymarket_go_sdk.Clob.Orders.{
  gtc, gtd, Order, OrderBuilder, SignableOrder, normalize_order_type,
}
use polymarket_go_sdk.Clob.Orders.Build.{
  Parser, build_signable, expiration_of, has_expiration, no_expiration,
}
use polymarket_go_sdk.Clob.Orders.Build.Accepts.{build_limit-Accepted}
use polymarket_go_sdk.Clob.Orders.Build.Signable.{build_signable-ok, check_signable-ok}
use polymarket_go_sdk.Clob.Orders.Payload.{Printer, SignedOrder}
use polymarket_go_sdk.Clob.Orders.Signing.{Signing}
use polymarket_go_sdk.Clob.Orders.Signing.Cleared.{sign_order_v2-Cleared}
use polymarket_go_sdk.Clob.Orders.Posting.{Exchange, is_v2, sign_for, sign_order_with_context}

expiration_of-same {κ} :
    {E : Type κ} (z : Option ℤ) (y : ℤ)
    → expiration_of {E = E} z ≡ ok y
    → (has_expiration (some y) ≡ has_expiration z) × (no_expiration z ≡ not (has_expiration z))
unfolding expiration_of
expiration_of-same none y h = ground arith
expiration_of-same (some (pos n)) y h = ground arith
expiration_of-same (some (negsuc n)) y h = ground arith

agrees :
    (has has_no is_gtd : Bool)
    → has_no ≡ not has
    → (has && not is_gtd) ≡ false
    → (is_gtd && has_no) ≡ false
    → has ≡ is_gtd
agrees has has_no is_gtd e f g = ground arith

-- A signable order has a positive expiration just where its type is GTD.
pub signable-expiration {ℓ κ} :
    {D : Type ℓ} {E : Type κ} (d : Decimals D) (p : Parser) (b : OrderBuilder D E)
    (so : SignableOrder D)
    → build_signable d p b ≡ ok so
    → has_expiration so.order.expiration ≡ text_eq so.order_type gtd
signable-expiration d p b so built =
    let s = build_signable-ok b d p so built in
    let (tick, a) = build_limit-Accepted d p b so.order s.0 in
    let checks = check_signable-ok b (normalize_order_type b.order_type gtc) tt s.3 in
    let same = expiration_of-same b.expiration a.expiration a.expiration_known in
    ap has_expiration a.same_expiration
    ∙ same.0
    ∙ agrees (has_expiration b.expiration) _ _ same.1 checks.0 checks.1
    ∙ sym (ap (λ t. text_eq t gtd) s.1)

module _ {ℓ κ μ} {D : Type ℓ} (d : Decimals D) (p : Printer D) {E : Type κ} {R : Type μ}
    (c : Signing E) (exchange_at : Text → Exchange E R) where
  sign_for-expiration :
      (v2 : Bool) (contract : Text) (o : Order D) (a : SignedOrder D)
      → v2 ≡ true
      → (sign_for d p c exchange_at v2 contract o).1 ≡ ok a
      → a.order.expiration ≡ some (pos 0)
  unfolding sign_for
  sign_for-expiration true contract o a e h = (sign_order_v2-Cleared d p c contract o a h).1
  sign_for-expiration false contract o a e h = cc

  -- The expiration that a GTD order must have is not in what is posted to the second version of the
  -- exchange: a limit order of type GTD that is built has a positive one, and once signed has zero.
  pub gtd_expiration_lost :
      (parser : Parser) (b : OrderBuilder D E) (so : SignableOrder D) (base : Text)
      (a : SignedOrder D)
      → build_signable d parser b ≡ ok so
      → so.order_type ≡ gtd
      → is_v2 base ≡ true
      → (sign_order_with_context d p c exchange_at base so.order).1 ≡ ok a
      → (has_expiration so.order.expiration ≡ true) × (a.order.expiration ≡ some (pos 0))
  unfolding sign_order_with_context
  gtd_expiration_lost parser b so base a built type_gtd v2 signed = (
    signable-expiration d parser b so built ∙ text_eq_complete _ _ type_gtd,
    sign_for-expiration (is_v2 base) _ _ a v2 signed,
  )
