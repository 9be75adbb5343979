-- ===== src/Clob/Orders/Build/Signable.antt =====
-- What a signable order says of its type, its expiration and whether it is post-only.
use polymarket_go_sdk.Base.{◌≡◌, sym, ap, ◌∙◌, false, not, ◌&&◌, arith}
use polymarket_go_sdk.Base.Text.{text_eq}
use polymarket_go_sdk.Base.Result.{ok}
use polymarket_go_sdk.Decimal.{Decimals}
use polymarket_go_sdk.Clob.Orders.{
  OrderBuilder, OrderType, SignableOrder, gtc, gtd, is_set, normalize_order_type,
}
use polymarket_go_sdk.Clob.Orders.Build.{
  Parser, has_expiration, no_expiration, check_signable, build_limit, build_signable,
}
use polymarket_go_sdk.Clob.Orders.Build.Accepts.{>>=-eq-ok, >>-eq-ok, ok_injective}

module _ {ℓ κ} {D : Type ℓ} {E : Type κ} (b : OrderBuilder D E) where
  pub check_signable-ok :
      (order_type : OrderType) (u : Unit {0})
      → check_signable b order_type ≡ ok u
      → ((has_expiration b.expiration && not (text_eq order_type gtd)) ≡ false)
        × ((text_eq order_type gtd && no_expiration b.expiration) ≡ false)
        × ((is_set b.post_only && not (text_eq order_type gtc) && not (text_eq order_type gtd))
            ≡ false)
  unfolding check_signable
  check_signable-ok order_type u h = ground arith

  pub build_signable-ok :
      (d : Decimals D) (p : Parser) (so : SignableOrder D)
      → build_signable d p b ≡ ok so
      → (build_limit d p b ≡ ok so.order)
        × (so.order_type ≡ normalize_order_type b.order_type gtc)
        × (so.post_only ≡ b.post_only)
        × (check_signable b (normalize_order_type b.order_type gtc) ≡ ok tt)
  unfolding build_signable
  build_signable-ok d p so h =
      let order_type = normalize_order_type b.order_type gtc in
      let (o, e, h) = >>=-eq-ok (build_limit d p b) _ h in
      let (u, f, g) = >>-eq-ok (check_signable b order_type) _ h in
      let same = sym (ok_injective g) in
      (
        e ∙ ap ok (sym (ap (λ x. x.order) same)),
        ap (λ x. x.order_type) same,
        ap (λ x. x.post_only) same,
        f,
      )
