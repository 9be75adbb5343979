-- ===== src/Clob/Orders/Posting/SignedAmounts.antt =====
-- The amounts that are signed of a limit order, as the numbers of its typed data.
use polymarket_go_sdk.Base.{
  ℕ, ◌+◌, ◌*◌, ◌/◌, ◌^◌, ◌≤◌, ◌≡◌, refl, sym, ap, subst, ◌∙◌, Bool, true, false, Option, none, some,
  List, [], ◌∷◌, if◌then◌else◌,
}
use polymarket_go_sdk.Base.Int.{pos, pos_part}
use polymarket_go_sdk.Base.Text.{Text, codes, text_eq}
use polymarket_go_sdk.Base.Result.{ok}
use polymarket_go_sdk.Decimal.{Decimals, decimal_places}
use polymarket_go_sdk.Decimal.Laws.{Laws}
use polymarket_go_sdk.Clob.Orders.{buy, Order, OrderBuilder, Signer, TypedData, Entry, number}
use polymarket_go_sdk.Clob.Orders.Resolve.{resolve_tick_size}
use polymarket_go_sdk.Clob.Orders.Build.{Parser, build_limit, to_fixed_decimal}
use polymarket_go_sdk.Clob.Orders.Build.Accepts.{Accepted, build_limit-Accepted_at}
use polymarket_go_sdk.Clob.Orders.Build.Amounts.{
  value_amount, share_amount, limit_order_amounts, to_fixed-places,
}
use polymarket_go_sdk.Clob.Orders.Payload.{Printer, SignedOrder}
use polymarket_go_sdk.Clob.Orders.Typed.{typed_data_v1, typed_data_v2}
use polymarket_go_sdk.Clob.Orders.Signing.{Signing}
use polymarket_go_sdk.Clob.Orders.Posting.{Exchange, is_v2, contract_of, sign_order_with_context}
use polymarket_go_sdk.Clob.Orders.Posting.Kept.{typed_data_for, sign_order_with_context-outcome}

-- The value of a field of typed data.
unfoldable pub entry_of : Text → List (Text × Entry) → Option Entry
entry_of k [] = none
entry_of k ((j, v) ∷ rest) = if text_eq k j then some v else entry_of k rest

-- The field that is in USDC, and the field that is in shares.
abbrev value_key : Text → Text
value_key side = if text_eq side buy then codes "makerAmount" else codes "takerAmount"

abbrev share_key : Text → Text
share_key side = if text_eq side buy then codes "takerAmount" else codes "makerAmount"

module _ {ℓ κ μ} {D : Type ℓ} (d : Decimals D) (p : Printer D) {E : Type κ} {R : Type μ}
    (c : Signing E) (exchange_at : Text → Exchange E R) where
  maker_entry :
      (v2 : Bool) (contract : Text) (s : Signer E) (o : Order D)
      → entry_of
          (codes "makerAmount")
          ((if v2 then typed_data_v2 d s contract else typed_data_v1 d s contract) o).message
        ≡ some (number (some (d.big_int o.maker_amount)))
  unfolding entry_of typed_data_v1 typed_data_v2 text_eq
  maker_entry true contract s o = refl
  maker_entry false contract s o = refl

  taker_entry :
      (v2 : Bool) (contract : Text) (s : Signer E) (o : Order D)
      → entry_of
          (codes "takerAmount")
          ((if v2 then typed_data_v2 d s contract else typed_data_v1 d s contract) o).message
        ≡ some (number (some (d.big_int o.taker_amount)))
  unfolding entry_of typed_data_v1 typed_data_v2 text_eq
  taker_entry true contract s o = refl
  taker_entry false contract s o = refl

  -- The amount of the order that is behind a field, by which of the two it is.
  keyed :
      (v2 : Bool) (contract : Text) (s : Signer E) (was o : Order D)
      → o.maker_amount ≡ was.maker_amount
      → o.taker_amount ≡ was.taker_amount
      → (b : Bool)
      → entry_of
          (if b then codes "makerAmount" else codes "takerAmount")
          ((if v2 then typed_data_v2 d s contract else typed_data_v1 d s contract) o).message
        ≡ some (number (some (d.big_int (if b then was.maker_amount else was.taker_amount))))
  keyed v2 contract s was o e f true =
      maker_entry v2 contract s o ∙ ap (λ x. some (number (some (d.big_int x)))) e
  keyed v2 contract s was o e f false =
      taker_entry v2 contract s o ∙ ap (λ x. some (number (some (d.big_int x)))) f

  keyed_share :
      (v2 : Bool) (contract : Text) (s : Signer E) (was o : Order D)
      → o.maker_amount ≡ was.maker_amount
      → o.taker_amount ≡ was.taker_amount
      → (b : Bool)
      → entry_of
          (if b then codes "takerAmount" else codes "makerAmount")
          ((if v2 then typed_data_v2 d s contract else typed_data_v1 d s contract) o).message
        ≡ some (number (some (d.big_int (if b then was.taker_amount else was.maker_amount))))
  keyed_share v2 contract s was o e f true = keyed v2 contract s was o e f false
  keyed_share v2 contract s was o e f false = keyed v2 contract s was o e f true

  module _ (laws : Laws d) where
    fixed_int : (x y : D) → x ≡ to_fixed_decimal d y → d.big_int x ≡ laws.units 0 x
    fixed_int x y e =
        laws.big_int-units x
          (subst (λ z. decimal_places d z ≤ 0) (sym e) (to_fixed-places d laws y))

    value_int :
        (b : OrderBuilder D E) (tick : D) (o : Order D)
        → Accepted d b tick o
        → (d.big_int (value_amount o) ≡ laws.units 0 (value_amount o))
          × (d.big_int (share_amount o) ≡ laws.units 0 (share_amount o))
    value_int b tick o a =
        let maker = fixed_int _ _ a.maker_fixed in
        let taker = fixed_int _ _ a.taker_fixed in
        elim (text_eq o.side buy)
          as (λ x.
            (d.big_int (if x then o.maker_amount else o.taker_amount)
              ≡ laws.units 0 (if x then o.maker_amount else o.taker_amount))
            × (d.big_int (if x then o.taker_amount else o.maker_amount)
                ≡ laws.units 0 (if x then o.taker_amount else o.maker_amount))) [
                  | true ↦ (maker, taker)
                  | false ↦ (taker, maker)
                ]

    -- A limit order that is built and signed for either exchange has a signature of typed data in which
    -- the field of the USDC amount is the price times the size in millionths of a USDC, rounded down,
    -- and the field of the shares is the size in millionths of a share, exactly.
    pub signed_limit_amounts :
        (parser : Parser) (b : OrderBuilder D E) (o : Order D) (tick : D) (j k : ℕ) (base : Text)
        (a : SignedOrder D)
        → resolve_tick_size d b.tick_size b.client ≡ ok tick
        → 2 ≤ j
        → j + decimal_places d tick ≡ 6 + k
        → build_limit d parser b ≡ ok o
        → (sign_order_with_context d p c exchange_at base o).1 ≡ ok a
        → (s : Signer E) × (t : TypedData) × (bytes : List ℕ) × (c.signer ≡ some s)
          × (s.sign_typed_data t ≡ ok bytes)
          × (a.signature ≡ c.hex_encode bytes)
          × (entry_of (value_key o.side) t.message
              ≡ some (
                  number (
                    some (
                      pos (
                        pos_part (laws.units j b.size)
                        * pos_part (laws.units (decimal_places d tick) b.price)
                        / 10 ^ k)))))
          × (entry_of (share_key o.side) t.message ≡ some (number (some (laws.units 6 b.size))))
    signed_limit_amounts parser b o tick j k base a known hj e built done =
        let (kept, signed) = sign_order_with_context-outcome d p c exchange_at base o in
        let left = (sign_order_with_context d p c exchange_at base o).0 in
        let (s, key, signer, _, (same, (bytes, f, signature), owner)) = signed a done in
        let accepted = build_limit-Accepted_at d parser b known built in
        let ints = value_int b tick o accepted in
        let amounts = limit_order_amounts d laws parser b o tick j k known hj e built in
        let contract = contract_of (exchange_at base) (is_v2 base) o.token_id in
        let side = text_eq o.side buy in
        (
          s,
          typed_data_for d p c exchange_at base o.token_id s left,
          bytes,
          signer,
          f,
          signature,
          keyed (is_v2 base) contract s o left kept.2 kept.3 side
              ∙ ap (λ z. some (number (some z))) (ints.0 ∙ amounts.0),
          keyed_share (is_v2 base) contract s o left kept.2 kept.3 side
              ∙ ap (λ z. some (number (some z))) (ints.1 ∙ amounts.1),
        )
