-- ===== src/Clob/Orders/Payload/Composed.antt =====
-- When a payload is built of a signed order: the side, the salt, the owner, the signature and the
-- order type are what the builder makes them.
use polymarket_go_sdk.Base.{
  ℕ, ◌≡◌, refl, sym, subst, inl, inr, Bool, true, false, ◌&&◌, not, Option, none, some, is_empty,
  ltb, ◌^◌, arith, Bool-cases,
}
use polymarket_go_sdk.Base.Int.{ℤ, pos, negsuc}
use polymarket_go_sdk.Base.Text.{Text, is_space, to_upper, text_eq, text_eq_sound, trim_space}
use polymarket_go_sdk.Base.Result.{ok}
use polymarket_go_sdk.Clob.Orders.{
  buy, sell, gtc, gtd, OrderType, is_side, is_set, normalize_order_type,
}
use polymarket_go_sdk.Clob.Orders.Payload.{
  SignedOrder, Printer, Payload, salt_to_json, order_with_signature, build_order_payload,
}

-- A salt of at most 53 bits, which a float64 holds exactly.
abbrev pub fits : ℤ → Bool
fits (pos n) = ltb n (2 ^ 53)
fits (negsuc n) = false

abbrev pub salt_fits : Option ℤ → Bool
salt_fits none = true
salt_fits (some z) = fits z

salt_to_json-ok : (z : Option ℤ) → salt_fits z ≡ true → (n : ℕ) × (salt_to_json z ≡ ok n)
unfolding salt_to_json
salt_to_json-ok none h = (0, refl)
salt_to_json-ok (some (pos n)) h = (n, ground arith)
salt_to_json-ok (some (negsuc n)) h = cc

-- A side that is BUY or SELL is so in upper case.
is_side-to_upper : (side : Text) → is_side side ≡ true → is_side (to_upper side) ≡ true
unfolding is_side to_upper text_eq
is_side-to_upper side h = elim (Bool-cases (text_eq side buy)) [
  | inl e ↦ subst (λ s. is_side (to_upper s) ≡ true) (sym (text_eq_sound side buy e)) refl
  | inr e ↦
      subst (λ s. is_side (to_upper s) ≡ true) (sym (text_eq_sound side sell (ground arith))) refl
]

-- Only GTC and GTD orders are post-only.
abbrev pub post_only_refused : Option Bool → OrderType → Bool
post_only_refused post_only order_type =
    is_set post_only && not (text_eq order_type gtc) && not (text_eq order_type gtd)

post_only-normalized :
    (post_only : Option Bool) (order_type : OrderType)
    → post_only_refused post_only order_type ≡ false
    → post_only_refused post_only (normalize_order_type order_type gtc) ≡ false
unfolding normalize_order_type trim_space to_upper text_eq is_space
post_only-normalized none order_type h = refl
post_only-normalized (some false) order_type h = refl
post_only-normalized (some true) order_type h = elim (Bool-cases (text_eq order_type gtc)) [
  | inl e ↦
      subst (λ t. post_only_refused (some true) (normalize_order_type t gtc) ≡ false)
        (sym (text_eq_sound order_type gtc e)) refl
  | inr e ↦
      subst (λ t. post_only_refused (some true) (normalize_order_type t gtc) ≡ false)
        (sym (text_eq_sound order_type gtd (ground arith))) refl
]

module _ {ℓ} {D : Type ℓ} (p : Printer D) where
  -- The payload of a signed order is refused for nothing else than these.
  pub build_order_payload-ok :
      (s : SignedOrder D)
      → is_empty s.signature ≡ false
      → is_empty s.owner ≡ false
      → is_side s.order.side ≡ true
      → salt_fits s.order.salt ≡ true
      → post_only_refused s.post_only s.order_type ≡ false
      → (payload : Payload) × (build_order_payload p s ≡ ok payload)
  unfolding build_order_payload order_with_signature
  build_order_payload-ok s signed owned sided salted fine =
      let (salt, e) = salt_to_json-ok s.order.salt salted in
      rw
        (
          post_only-normalized s.post_only s.order_type fine,
          signed,
          owned,
          is_side-to_upper s.order.side sided,
          e,
        )
        (_, refl)
