-- ===== src/Clob/Orders/Posting/Refused.antt =====
-- What the payload of a signed order asks for is what the builder makes: an order that is built is
-- never refused by the client that signs and posts it.
use polymarket_go_sdk.Base.{
  ℕ, ◌≡◌, ◌≢◌, refl, sym, ap, subst, ◌∙◌, inl, inr, Bool, true, false, none, some, List, [], ◌∷◌,
  is_empty, arith, if◌then◌else◌,
}
use polymarket_go_sdk.Base.Int.{ℤ}
use polymarket_go_sdk.Base.Text.{Text}
use polymarket_go_sdk.Base.Result.{Result, ok, err}
use polymarket_go_sdk.Decimal.{Decimals}
use polymarket_go_sdk.Clob.Orders.{
  Order, OrderBuilder, gtc, normalize_order_type, SignableOrder, is_side, Signer, TypedData,
}
use polymarket_go_sdk.Clob.Orders.Build.{Parser, build_signable}
use polymarket_go_sdk.Clob.Orders.Payload.{
  Printer, Payload, SignedOrder, PayloadError, build_order_payload,
}
use polymarket_go_sdk.Clob.Orders.Payload.Composed.{
  fits, salt_fits, post_only_refused, build_order_payload-ok,
}
use polymarket_go_sdk.Clob.Orders.Signing.{SignError, Signing}
use polymarket_go_sdk.Clob.Orders.Signing.Kept.{Kept}
use polymarket_go_sdk.Clob.Orders.Signing.Signed.{SignedAs}
use polymarket_go_sdk.Clob.Orders.Posting.{
  Exchange, OrderOptions, PostError, not_signed, bad_payload, with_options, sign_order_with_context,
  post_order, create_order_once, create_order_from_signable, alt_base,
}
use polymarket_go_sdk.Clob.Orders.Build.Accepts.{build_limit-Accepted}
use polymarket_go_sdk.Clob.Orders.Build.Signable.{build_signable-ok, check_signable-ok}
use polymarket_go_sdk.Clob.Orders.Posting.Kept.{
  typed_data_for, sign_order_with_context-outcome, create_order-cases,
}

-- The salt that a generator returns.
abbrev new_salt_fits {κ} : {E : Type κ} → Result E ℤ → Bool
new_salt_fits (ok z) = fits z
new_salt_fits (err e) = true

-- What a payload asks of an order itself.
abbrev Sound {ℓ} : {D : Type ℓ} → Order D → Type 0
Sound o = (is_side o.side ≡ true) × (salt_fits o.salt ≡ true)

Kept-Sound {ℓ κ} :
    {D : Type ℓ} {E : Type κ} (new_salt : Result E ℤ) (was o : Order D)
    → new_salt_fits new_salt ≡ true
    → Kept new_salt was o
    → Sound was
    → Sound o
Kept-Sound new_salt was o fit (_, _, _, _, side, _, inl salt) h =
    (ap is_side side ∙ h.0, ap salt_fits salt ∙ h.1)
Kept-Sound new_salt was o fit (_, _, _, _, side, _, inr (z, _, e, salt)) h =
    (ap is_side side ∙ h.0, ap salt_fits salt ∙ sym (ap new_salt_fits e) ∙ fit)

-- The order that is built is one that a payload takes.
build_signable-Sound {ℓ κ} :
    {D : Type ℓ} {E : Type κ} (d : Decimals D) (parser : Parser) (b : OrderBuilder D E)
    (so : SignableOrder D)
    → build_signable d parser b ≡ ok so
    → new_salt_fits b.salt ≡ true
    → Sound so.order × (post_only_refused so.post_only so.order_type ≡ false)
build_signable-Sound d parser b so built fit =
    let s = build_signable-ok b d parser so built in
    let (tick, a) = build_limit-Accepted d parser b so.order s.0 in
    (
      (
        ap is_side a.same_side ∙ a.side_known,
        ap salt_fits a.same_salt ∙ sym (ap new_salt_fits a.salt_known) ∙ fit,
      ),
      rw (s.1, s.2) (check_signable-ok b (normalize_order_type b.order_type gtc) tt s.3).2,
    )

module _ {ℓ κ μ} {D : Type ℓ} (d : Decimals D) (p : Printer D) {E : Type κ} {R : Type μ}
    (c : Signing E) (exchange_at : Text → Exchange E R) (salted : new_salt_fits c.salt ≡ true)
    (encoded : (bytes : List ℕ) → is_empty (c.hex_encode bytes) ≡ false)
    (printed : (a : ℕ) → is_empty (p.address_hex a) ≡ false) where
  post_order-ok :
      (base : Text) (s : SignedOrder D) (payload : Payload) (e : PayloadError)
      → build_order_payload p s ≡ ok payload
      → post_order d p c exchange_at base s ≢ err (bad_payload e)
  unfolding post_order
  post_order-ok base s payload e f q = ground arith

  posted :
      (base : Text) (opts : OrderOptions) (e : PayloadError)
      → (r : Result (SignError E) (SignedOrder D))
      → ((a : SignedOrder D)
          → r ≡ ok a
          → (x : Payload) × (build_order_payload p (with_options (some opts) a) ≡ ok x))
      → (elim r as (λ x. Result (PostError E) R) [
        | err x ↦ err (not_signed x)
        | ok a ↦ post_order d p c exchange_at base (with_options (some opts) a)
      ])
        ≢ err (bad_payload e)
  posted base opts e (err x) h = λ q. cc
  posted base opts e (ok a) h = let (payload, f) = h a refl in post_order-ok base _ payload e f

  -- A signed order has the owner that it is signed for.
  owned :
      (key : Text) (s : Signer E)
      → is_empty (if is_empty key then p.address_hex s.address else key) ≡ false
  owned [] s = printed s.address
  owned (k ∷ key) s = refl

  signed_payload :
      (opts : OrderOptions) (a : SignedOrder D) (o : Order D) (t : Signer E → Order D → TypedData)
      → post_only_refused opts.post_only opts.order_type ≡ false
      → Sound o
      → SignedAs p c t a o
      → (x : Payload) × (build_order_payload p (with_options (some opts) a) ≡ ok x)
  unfolding with_options
  signed_payload opts a o t fine h (s, key, _, _, (same, (bytes, _, signature), owner)) =
      build_order_payload-ok p (with_options (some opts) a) (ap is_empty signature ∙ encoded bytes)
        (ap is_empty owner ∙ owned key s) (ap (λ x. is_side x.side) same ∙ h.0)
        (ap (λ x. salt_fits x.salt) same ∙ h.1) fine

  create_order_once-Sound :
      (base : Text) (opts : OrderOptions) (o : Order D) (e : PayloadError)
      → post_only_refused opts.post_only opts.order_type ≡ false
      → Sound o
      → Sound (create_order_once d p c exchange_at base (some opts) o).0
        × ((create_order_once d p c exchange_at base (some opts) o).1 ≢ err (bad_payload e))
  unfolding create_order_once
  create_order_once-Sound base opts o e fine h =
      let (kept, signed) = sign_order_with_context-outcome d p c exchange_at base o in
      let left = (sign_order_with_context d p c exchange_at base o).0 in
      let sound = Kept-Sound c.salt o left salted kept h in
      (
        sound,
        posted base opts e _ (λ a q.
            signed_payload opts a left (typed_data_for d p c exchange_at base o.token_id) fine sound
              (signed a q)),
      )

  -- Whatever the exchange answers, a limit order that is built, and then signed and posted, at one
  -- exchange or at both, is not refused by the payload's checks, if the salts are of at most 53 bits
  -- as the default ones are, and if hexutil.Encode and Address.String return texts that are not empty.
  pub built_order_is_posted :
      (parser : Parser) (b : OrderBuilder D E) (so : SignableOrder D) (text_of : PostError E → Text)
      (base : Text) (e : PayloadError)
      → build_signable d parser b ≡ ok so
      → new_salt_fits b.salt ≡ true
      → create_order_from_signable d p c exchange_at text_of base (some so) ≢ err (bad_payload e)
  unfolding create_order_from_signable
  built_order_is_posted parser b so text_of base e built fit =
      let opts : OrderOptions = record {
        order_type = so.order_type;
        post_only = so.post_only;
        defer_exec = none;
      } in
      let (sound, fine) = build_signable-Sound d parser b so built fit in
      let first = create_order_once-Sound base opts so.order e fine sound in
      elim (create_order-cases d p c exchange_at text_of base (some opts) so.order) [
        | inl q ↦ subst (λ r. r.1 ≢ err (bad_payload e)) (sym q) first.1
        | inr q ↦
            subst (λ r. r.1 ≢ err (bad_payload e)) (sym q)
              (create_order_once-Sound (alt_base base) opts
                (create_order_once d p c exchange_at base (some opts) so.order).0 e fine first.0).1
      ]
