-- ===== src/Clob/Orders/Resolve/Cutoff.antt =====
-- The price of a market order: that of the first level, from the best, at which the levels up to it
-- amount to the order.
use polymarket_go_sdk.Base.{
  ◌≡◌, refl, sym, ap, subst, ◌⊎◌, inl, inr, Bool, true, false, Option, none, some, List, [], ◌∷◌,
  ◌++◌, arith,
}
use mathlib.Core.List.{foldl, foldl-append, append_assoc, append-nil, reverse}
use polymarket_go_sdk.Base.Int.{pos}
use polymarket_go_sdk.Base.Result.{Result, ok, err, ◌>>=◌}
use polymarket_go_sdk.Decimal.{Decimals}
use polymarket_go_sdk.Clob.Orders.{BuildError, bad_level, OrderType, fok, MarketAmount, PriceLevel}
use polymarket_go_sdk.Clob.Orders.Resolve.{
  level_amount, parse_level, cutoff, price_of_cutoff, price_in,
}
use polymarket_go_sdk.Base.Text.{text_eq}
use polymarket_go_sdk.Clob.Orders.Build.Accepts.{ok_injective}

module _ {ℓ} {D : Type ℓ} (d : Decimals D) (amount : MarketAmount D) where
  -- What levels amount to together, in USDC or in shares.
  abbrev pub total : List (D × D) → D
  total ps = foldl (λ sum l. d.add sum (level_amount d amount.kind l)) (d.from_int (pos 0)) ps

  -- Does each sum of `done` and some first levels of the list stay below the amount?
  abbrev pub AllBelow : List (D × D) → List (D × D) → Type 0
  AllBelow done [] = Unit
  AllBelow done (l ∷ ls) =
      (d.less_than (total (done ++ l ∷ [])) amount.amount ≡ true) × AllBelow (done ++ l ∷ []) ls

  -- The first level, if there is one, at which the sum is not below the amount.
  abbrev Reached {κ} :
      {E : Type κ} → List (D × D) → List (D × D) → Result (BuildError E) (Option D) → Type (ℓ ⊔ κ)
  Reached done ps r =
      ((r ≡ ok none) × AllBelow done ps)
      ⊎ ((before : List (D × D)) × (l : D × D) × (after : List (D × D)) × (ps ≡ before ++ l ∷ after)
          × (r ≡ ok (some l.0))
          × AllBelow done before
          × (d.less_than (total ((done ++ before) ++ l ∷ [])) amount.amount ≡ false))

  total-snoc :
      (done : List (D × D)) (l : D × D)
      → total (done ++ l ∷ []) ≡ d.add (total done) (level_amount d amount.kind l)
  total-snoc done l =
      foldl-append (λ sum l. d.add sum (level_amount d amount.kind l)) _ done (l ∷ [])

  snoc-append :
      (done before : List (D × D)) (p l : D × D)
      → d.less_than (total (((done ++ p ∷ []) ++ before) ++ l ∷ [])) amount.amount ≡ false
      → d.less_than (total ((done ++ p ∷ before) ++ l ∷ [])) amount.amount ≡ false
  snoc-append done before p l =
      subst (λ ps. d.less_than (total (ps ++ l ∷ [])) amount.amount ≡ false)
        (append_assoc done (p ∷ []) before)

  -- A price at which the book, from its best level on, amounts to the order.
  abbrev pub ReachedAt : List (D × D) → D → Type ℓ
  ReachedAt ps price =
      (before : List (D × D)) × (l : D × D) × (after : List (D × D)) × (ps ≡ before ++ l ∷ after)
      × (price ≡ l.0)
      × AllBelow [] before
      × (d.less_than (total (before ++ l ∷ [])) amount.amount ≡ false)

-- Levels, and the prices and the sizes that they parse to.
pub data Parsed {ℓ} {D : Type ℓ} (d : Decimals D) : List PriceLevel → List (D × D) → Type ℓ where
  parsed_none : Parsed d [] []
  parsed_one :
      {l : PriceLevel} {price size : D} {ls : List PriceLevel} {ps : List (D × D)}
      → d.parse l.price ≡ some price
      → d.parse l.size ≡ some size
      → Parsed d ls ps
      → Parsed d (l ∷ ls) ((price, size) ∷ ps)

module _ {ℓ κ} {D : Type ℓ} (d : Decimals D) {E : Type κ} (amount : MarketAmount D) where
  cutoff_step :
      (done : List (D × D)) (p : D × D) (ps : List (D × D))
      (rest : Result (BuildError E) (Option D))
      → (b : Bool) → d.less_than (total d amount (done ++ p ∷ [])) amount.amount ≡ b
      → Reached d amount (done ++ p ∷ []) ps rest
      → Reached d amount done (p ∷ ps) (elim b as (λ x. Result (BuildError E) (Option D)) [
        | true ↦ rest
        | false ↦ ok (some p.0)
      ])
  cutoff_step done p ps rest true less (inl (r, all)) = inl (r, (less, all))
  cutoff_step done p ps rest true less (inr (before, l, after, e, r, all, reached)) = inr (
    p ∷ before,
    l,
    after,
    ap (λ x. p ∷ x) e,
    r,
    (less, all),
    snoc-append d amount done before p l reached,
  )
  cutoff_step done p ps rest false less h = inr (
    [],
    p,
    ps,
    refl,
    refl,
    tt,
    subst (λ x. d.less_than (total d amount (x ++ p ∷ [])) amount.amount ≡ false)
        (sym (append-nil done)) less,
  )

  cutoff_none :
      (done : List (D × D))
      → Reached d amount {E = E} done [] (cutoff d amount (total d amount done) [])
  unfolding cutoff
  cutoff_none done = inl (refl, tt)

  cutoff-cons :
      (sum : D) (l : PriceLevel) (ls : List PriceLevel) (price size : D)
      → d.parse l.price ≡ some price
      → d.parse l.size ≡ some size
      → cutoff d {E = E} amount sum (l ∷ ls)
        ≡ (elim (d.less_than (d.add sum (level_amount d amount.kind (price, size))) amount.amount)
            as (λ x. Result (BuildError E) (Option D)) [
              | true ↦ cutoff d amount (d.add sum (level_amount d amount.kind (price, size))) ls
              | false ↦ ok (some price)
            ])
  unfolding cutoff parse_level
  cutoff-cons sum l ls price size e f = ground arith

  -- The loop over levels that parse, from the sum of those before them.
  cutoff-Reached :
      (done : List (D × D)) {levels : List PriceLevel} {ps : List (D × D)}
      → Parsed d levels ps
      → Reached d amount {E = E} done ps (cutoff d amount (total d amount done) levels)
  cutoff-Reached done parsed_none = cutoff_none done
  cutoff-Reached done (parsed_one {l} {price} {size} {ls} {ps} e f h) =
      let rest = cutoff-Reached (done ++ (price, size) ∷ []) h in
      let sum = d.add (total d amount done) (level_amount d amount.kind (price, size)) in
      let same = total-snoc d amount done (price, size) in
      subst (Reached d amount done ((price, size) ∷ ps)) (sym (cutoff-cons _ l ls price size e f)) (
        cutoff_step done (price, size) ps (cutoff d amount sum ls) (d.less_than sum amount.amount)
          (ap (λ x. d.less_than x amount.amount) same)
          (subst
            (λ x. Reached d amount {E = E} (done ++ (price, size) ∷ []) ps (cutoff d amount x ls))
            same rest))

  price_of_none :
      (order_type : OrderType) (first price : D)
      → price_of_cutoff d {E = E} order_type first none ≡ ok price
      → (price ≡ first) × (text_eq order_type fok ≡ false)
  unfolding price_of_cutoff
  price_of_none order_type first price h = ground arith

  price_of_Reached :
      (order_type : OrderType) (first price : D) (ps : List (D × D))
      (r : Result (BuildError E) (Option D))
      → Reached d amount [] ps r
      → (r >>= price_of_cutoff d order_type first) ≡ ok price
      → ReachedAt d amount ps price
        ⊎ (AllBelow d amount [] ps × (price ≡ first) × (text_eq order_type fok ≡ false))
  unfolding price_of_cutoff
  price_of_Reached order_type first price ps r (inl (e, all)) h =
      let none_h = subst (λ x. (x >>= price_of_cutoff d order_type first) ≡ ok price) e h in
      let (at, fine) = price_of_none order_type first price none_h in inr (all, at, fine)
  price_of_Reached order_type first price ps r (inr (before, l, after, e, f, all, reached)) h =
      let some_h = subst (λ x. (x >>= price_of_cutoff d order_type first) ≡ ok price) f h in
      inl (before, l, after, e, sym (ok_injective some_h), all, reached)

  price_of_first :
      (order_type : OrderType) (price : D) (ps : List (D × D))
      (r : Result (BuildError E) (Option D))
      → Reached d amount [] ps r
      → (first : Option D)
      → (elim first as (λ x. Result (BuildError E) D) [
        | none ↦ err bad_level
        | some x ↦ r >>= price_of_cutoff d order_type x
      ])
        ≡ ok price
      → ReachedAt d amount ps price
        ⊎ (AllBelow d amount [] ps × (first ≡ some price) × (text_eq order_type fok ≡ false))
  price_of_first order_type price ps r reached none h = cc
  price_of_first order_type price ps r reached (some x) h =
      elim (price_of_Reached order_type x price ps r reached h) [
        | inl at ↦ inl at
        | inr (all, at, fine) ↦ inr (all, ap some (sym at), fine)
      ]

  -- The price of a market order, of a book whose levels parse: that of the first level, from the last
  -- of the list on, at which the levels up to it amount to the order. If the book does not amount to
  -- it, the order is not FOK, and the price is that of the first level of the list, the worst.
  pub price_in-reached :
      (order_type : OrderType) (l : PriceLevel) (ls : List PriceLevel) (ps : List (D × D))
      (price : D)
      → Parsed d (reverse (l ∷ ls)) ps
      → price_in d {E = E} order_type amount (l ∷ ls) ≡ ok price
      → ReachedAt d amount ps price
        ⊎ (AllBelow d amount [] ps
            × (d.parse l.price ≡ some price)
            × (text_eq order_type fok ≡ false))
  unfolding price_in
  price_in-reached order_type l ls ps price parsed h =
      price_of_first order_type price ps _ (cutoff-Reached [] parsed) (d.parse l.price) h
