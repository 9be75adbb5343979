-- ===== src/Clob/Pagination/Collect.antt =====
-- The loops that collect every page, against the walk over the pages that they stand for.
use polymarket_go_sdk.Base.{
  ℕ, zero, suc, ◌≤◌, ◌<◌, ◌≡◌, refl, ◌∙◌, sym, ap, subst, inl, inr, true, false, none, some, List,
  [], ◌++◌, arith, Bool-cases, ◌↔◌,
}
use mathlib.Core.List.{append_assoc, append-nil}
use polymarket_go_sdk.Base.Text.{Text, text_eq}
use polymarket_go_sdk.Base.Result.{Result, ok, err, Result-cases}
use polymarket_go_sdk.Clob.Pagination.{end_cursor, Page, is_last, page_loop}

abbrev pub prepend {ℓ κ} :
    {E : Type ℓ} {A : Type κ} → List A → Result E (List A) → Result E (List A)
prepend xs (ok ys) = ok (xs ++ ys)
prepend xs (err e) = err e

prepend_nil {ℓ κ} : {E : Type ℓ} {A : Type κ} (r : Result E (List A)) → prepend [] r ≡ r
prepend_nil (ok ys) = refl
prepend_nil (err e) = refl

prepend-append {ℓ κ} :
    {E : Type ℓ} {A : Type κ} (xs ys : List A) (r : Result E (List A))
    → prepend (xs ++ ys) r ≡ prepend xs (prepend ys r)
prepend-append xs ys (ok zs) = rw append_assoc
prepend-append xs ys (err e) = refl

module _ {ℓ κ} {E : Type ℓ} {A : Type κ} (fetch : Text → Result E (Page A)) where
  -- The walk from a cursor: the pages that the server links from there, up to the end cursor, an
  -- empty or repeated next cursor, or an error; with the number of fetches and the items in order.
  pub data Walk : ℕ → Text → Result E (List A) → Type (ℓ ⊔ κ) where
    at_end : (cursor : Text) → text_eq cursor end_cursor ≡ true → Walk 0 cursor (ok [])
    fails :
        (cursor : Text) (e : E)
        → text_eq cursor end_cursor ≡ false
        → fetch cursor ≡ err e
        → Walk 1 cursor (err e)
    last_page :
        (cursor : Text) (page : Page A)
        → text_eq cursor end_cursor ≡ false
        → fetch cursor ≡ ok page
        → is_last page.next_cursor cursor ≡ true
        → Walk 1 cursor (ok page.items)
    next_page :
        {n : ℕ} (cursor : Text) (page : Page A) {r : Result E (List A)}
        → text_eq cursor end_cursor ≡ false
        → fetch cursor ≡ ok page
        → is_last page.next_cursor cursor ≡ false
        → Walk n page.next_cursor r
        → Walk (suc n) cursor (prepend page.items r)

  loop_end :
      (n : ℕ) (c : Text) (acc : List A)
      → text_eq c end_cursor ≡ true
      → page_loop fetch n c acc ≡ some (ok acc)
  unfolding page_loop
  loop_end zero c acc h = rw (h, page_loop)
  loop_end (suc n) c acc h = rw (h, page_loop)

  loop_err :
      (n : ℕ) (c : Text) (acc : List A) (e : E)
      → text_eq c end_cursor ≡ false
      → fetch c ≡ err e
      → page_loop fetch (suc n) c acc ≡ some (err e)
  unfolding page_loop
  loop_err n c acc e h f = rw (h, f, page_loop)

  loop_last :
      (n : ℕ) (c : Text) (acc : List A) (p : Page A)
      → text_eq c end_cursor ≡ false
      → fetch c ≡ ok p
      → is_last p.next_cursor c ≡ true
      → page_loop fetch (suc n) c acc ≡ some (ok (acc ++ p.items))
  unfolding page_loop
  loop_last n c acc p h f l = rw (h, f, page_loop) (rw l)

  loop_next :
      (n : ℕ) (c : Text) (acc : List A) (p : Page A)
      → text_eq c end_cursor ≡ false
      → fetch c ≡ ok p
      → is_last p.next_cursor c ≡ false
      → page_loop fetch (suc n) c acc ≡ page_loop fetch n p.next_cursor (acc ++ p.items)
  unfolding page_loop
  loop_next n c acc p h f l = rw (h, f, page_loop) (rw l)

  loop_dry :
      (c : Text) (acc : List A) → text_eq c end_cursor ≡ false → page_loop fetch zero c acc ≡ none
  unfolding page_loop
  loop_dry c acc h = rw (h, page_loop)

  -- With a fetch of fuel for each page of the walk, the loop returns what the walk collects.
  Walk-page_loop :
      {k : ℕ} {cursor : Text} {r : Result E (List A)}
      → Walk k cursor r
      → (n : ℕ) (acc : List A) → k ≤ n
      → page_loop fetch n cursor acc ≡ some (prepend acc r)
  Walk-page_loop (at_end c h) n acc le =
      loop_end n c acc h ∙ ap (λ xs. some (ok xs)) (sym (append-nil acc))
  Walk-page_loop (fails c e h f) zero acc le = absurd (omega arith)
  Walk-page_loop (fails c e h f) (suc n) acc le = loop_err n c acc e h f
  Walk-page_loop (last_page c p h f l) zero acc le = absurd (omega arith)
  Walk-page_loop (last_page c p h f l) (suc n) acc le = loop_last n c acc p h f l
  Walk-page_loop (next_page c p h f l w) zero acc le = absurd (omega arith)
  Walk-page_loop (next_page c p {r = r} h f l w) (suc n) acc le =
      loop_next n c acc p h f l
      ∙ Walk-page_loop w n (acc ++ p.items) (omega arith)
      ∙ ap some (prepend-append acc p.items r)

  abbrev Collects : ℕ → Text → List A → Result E (List A) → Type (ℓ ⊔ κ)
  Collects n cursor acc r =
      (k : ℕ) × (s : Result E (List A)) × (k ≤ n) × Walk k cursor s × (prepend acc s ≡ r)

  ended :
      (n : ℕ) (cursor : Text) (acc : List A) (r : Result E (List A))
      → page_loop fetch n cursor acc ≡ some r
      → text_eq cursor end_cursor ≡ true
      → Collects n cursor acc r
  ended n cursor acc r e h = (
    0,
    ok [],
    omega arith,
    at_end cursor h,
    ap (λ xs. ok xs) (append-nil acc) ∙ cc (loop_end n cursor acc h),
  )

  continued :
      (n : ℕ) (cursor : Text) (acc : List A) (r : Result E (List A)) (p : Page A)
      → text_eq cursor end_cursor ≡ false
      → fetch cursor ≡ ok p
      → is_last p.next_cursor cursor ≡ false
      → Collects n p.next_cursor (acc ++ p.items) r
      → Collects (suc n) cursor acc r
  continued n cursor acc r p h f l (k, s, le, w, e) = (
    suc k,
    prepend p.items s,
    omega arith,
    next_page cursor p h f l w,
    sym (prepend-append acc p.items s) ∙ e,
  )

  fetched :
      (n : ℕ) (cursor : Text) (acc : List A) (r : Result E (List A))
      → ((c : Text) (xs : List A) → page_loop fetch n c xs ≡ some r → Collects n c xs r)
      → page_loop fetch (suc n) cursor acc ≡ some r
      → text_eq cursor end_cursor ≡ false
      → Collects (suc n) cursor acc r
  fetched n cursor acc r ih e h = elim (Result-cases (fetch cursor)) [
    | inr (x, f) ↦ (1, err x, omega arith, fails cursor x h f, cc (loop_err n cursor acc x h f))
    | inl (p, f) ↦ elim (Bool-cases (is_last p.next_cursor cursor)) [
      | inl l ↦ (
        1,
        ok p.items,
        omega arith,
        last_page cursor p h f l,
        cc (loop_last n cursor acc p h f l),
      )
      | inr l ↦
          continued n cursor acc r p h f l
            (ih p.next_cursor (acc ++ p.items) (sym (loop_next n cursor acc p h f l) ∙ e))
    ]
  ]

  page_loop-Walk :
      (n : ℕ) (cursor : Text) (acc : List A) (r : Result E (List A))
      → page_loop fetch n cursor acc ≡ some r
      → Collects n cursor acc r
  page_loop-Walk zero cursor acc r e = elim (Bool-cases (text_eq cursor end_cursor)) [
    | inl h ↦ ended zero cursor acc r e h
    | inr h ↦ cc (loop_dry cursor acc h)
  ]
  page_loop-Walk (suc n) cursor acc r e = elim (Bool-cases (text_eq cursor end_cursor)) [
    | inl h ↦ ended (suc n) cursor acc r e h
    | inr h ↦ fetched n cursor acc r (λ c xs. page_loop-Walk n c xs r) e h
  ]

  -- The loop is the walk: with fuel n it returns a result exactly if the walk from the cursor has
  -- at most n fetches, and then the result is the walk's, its items in order and no page twice.
  pub page_loop_iff :
      (n : ℕ) (cursor : Text) (r : Result E (List A))
      → (page_loop fetch n cursor [] ≡ some r) ↔ ((k : ℕ) × (k ≤ n) × Walk k cursor r)
  page_loop_iff n cursor r = (
    λ e.
        let (k, s, le, w, q) = page_loop-Walk n cursor [] r e in
        (k, le, subst (Walk k cursor) (sym (prepend_nil s) ∙ q) w),
    λ found. Walk-page_loop found.2 n [] found.1 ∙ ap some (prepend_nil r),
  )

  -- Termination: on a server whose next cursors fall by some measure the loop returns, with fuel
  -- for the measure of the cursor that it starts from.
  pub page_loop_total :
      (measure : Text → ℕ)
      → ((c : Text) (p : Page A)
          → fetch c ≡ ok p
          → is_last p.next_cursor c ≡ false
          → measure p.next_cursor < measure c)
      → (n : ℕ) (cursor : Text) (acc : List A) → measure cursor < n
      → (r : Result E (List A)) × (page_loop fetch n cursor acc ≡ some r)
  page_loop_total measure falls zero cursor acc h = absurd (omega arith)
  page_loop_total measure falls (suc n) cursor acc h =
      elim (Bool-cases (text_eq cursor end_cursor)) [
        | inl e ↦ (ok acc, loop_end (suc n) cursor acc e)
        | inr e ↦ elim (Result-cases (fetch cursor)) [
          | inr (x, f) ↦ (err x, loop_err n cursor acc x e f)
          | inl (p, f) ↦ elim (Bool-cases (is_last p.next_cursor cursor)) [
            | inl l ↦ (ok (acc ++ p.items), loop_last n cursor acc p e f l)
            | inr l ↦
                let (r, g) =
                  page_loop_total measure falls n p.next_cursor (acc ++ p.items)
                    (omega (arith, falls cursor p f l)) in
                (r, loop_next n cursor acc p e f l ∙ g)
          ]
        ]
      ]

  -- The check against a repeated cursor sees one step only: where two pages link to each other,
  -- and neither is the end, the loop never returns, whatever the fuel.
  pub page_loop_cycles :
      (n : ℕ) (a b : Text) (p q : Page A) (acc : List A)
      → text_eq a end_cursor ≡ false
      → text_eq b end_cursor ≡ false
      → is_last b a ≡ false
      → is_last a b ≡ false
      → fetch a ≡ ok p
      → fetch b ≡ ok q
      → p.next_cursor ≡ b
      → q.next_cursor ≡ a
      → page_loop fetch n a acc ≡ none
  page_loop_cycles zero a b p q acc ea eb la lb fa fb na nb = loop_dry a acc ea
  page_loop_cycles (suc n) a b p q acc ea eb la lb fa fb na nb =
      loop_next n a acc p ea fa (rw na la)
      ∙ rw na (page_loop_cycles n b a q p (acc ++ p.items) eb ea lb la fb fa nb na)
