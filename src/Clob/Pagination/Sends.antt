-- ===== src/Clob/Pagination/Sends.antt =====
-- What a stream sends of one page, whole or cut off by the context.
use polymarket_go_sdk.Base.{
  ◌≡◌, refl, ap, ◌⊎◌, inl, inr, Option, none, some, List, [], ◌∷◌, ◌++◌, map,
}
use mathlib.Core.List.{append_assoc}
use polymarket_go_sdk.Clob.Pagination.Stream.{
  Choice, live, done_sent, done_silent, StreamResult, item, failure, send_items, send_error,
}

module _ {ℓ κ} {E : Type ℓ} {A : Type κ} (context_error : E) where
  -- `outs` is the start of `full`, with nothing or the context's error after it.
  abbrev pub Cut : List (StreamResult E A) → List (StreamResult E A) → Type (ℓ ⊔ κ)
  Cut full outs =
      (ys zs : List (StreamResult E A)) × (full ≡ ys ++ zs)
      × ((outs ≡ ys) ⊎ (outs ≡ ys ++ failure context_error ∷ []))

  Cut-cons :
      (x : StreamResult E A) (full outs : List (StreamResult E A))
      → Cut full outs
      → Cut (x ∷ full) (x ∷ outs)
  Cut-cons x full outs (ys, zs, e, inl h) = (x ∷ ys, zs, ap (λ t. x ∷ t) e, inl (ap (λ t. x ∷ t) h))
  Cut-cons x full outs (ys, zs, e, inr h) = (x ∷ ys, zs, ap (λ t. x ∷ t) e, inr (ap (λ t. x ∷ t) h))

  pub Cut-append_left :
      (xs full outs : List (StreamResult E A)) → Cut full outs → Cut (xs ++ full) (xs ++ outs)
  Cut-append_left [] full outs c = c
  Cut-append_left (x ∷ xs) full outs c = Cut-cons x _ _ (Cut-append_left xs full outs c)

  pub Cut-append_right :
      (full more outs : List (StreamResult E A)) → Cut full outs → Cut (full ++ more) outs
  Cut-append_right full more outs (ys, zs, e, h) =
      (ys, zs ++ more, rw e (append_assoc ys zs more), h)

  abbrev pub Sends : List A → List (StreamResult E A) → Option (List Choice) → Type (ℓ ⊔ κ)
  Sends xs outs none = Cut (map item xs) outs
  Sends xs outs (some ds) = outs ≡ map item xs

  Sends-cons :
      (x : A) (xs : List A) (outs : List (StreamResult E A)) (left : Option (List Choice))
      → Sends xs outs left
      → Sends (x ∷ xs) (item x ∷ outs) left
  Sends-cons x xs outs none h = Cut-cons (item x) _ _ h
  Sends-cons x xs outs (some ds) h = ap (λ t. item x ∷ t) h

  pub Cut-none : (full : List (StreamResult E A)) → Cut full []
  Cut-none full = ([], full, refl, inl refl)

  pub Cut-error : (full : List (StreamResult E A)) → Cut full (failure context_error ∷ [])
  Cut-error full = ([], full, refl, inr refl)

  pub send_items-Sends :
      (cs : List Choice) (xs : List A)
      → let (outs, left) = send_items context_error cs xs in Sends xs outs left
  unfolding send_items
  send_items-Sends cs [] = refl
  send_items-Sends [] (x ∷ xs) = Sends-cons x xs _ _ (send_items-Sends [] xs)
  send_items-Sends (done_sent ∷ cs) (x ∷ xs) = Cut-error _
  send_items-Sends (done_silent ∷ cs) (x ∷ xs) = Cut-none _
  send_items-Sends (live ∷ []) (x ∷ xs) = Sends-cons x xs _ _ (send_items-Sends [] xs)
  send_items-Sends (live ∷ live ∷ cs) (x ∷ xs) = Sends-cons x xs _ _ (send_items-Sends cs xs)
  send_items-Sends (live ∷ done_sent ∷ cs) (x ∷ xs) = Sends-cons x xs _ _ (send_items-Sends cs xs)
  send_items-Sends (live ∷ done_silent ∷ cs) (x ∷ xs) = Cut-none _

  -- With no choice left a page is sent whole.
  pub send_items-live : (xs : List A) → send_items context_error [] xs ≡ (map item xs, some [])
  unfolding send_items
  send_items-live [] = refl
  send_items-live (x ∷ xs) = rw (send_items-live xs)

  pub send_error_live :
      (e : E) → ◌≡◌ {A = List (StreamResult E A)} (send_error context_error live e) (failure e ∷ [])
  unfolding send_error
  send_error_live e = refl
