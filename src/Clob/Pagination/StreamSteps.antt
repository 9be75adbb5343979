-- ===== src/Clob/Pagination/StreamSteps.antt =====
-- One round of the loop of StreamDataWithCursor, case by case.
use polymarket_go_sdk.Base.{
  ℕ, zero, suc, ◌≡◌, refl, ap, ◌⊎◌, inl, inr, true, false, Option, none, some, List, [], ◌∷◌, ◌++◌,
  map, Bool-cases, Option-cases,
}
use polymarket_go_sdk.Base.Text.{Text, text_eq}
use polymarket_go_sdk.Base.Result.{Result, ok, err}
use polymarket_go_sdk.Clob.Pagination.{end_cursor, Page, is_last}
use polymarket_go_sdk.Clob.Pagination.Stream.{
  Choice, live, done_sent, done_silent, StreamResult, item, failure, head_choice, rest_choices,
  send_items, send_error, stream_from,
}
use polymarket_go_sdk.Clob.Pagination.Sends.{send_items-live}

module _ {ℓ κ} {E : Type ℓ} {A : Type κ} (context_error : E) where
  module _ (fetch : Text → Result E (Page A)) where
    pub stream_end :
        (n : ℕ) (cs : List Choice) (c : Text)
        → text_eq c end_cursor ≡ true
        → stream_from context_error fetch n cs c ≡ some []
    unfolding stream_from
    stream_end zero cs c h = rw (h, stream_from)
    stream_end (suc n) cs c h = rw (h, stream_from)

    pub stream_dry :
        (cs : List Choice) (c : Text)
        → text_eq c end_cursor ≡ false
        → stream_from context_error fetch zero cs c ≡ none
    unfolding stream_from
    stream_dry cs c h = rw (h, stream_from)

    pub stream_done_sent :
        (n : ℕ) (cs : List Choice) (c : Text)
        → text_eq c end_cursor ≡ false
        → head_choice cs ≡ done_sent
        → stream_from context_error fetch (suc n) cs c ≡ some (failure context_error ∷ [])
    unfolding stream_from
    stream_done_sent n cs c h d = rw (h, stream_from) (rw d)

    pub stream_done_silent :
        (n : ℕ) (cs : List Choice) (c : Text)
        → text_eq c end_cursor ≡ false
        → head_choice cs ≡ done_silent
        → stream_from context_error fetch (suc n) cs c ≡ some []
    unfolding stream_from
    stream_done_silent n cs c h d = rw (h, stream_from) (rw d)

    pub stream_err :
        (n : ℕ) (cs : List Choice) (c : Text) (e : E)
        → text_eq c end_cursor ≡ false
        → head_choice cs ≡ live
        → fetch c ≡ err e
        → stream_from context_error fetch (suc n) cs c
          ≡ some (send_error context_error (head_choice (rest_choices cs)) e)
    unfolding stream_from
    stream_err n cs c e h d f = rw (h, stream_from) (rw (d, f))

    -- A page was fetched, and `sent` of it is sent.
    module _ (n : ℕ) (cs : List Choice) (c : Text) (p : Page A) (h : text_eq c end_cursor ≡ false)
        (d : head_choice cs ≡ live) (f : fetch c ≡ ok p) where
      abbrev pub sent : List (StreamResult E A) × Option (List Choice)
      sent = send_items context_error (rest_choices cs) p.items

      pub stream_cut : sent.1 ≡ none → stream_from context_error fetch (suc n) cs c ≡ some sent.0
      unfolding stream_from
      stream_cut s = rw (h, stream_from) (rw (d, f) (rw s))

      pub stream_last :
          (ds : List Choice)
          → sent.1 ≡ some ds
          → is_last p.next_cursor c ≡ true
          → stream_from context_error fetch (suc n) cs c ≡ some sent.0
      unfolding stream_from
      stream_last ds s l = rw (h, stream_from) (rw (d, f) (rw s (rw l)))

      pub stream_next :
          (ds : List Choice) (more : List (StreamResult E A))
          → sent.1 ≡ some ds
          → is_last p.next_cursor c ≡ false
          → stream_from context_error fetch n ds p.next_cursor ≡ some more
          → stream_from context_error fetch (suc n) cs c ≡ some (sent.0 ++ more)
      unfolding stream_from
      stream_next ds more s l g = rw (h, stream_from) (rw (d, f) (rw s (rw l (rw g))))

      stream_open :
          (ds : List Choice)
          → sent.1 ≡ some ds
          → is_last p.next_cursor c ≡ false
          → stream_from context_error fetch n ds p.next_cursor ≡ none
          → stream_from context_error fetch (suc n) cs c ≡ none
      unfolding stream_from
      stream_open ds s l g = rw (h, stream_from) (rw (d, f) (rw s (rw l (rw g))))

    -- What a fetched page and the rest of an uninterrupted stream come to.
    abbrev pub Whole : ℕ → Text → Page A → List (StreamResult E A) → Type (ℓ ⊔ κ)
    Whole n c p full =
        ((is_last p.next_cursor c ≡ true) × (full ≡ map item p.items))
        ⊎ ((more : List (StreamResult E A)) × (is_last p.next_cursor c ≡ false)
            × (stream_from context_error fetch n [] p.next_cursor ≡ some more)
            × (full ≡ map item p.items ++ more))

    pub whole :
        (n : ℕ) (c : Text) (p : Page A) (full : List (StreamResult E A))
        → text_eq c end_cursor ≡ false
        → fetch c ≡ ok p
        → stream_from context_error fetch (suc n) [] c ≡ some full
        → Whole n c p full
    whole n c p full h f g =
        let live_sent = send_items-live context_error p.items in
        let left = ap (λ t. t.1) live_sent in
        let outs = ap (λ t. t.0) live_sent in
        elim (Bool-cases (is_last p.next_cursor c)) [
          | inl l ↦ inl (l, cc (stream_last n [] c p h refl f [] left l, outs))
          | inr l ↦ elim (Option-cases (stream_from context_error fetch n [] p.next_cursor)) [
            | inl e ↦ cc (stream_open n [] c p h refl f [] left l e)
            | inr (more, e) ↦
                inr (more, l, e, cc (stream_next n [] c p h refl f [] more left l e, outs))
          ]
        ]
