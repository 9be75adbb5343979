-- ===== src/Ws/Buffers/Delivers.antt =====
-- What the consumer of a stream gets.
use polymarket_go_sdk.Base.{
  ℕ, suc, ◌+◌, ◌≤◌, ◌≡◌, refl, sym, ap, ◌∙◌, subst, List, [], ◌∷◌, ◌++◌, arith, length,
  length-append, Bool-cases, ◌⊎◌, inl, inr, ◌⊎◌,
}
use mathlib.Core.List.{Sublistᴰ, append_assoc}
use polymarket_go_sdk.Base.Text.{Text}
use polymarket_go_sdk.Ws.Buffers.{SubscriptionEntry, new_entry, notify_lag, try_send, close}

-- What is done to an entry: the client sends a message or closes it, the consumer receives one or
-- an error.
pub data Op {ℓ} (T : Type ℓ) : Type ℓ where
  sends : T → Op T
  takes takes_error closes : Op T

-- The entry, the messages sent to it, those received from it, and the number of errors received.
pub record History {ℓ} (T : Type ℓ) : Type ℓ where
  pub entry : SubscriptionEntry T
  pub sent : List T
  pub got : List T
  pub told : ℕ

module _ {ℓ} {T : Type ℓ} where
  take_from : History T → List T → History T
  take_from h [] = h
  take_from h (m ∷ ms) = record h { entry = record h.entry { ch = ms }; got = h.got ++ m ∷ [] }

  take_error_from : History T → List ℕ → History T
  take_error_from h [] = h
  take_error_from h (e ∷ es) = record h {
    entry = record h.entry { err_ch = es };
    told = suc h.told;
  }

  unfoldable pub step : History T → Op T → History T
  unfolding take_from take_error_from
  step h (sends m) = record h { entry = try_send h.entry m; sent = h.sent ++ m ∷ [] }
  step h takes = take_from h h.entry.ch
  step h takes_error = take_error_from h h.entry.err_ch
  step h closes = record h { entry = (close h.entry).0 }

  unfoldable pub run : History T → List (Op T) → History T
  unfolding step
  run h [] = h
  run h (o ∷ os) = run (step h o) os

  abbrev pub opened : List Text → List Text → History T
  opened assets markets = record { entry = new_entry assets markets; sent = []; got = []; told = 0 }

  -- What was received and what waits is some of what was sent, in its order; the buffers are within
  -- their sizes; and no more losses are reported than there are.
  pub record Faithful (h : History T) : Type ℓ where
    in_order : Sublistᴰ (h.got ++ h.entry.ch) h.sent
    stream_size : length h.entry.ch ≤ 100
    error_size : length h.entry.err_ch ≤ 10
    pub reported : h.told + length h.entry.err_ch + length h.got + length h.entry.ch ≤ length h.sent

  Sublistᴰ-more : {x y : List T} (m : T) → Sublistᴰ x y → Sublistᴰ x (y ++ (m ∷ []))
  Sublistᴰ-more m Sublistᴰ.slnil = Sublistᴰ.cons Sublistᴰ.slnil
  Sublistᴰ-more m (Sublistᴰ.cons s) = Sublistᴰ.cons (Sublistᴰ-more m s)
  Sublistᴰ-more m (Sublistᴰ.cons-cons e s) = Sublistᴰ.cons-cons e (Sublistᴰ-more m s)

  Sublistᴰ-last : {x y : List T} (m : T) → Sublistᴰ x y → Sublistᴰ (x ++ (m ∷ [])) (y ++ (m ∷ []))
  Sublistᴰ-last m Sublistᴰ.slnil = Sublistᴰ.cons-cons refl Sublistᴰ.slnil
  Sublistᴰ-last m (Sublistᴰ.cons s) = Sublistᴰ.cons (Sublistᴰ-last m s)
  Sublistᴰ-last m (Sublistᴰ.cons-cons e s) = Sublistᴰ.cons-cons e (Sublistᴰ-last m s)

  try_send_cases :
      (s : SubscriptionEntry T) (m : T)
      → (try_send s m ≡ s)
        ⊎ (((suc (length s.ch) ≤ 100) × (try_send s m ≡ record s { ch = s.ch ++ m ∷ [] }))
            ⊎ ((suc (length s.err_ch) ≤ 10)
                × (try_send s m ≡ record s { err_ch = s.err_ch ++ 1 ∷ [] })))
  unfolding try_send notify_lag
  try_send_cases s m = ground arith

  send-Faithful :
      (h : History T) (m : T)
      → Faithful h
      → Faithful (record h { entry = try_send h.entry m; sent = h.sent ++ m ∷ [] })
  send-Faithful h m f =
      let longer : length (h.sent ++ m ∷ []) ≡ length h.sent + 1 = length-append h.sent (m ∷ []) in
      elim (try_send_cases h.entry m) [
        | inl e ↦ rw e (record {
          in_order = Sublistᴰ-more m f.in_order;
          stream_size = f.stream_size;
          error_size = f.error_size;
          reported = omega (arith, longer, f.reported);
        })
        | inr (inl (n, e)) ↦ rw e (record {
          in_order =
              subst (λ l. Sublistᴰ l (h.sent ++ m ∷ [])) (append_assoc h.got h.entry.ch (m ∷ []))
                (Sublistᴰ-last m f.in_order);
          stream_size = omega (arith, length-append h.entry.ch (m ∷ []), n);
          error_size = f.error_size;
          reported = omega (arith, longer, length-append h.entry.ch (m ∷ []), f.reported);
        })
        | inr (inr (n, e)) ↦ rw e (record {
          in_order = Sublistᴰ-more m f.in_order;
          stream_size = f.stream_size;
          error_size = omega (arith, length-append h.entry.err_ch (1 ∷ []), n);
          reported = omega (arith, longer, length-append h.entry.err_ch (1 ∷ []), f.reported);
        })
      ]

  take-Faithful :
      (h : History T) (ms : List T) → ms ≡ h.entry.ch → Faithful h → Faithful (take_from h ms)
  unfolding take_from
  take-Faithful h [] e f = f
  take-Faithful h (m ∷ ms) e f = record {
    in_order =
        subst (λ l. Sublistᴰ l h.sent)
          (sym (append_assoc h.got (m ∷ []) ms ∙ ap (λ l. h.got ++ l) e)) f.in_order;
    stream_size = omega (arith, ap length e, f.stream_size);
    error_size = f.error_size;
    reported = omega (arith, ap length e, length-append h.got (m ∷ []), f.reported);
  }

  take_error-Faithful :
      (h : History T) (es : List ℕ)
      → es ≡ h.entry.err_ch
      → Faithful h
      → Faithful (take_error_from h es)
  unfolding take_error_from
  take_error-Faithful h [] e f = f
  take_error-Faithful h (x ∷ es) e f = record {
    in_order = f.in_order;
    stream_size = f.stream_size;
    error_size = omega (arith, ap length e, f.error_size);
    reported = omega (arith, ap length e, f.reported);
  }

  close-Faithful : (h : History T) → Faithful h → Faithful (record h { entry = (close h.entry).0 })
  unfolding close
  close-Faithful h f = elim (Bool-cases h.entry.closed) [
    | inl p ↦ rw p (record {
      in_order = f.in_order;
      stream_size = f.stream_size;
      error_size = f.error_size;
      reported = f.reported;
    })
    | inr p ↦ rw p (record {
      in_order = f.in_order;
      stream_size = f.stream_size;
      error_size = f.error_size;
      reported = f.reported;
    })
  ]

  step-Faithful : (h : History T) (o : Op T) → Faithful h → Faithful (step h o)
  unfolding step
  step-Faithful h (sends m) f = send-Faithful h m f
  step-Faithful h takes f = take-Faithful h h.entry.ch refl f
  step-Faithful h takes_error f = take_error-Faithful h h.entry.err_ch refl f
  step-Faithful h closes f = close-Faithful h f

  run_from-Faithful : (h : History T) (os : List (Op T)) → Faithful h → Faithful (run h os)
  unfolding run
  run_from-Faithful h [] f = f
  run_from-Faithful h (o ∷ os) f = run_from-Faithful (step h o) os (step-Faithful h o f)

  -- Whatever is sent to a new stream and received from it, in any order and with any closing: what
  -- was received and what waits is some of what was sent, in its order; at most 100 messages and 10
  -- errors wait; and the errors, received or waiting, are no more than the messages lost.
  pub run-Faithful :
      (assets markets : List Text) (os : List (Op T)) → Faithful (run (opened assets markets) os)
  unfolding new_entry
  run-Faithful assets markets os = run_from-Faithful (opened assets markets) os (record {
    in_order = Sublistᴰ.slnil;
    stream_size = omega arith;
    error_size = omega arith;
    reported = omega arith;
  })
