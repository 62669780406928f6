-- ===== src/Sockets/Lossless.antt =====
-- What becomes of the events that exchange/binance_usdm/websocket.py receives.
use binance_algo.Base.{
  ◌⊎◌, ℕ, zero, suc, List, [], ◌∷◌, ◌++◌, ok, err, ◌+◌, ◌≤◌, ltb, length, ◌≡◌, refl, arith,
  Bool-cases, inl, inr, sym, ap, ◌∙◌,
}
use binance_algo.Sockets.Client.{put, take_first, Socket, serve, enqueue, queue_saturated}
use mathlib.Core.List.{append_assoc, append-nil}
use binance_algo.Recorder.Sequence.{StreamEvent}

pub length-append_one : {A : Type 0} (xs : List A) (x : A) → length (xs ++ (x ∷ [])) ≡ length xs + 1
length-append_one [] x = refl
length-append_one (y ∷ xs) x = omega (arith, length-append_one xs x)

module _ {Event : Type 0} where
  -- Every event that was put in the queue, in the order of the puts.
  abbrev pub received : Socket Event → List Event
  received s = s.taken ++ s.queue

  -- No event is lost: `fresh` have joined the queue, which keeps to its capacity; what was dropped is
  -- counted.
  pub record Extends (capacity : ℕ) (s : Socket Event) (fresh : List Event) (dropped : ℕ)
      (after : Socket Event) : Type 0 where
    pub in_order : received after ≡ received s ++ fresh
    pub counted : after.dropped_events ≡ s.dropped_events + dropped
    pub bounded : length s.queue ≤ capacity → length after.queue ≤ capacity

  pub Extends-refl : (capacity : ℕ) (s : Socket Event) → Extends capacity s [] 0 s
  Extends-refl capacity s = record {
    in_order = sym (append-nil (received s));
    counted = omega arith;
    bounded = λ h. h;
  }

  pub Extends-trans :
      {capacity : ℕ} {s t u : Socket Event} {es fs : List Event} {m n : ℕ}
      → Extends capacity s es m t
      → Extends capacity t fs n u
      → Extends capacity s (es ++ fs) (m + n) u
  Extends-trans {s} {es} {fs} p q = record {
    in_order = q.in_order ∙ ap (λ l. l ++ fs) p.in_order ∙ append_assoc (received s) es fs;
    counted = omega (arith, p.counted, q.counted);
    bounded = λ h. q.bounded (p.bounded h);
  }

  module _ (view : Event → StreamEvent) (capacity : ℕ) where
    take_first-Extends :
        (es : List Event) (s : Socket Event)
        → s.queue ≡ es
        → Extends capacity s [] 0 (take_first view capacity es s)
    take_first-Extends [] s is = Extends-refl capacity s
    take_first-Extends (e ∷ es) s is = record {
      in_order = rw is (append_assoc s.taken (e ∷ []) es ∙ sym (append-nil (s.taken ++ (e ∷ es))));
      counted = omega arith;
      bounded = λ h. let h' : length (e ∷ es) ≤ capacity = rw is at h in omega (arith, h');
    }

    serve-Extends : (n : ℕ) (s : Socket Event) → Extends capacity s [] 0 (serve view capacity n s)
    unfolding serve
    serve-Extends zero s = Extends-refl capacity s
    serve-Extends (suc n) s =
        Extends-trans (take_first-Extends s.queue s refl)
          (serve-Extends n (take_first view capacity s.queue s))

    -- One event more, or one dropped.
    put-Extends :
        (e : Event) (s : Socket Event)
        → length s.queue + 1 ≤ capacity
        → Extends capacity s (e ∷ []) 0 (put view capacity e s)
    put-Extends e s room = record {
      in_order = sym (append_assoc s.taken s.queue (e ∷ []));
      counted = omega arith;
      bounded = λ _. omega (arith, length-append_one s.queue e, room);
    }

    pub enqueue-Extends :
        (e : Event) (n : ℕ) (s : Socket Event)
        → let (result, after) = enqueue view capacity e n s in
          ((result ≡ ok tt) × Extends capacity s (e ∷ []) 0 after)
          ⊎ ((result ≡ err queue_saturated) × Extends capacity s [] 1 after)
    unfolding enqueue
    enqueue-Extends e n s =
        let t = serve view capacity n s in
        elim (Bool-cases (ltb (length t.queue) capacity)) [
          | inl room ↦ rw room (
              inl
                (refl, Extends-trans (serve-Extends n s) (put-Extends e t (ground (arith, room)))))
          | inr full ↦ rw full (
              inr (
                refl,
                Extends-trans (serve-Extends n s) (record {
                  in_order = sym (append-nil (received t));
                  counted = refl;
                  bounded = λ h. h;
                }),
              ))
        ]
