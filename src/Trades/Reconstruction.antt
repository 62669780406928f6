-- ===== src/Trades/Reconstruction.antt =====
-- The events of the loop of research/trades.py, against the runs of its rows.
use binance_algo.Base.{
  not, sym, ap, ◌∙◌, Bool-cases, arith, ◌≡◌, refl, inl, inr, true, false, none, some, List, [], ◌∷◌,
  ok, map,
}
use binance_algo.Trades.Rows.{
  stay_row, side-rebalanced, stay_last, sign_eq_iff, side-entered, entry_row, entry_events,
  runs_flat, skip, last_events, flat_row, turn_row, entry_last, Carries, rest_events, Rebuilds,
}
use binance_algo.Trades.Episode.{
  sign_of, rebalanced, exited, turned, entered, held, prepended, OpenTrade, flat, episodes, is_flat,
  target_sign, PositionRow, sign_eq, Floats, Sign,
}
use binance_algo.Trades.Runs.{event_of, IsChained, runs}

module _ {F : Type 0} (o : Floats F) where
  -- From flat.
  entry-Rebuilds :
      (r : PositionRow F) (rs : List (PositionRow F))
      → is_flat o r ≡ false
      → Carries o rs
      → IsChained o (target_sign o r) rs
      → episodes o none (r ∷ rs) ≡ ok (map (event_of o) (runs o (r ∷ rs)))
  entry-Rebuilds r [] open_row carries chain =
      entry_last o r open_row
      ∙ ap (λ es. ok es)
          (sym (last_events o (held o r (entered o r)) r) ∙ (entry_events o) r [] open_row)
  entry-Rebuilds r (s ∷ rs) open_row carries chain =
      let t = held o r (entered o r) in
      entry_row o r (s ∷ rs) open_row refl
      ∙ (skip o) (prepended o [] (episodes o (some t) (s ∷ rs)))
      ∙ (skip o) (episodes o (some t) (s ∷ rs))
      ∙ carries t r refl (rw (side-entered o r) open_row) (rw (side-entered o r) chain)
      ∙ ap (λ es. ok es) (entry_events o r (s ∷ rs) open_row)

  row-Rebuilds :
      (r : PositionRow F) (rs : List (PositionRow F))
      → Rebuilds o rs
      → Carries o rs
      → Rebuilds o (r ∷ rs)
  row-Rebuilds r rs rebuilds carries g chain = elim (Bool-cases (is_flat o r)) [
    | inl flat_target ↦
        flat_row o r rs flat_target
        ∙ (skip o) (prepended o [] (episodes o none rs))
        ∙ (skip o) (episodes o none rs)
        ∙ rebuilds (target_sign o r) chain.1
        ∙ ap (λ us. ok (map (event_of o) us)) (sym (runs_flat o r rs flat_target))
    | inr open_row ↦ entry-Rebuilds r rs open_row carries chain.1
  ]

  -- From an open trade, on a row of its sign.
  same_events :
      (r : PositionRow F) (rs : List (PositionRow F)) (t : OpenTrade F) (r₀ : PositionRow F)
      → sign_eq t.side (target_sign o r) ≡ true
      → rest_events o (held o r (rebalanced o r t)) r rs ≡ (rest_events o) t r₀ (r ∷ rs)
  unfolding held rebalanced
  same_events r rs t r₀ same = rw (same) refl

  stays :
      (r : PositionRow F) {g : Sign}
      → sign_of o r.previous_weight ≡ g
      → turned o r ≡ not (sign_eq g (target_sign o r))
  stays r e = ap (λ h. not (sign_eq h (target_sign o r))) e

  stay-Carries :
      (r : PositionRow F) (rs : List (PositionRow F)) (t : OpenTrade F) (r₀ : PositionRow F)
      → Carries o rs
      → sign_eq t.side flat ≡ false
      → IsChained o t.side (r ∷ rs)
      → sign_eq t.side (target_sign o r) ≡ true
      → episodes o (some t) (r ∷ rs) ≡ ok (rest_events o t r₀ (r ∷ rs))
  stay-Carries r [] t r₀ carries is_open chain same =
      let e = sign_eq_iff t.side (target_sign o r) same in
      stay_last o t r (stays r chain.0 ∙ ap not same) (ap (λ h. sign_eq h flat) (sym e) ∙ is_open)
      ∙ ap (λ es. ok es)
          (sym (last_events o (held o r (rebalanced o r t)) r) ∙ same_events r [] t r₀ same)
  stay-Carries r (s ∷ rs) t r₀ carries is_open chain same =
      let e = sign_eq_iff t.side (target_sign o r) same in
      let side = side-rebalanced o r t in
      stay_row o t r (s ∷ rs) (stays r chain.0 ∙ ap not same)
        (ap (λ h. sign_eq h flat) (sym e) ∙ is_open) refl
      ∙ carries (held o r (rebalanced o r t)) r refl (rw (side) is_open) (rw (side, e) chain.1)
      ∙ ap (λ es. ok es) (same_events r (s ∷ rs) t r₀ same)

  turn_events :
      (r : PositionRow F) (rs : List (PositionRow F)) (t : OpenTrade F) (r₀ : PositionRow F)
      → sign_eq t.side (target_sign o r) ≡ false
      → exited o t r ∷ map (event_of o) (runs o (r ∷ rs)) ≡ (rest_events o) t r₀ (r ∷ rs)
  turn_events r rs t r₀ other = rw (other) refl

  both : (rs : List (PositionRow F)) → Rebuilds o rs × Carries o rs
  unfolding episodes runs
  both [] = (λ g chain. refl, λ t r not_empty is_open chain. ground arith)
  both (r ∷ rs) =
      let (rebuilds, carries) = both rs in
      let rebuilds' = row-Rebuilds r rs rebuilds carries in
      (
        rebuilds',
        λ t r₀ _ is_open chain. elim (Bool-cases (sign_eq t.side (target_sign o r))) [
          | inl same ↦ stay-Carries r rs t r₀ carries is_open chain same
          | inr other ↦
              turn_row o t r rs (stays r chain.0 ∙ ap not other)
              ∙ ap (prepended o (exited o t r ∷ [])) (rebuilds' t.side chain)
              ∙ ap (λ es. ok es) (turn_events r rs t r₀ other)
        ],
      )

  -- If each row's previous weight has the sign of the target weight above it, and the first one is
  -- flat, then the loop returns, never with an episode left open, and its events are those of the
  -- runs of rows with one sign: each run is entered at its first row, carried over its other rows,
  -- and closed by the row that follows it or by the end of the fold.
  pub episodes-runs :
      (rows : List (PositionRow F))
      → IsChained o flat rows
      → episodes o none rows ≡ ok (map (event_of o) (runs o rows))
  episodes-runs rows chain = (both rows).0 flat chain
