-- ===== src/Trades/Rows.antt =====
-- The loop of research/trades.py row by row, against the runs of its rows.
use binance_algo.Base.{
  sym, is_empty, ap, ◌∙◌, Bool-cases, arith, if◌then◌else◌, ◌≡◌, refl, inl, inr, true, false,
  Option, none, some, List, [], ◌∷◌, Result, ok, err, map,
}
use binance_algo.Trades.Episode.{
  rebalanced, exited, TradeError, turned, fold_closed, entered, held, prepended, finish, hold,
  enter, TradeEvent, leave, OpenTrade, flat, episodes, is_flat, target_sign, PositionRow, sign_eq,
  Floats, Sign,
}
use binance_algo.Trades.Runs.{carried, closed_by, event_of, IsChained, same_sign, joined, Run, runs}

pub sign_eq_iff : (a b : Sign) → sign_eq a b ≡ true → a ≡ b
sign_eq_iff a b h = ground arith

module _ {F : Type 0} (o : Floats F) where
  -- The rows at the top with a sign, the rows below them, and the row at the top.
  abbrev lead : Sign → List (PositionRow F) → List (PositionRow F)
  lead s [] = []
  lead s (r ∷ rs) = let rest = lead s rs in if sign_eq s (target_sign o r) then r ∷ rest else []

  abbrev after : Sign → List (PositionRow F) → List (PositionRow F)
  after s [] = []
  after s (r ∷ rs) = let rest = after s rs in if sign_eq s (target_sign o r) then rest else r ∷ rs

  abbrev top : List (PositionRow F) → Option (PositionRow F)
  top [] = none
  top (r ∷ rs) = some r

  abbrev first_run : PositionRow F → List (PositionRow F) → Run F
  first_run r rs = record {
    first = r;
    more = lead (target_sign o r) rs;
    next = top (after (target_sign o r) rs);
  }

  runs_cons :
      (r : PositionRow F) (rs : List (PositionRow F))
      → is_flat o r ≡ false
      → runs o (r ∷ rs) ≡ joined o r rs (runs o rs)
  unfolding runs
  runs_cons r rs open_row = rw (open_row) refl

  apart :
      (r s : PositionRow F) (rs : List (PositionRow F)) (us : List (Run F))
      → same_sign o r s ≡ false
      → joined o r (s ∷ rs) us ≡ record { first = r; more = []; next = some s } ∷ us
  unfolding joined
  apart r s rs [] other = refl
  apart r s rs (u ∷ us) other = rw (other) refl

  together :
      (r s : PositionRow F) (rs : List (PositionRow F)) (u : Run F) (us : List (Run F))
      → same_sign o r s ≡ true
      → joined o r (s ∷ rs) (u ∷ us) ≡ record u { first = r; more = u.first ∷ u.more } ∷ us
  unfolding joined
  together r s rs u us same = rw (same) refl

  last_row :
      (r : PositionRow F) (us : List (Run F))
      → joined o r [] us ≡ record { first = r; more = []; next = none } ∷ us
  unfolding joined
  last_row r us = refl

  no_rows : runs o [] ≡ []
  unfolding runs
  no_rows = refl

  -- Across one sign.
  lead-same :
      (g : Sign) (s : PositionRow F) (rs : List (PositionRow F))
      → sign_eq g (target_sign o s) ≡ true
      → (lead g (s ∷ rs) ≡ s ∷ lead (target_sign o s) rs)
        × (after g (s ∷ rs) ≡ after (target_sign o s) rs)
  lead-same g s rs same =
      let e = sign_eq_iff g (target_sign o s) same in
      (rw (same) (ap (λ h. s ∷ lead h rs) e), rw (same) (ap (λ h. after h rs) e))

  same_flat :
      (r s : PositionRow F) → same_sign o r s ≡ true → is_flat o r ≡ false → is_flat o s ≡ false
  same_flat r s same open_row =
      ap (λ h. sign_eq h flat) (sym (sign_eq_iff (target_sign o r) (target_sign o s) same))
      ∙ open_row

  runs-open :
      (r : PositionRow F) (rs : List (PositionRow F))
      → is_flat o r ≡ false
      → runs o (r ∷ rs) ≡ first_run r rs ∷ runs o (after (target_sign o r) rs)
  runs-open r [] open_row = runs_cons r [] open_row ∙ last_row r (runs o [])
  runs-open r (s ∷ rs) open_row = elim (Bool-cases (same_sign o r s)) [
    | inl same ↦
        let open_s : is_flat o s ≡ false = same_flat r s same open_row in
        let (leads, afters) = lead-same (target_sign o r) s rs same in
        rw (leads, afters)
          (runs_cons r (s ∷ rs) open_row
            ∙ ap (joined o r (s ∷ rs)) (runs-open s rs open_s)
            ∙ together r s rs (first_run s rs) (runs o (after (target_sign o s) rs)) same)
    | inr other ↦ rw (other) (runs_cons r (s ∷ rs) open_row ∙ apart r s rs (runs o (s ∷ rs)) other)
  ]

  -- The event of an open trade over the rest of its run.
  abbrev rest_event : OpenTrade F → PositionRow F → List (PositionRow F) → TradeEvent F
  rest_event t r rs = closed_by o (top (after t.side rs)) (carried o t r (lead t.side rs))

  abbrev pub rest_events : OpenTrade F → PositionRow F → List (PositionRow F) → List (TradeEvent F)
  rest_events t r rs = rest_event t r rs ∷ map (event_of o) (runs o (after t.side rs))

  -- After a row that is not the last.
  abbrev pub Carries : List (PositionRow F) → Type 0
  Carries rs =
      (t : OpenTrade F) (r : PositionRow F)
      → is_empty rs ≡ false
      → sign_eq t.side flat ≡ false
      → IsChained o t.side rs
      → episodes o (some t) rs ≡ ok (rest_events t r rs)

  abbrev pub Rebuilds : List (PositionRow F) → Type 0
  Rebuilds rs =
      (g : Sign) → IsChained o g rs → episodes o none rs ≡ ok (map (event_of o) (runs o rs))

  pub flat_row :
      (r : PositionRow F) (rs : List (PositionRow F))
      → is_flat o r ≡ true
      → episodes o none (r ∷ rs) ≡ prepended o [] (prepended o [] (episodes o none rs))
  unfolding episodes leave enter hold finish
  flat_row r rs flat_target = ground (arith, flat_target)

  pub entry_row :
      (r : PositionRow F) (rs : List (PositionRow F))
      → is_flat o r ≡ false
      → is_empty rs ≡ false
      → episodes o none (r ∷ rs)
        ≡ prepended o [] (prepended o [] (episodes o (some (held o r (entered o r))) rs))
  unfolding episodes leave enter hold finish
  entry_row r rs open_row more = ground (arith, open_row, more)

  pub entry_last :
      (r : PositionRow F)
      → is_flat o r ≡ false
      → episodes o none (r ∷ []) ≡ ok (fold_closed o (held o r (entered o r)) r ∷ [])
  unfolding episodes leave enter hold finish
  entry_last r open_row = ground (arith, open_row)

  pub skip : (e : Result TradeError (List (TradeEvent F))) → prepended o [] e ≡ e
  skip (ok more) = refl
  skip (err e) = refl

  pub turn_row :
      (t : OpenTrade F) (r : PositionRow F) (rs : List (PositionRow F))
      → turned o r ≡ true
      → episodes o (some t) (r ∷ rs) ≡ prepended o (exited o t r ∷ []) (episodes o none (r ∷ rs))
  unfolding episodes leave
  turn_row t r rs turn = ground (arith, turn)

  pub stay_row :
      (t : OpenTrade F) (r : PositionRow F) (rs : List (PositionRow F))
      → turned o r ≡ false
      → is_flat o r ≡ false
      → is_empty rs ≡ false
      → episodes o (some t) (r ∷ rs) ≡ episodes o (some (held o r (rebalanced o r t))) rs
  unfolding episodes leave enter hold finish
  stay_row t r rs stay open_row more =
      ground
        (arith, stay, open_row, more, skip (episodes o (some (held o r (rebalanced o r t))) rs))

  pub stay_last :
      (t : OpenTrade F) (r : PositionRow F)
      → turned o r ≡ false
      → is_flat o r ≡ false
      → episodes o (some t) (r ∷ []) ≡ ok (fold_closed o (held o r (rebalanced o r t)) r ∷ [])
  unfolding episodes leave enter hold finish
  stay_last t r stay open_row = ground (arith, stay, open_row)

  pub runs_flat :
      (r : PositionRow F) (rs : List (PositionRow F))
      → is_flat o r ≡ true
      → runs o (r ∷ rs) ≡ runs o rs
  unfolding runs
  runs_flat r rs flat_target = ground (arith, flat_target)

  pub side-entered : (r : PositionRow F) → (held o r (entered o r)).side ≡ target_sign o r
  unfolding held entered
  side-entered r = refl

  pub side-rebalanced :
      (r : PositionRow F) (t : OpenTrade F) → (held o r (rebalanced o r t)).side ≡ t.side
  unfolding held rebalanced
  side-rebalanced r t = refl

  event_of-first_run :
      (r : PositionRow F) (rs : List (PositionRow F))
      → event_of o (first_run r rs) ≡ rest_event (held o r (entered o r)) r rs
  unfolding event_of held entered
  event_of-first_run r rs = refl

  pub entry_events :
      (r : PositionRow F) (rs : List (PositionRow F))
      → is_flat o r ≡ false
      → rest_events (held o r (entered o r)) r rs ≡ map (event_of o) (runs o (r ∷ rs))
  unfolding event_of held entered
  entry_events r rs open_row = sym (ap (map (event_of o)) (runs-open r rs open_row))

  pub last_events :
      (t : OpenTrade F) (r : PositionRow F) → rest_events t r [] ≡ fold_closed o t r ∷ []
  unfolding runs
  last_events t r = refl
