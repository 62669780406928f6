-- ===== src/Recorder/Gaps.antt =====
-- What the counters of `_observe` in exchange/binance_usdm/websocket.py say of a stream of events.
use binance_algo.Base.{
  ◌∙◌, Bool-cases, eq_iff, length, ◌+◌, arith, ◌≡◌, ◌&&◌, if◌then◌else◌, str_eq, ◌<◌, refl, inl,
  inr, ℕ, String, Bool, true, false, some, List, [], ◌∷◌,
}
use binance_algo.Recorder.Sequence.{Observed, StreamEvent, observe, observe_all}

abbrev pub is_trade_of : String → StreamEvent → Bool
is_trade_of k e = str_eq e.event_type "aggregate_trades" && str_eq e.symbol k

-- The ids of the aggregate trades of a symbol, in the order of their arrival.
abbrev pub trade_ids : String → List StreamEvent → List ℕ
trade_ids k [] = []
trade_ids k (e ∷ es) =
    let rest = trade_ids k es in if is_trade_of k e then e.aggregate_trade_id ∷ rest else rest

-- Every id is higher than the one before it.
abbrev pub IsIncreasing : ℕ → List ℕ → Type 0
IsIncreasing a [] = Unit
IsIncreasing a (b ∷ ids) = (a < b) × IsIncreasing b ids

abbrev pub last_id : ℕ → List ℕ → ℕ
last_id a [] = a
last_id a (b ∷ ids) = last_id b ids

other :
    (k : String) (e : StreamEvent) (s : Observed)
    → is_trade_of k e ≡ false
    → let t = observe e s in
      (t.sequence_gaps_by_symbol k ≡ s.sequence_gaps_by_symbol k)
      × (t.sequence_regressions_by_symbol k ≡ s.sequence_regressions_by_symbol k)
      × (t.last_aggregate_trade_id k ≡ s.last_aggregate_trade_id k)
unfolding observe
other k e s apart = (ground arith, ground arith, ground arith)

higher :
    (k : String) (e : StreamEvent) (s : Observed) {a : ℕ}
    → is_trade_of k e ≡ true
    → s.last_aggregate_trade_id k ≡ some a
    → a < e.aggregate_trade_id
    → let t = observe e s in
      (t.sequence_gaps_by_symbol k + 1 + a ≡ s.sequence_gaps_by_symbol k + e.aggregate_trade_id)
      × (t.sequence_regressions_by_symbol k ≡ s.sequence_regressions_by_symbol k)
      × (t.last_aggregate_trade_id k ≡ some e.aggregate_trade_id)
unfolding observe
higher k e s {a} trade last lt =
    let same = (eq_iff e.symbol k).0 in
    (ground (arith, same), ground (arith, same), ground (arith, same))

-- If the ids of a symbol's aggregate trades increase from the last one seen, then the gaps counted
-- and the trades received together account for every id up to the last, no regression is counted,
-- and the last id is remembered, whatever else the stream carries.
pub observe_all-accounts :
    (k : String) (es : List StreamEvent) (s : Observed) {a : ℕ}
    → s.last_aggregate_trade_id k ≡ some a
    → IsIncreasing a (trade_ids k es)
    → let t = observe_all es s in
      (t.sequence_gaps_by_symbol k + length (trade_ids k es) + a
        ≡ s.sequence_gaps_by_symbol k + last_id a (trade_ids k es))
      × (t.sequence_regressions_by_symbol k ≡ s.sequence_regressions_by_symbol k)
      × (t.last_aggregate_trade_id k ≡ some (last_id a (trade_ids k es)))
unfolding observe_all
observe_all-accounts k [] s {a} last increasing = (omega arith, refl, last)
observe_all-accounts k (e ∷ es) s {a} last increasing = elim (Bool-cases (is_trade_of k e)) [
  | inl trade ↦
      let (below, rest) : IsIncreasing a (e.aggregate_trade_id ∷ trade_ids k es) =
        rw trade at increasing in
      let (gaps, regressions, seen) = higher k e s trade last below in
      let (gaps', regressions', seen') = observe_all-accounts k es (observe e s) seen rest in
      rw (trade) (omega (arith, gaps, gaps'), regressions' ∙ regressions, seen')
  | inr apart ↦
      let (gaps, regressions, seen) = other k e s apart in
      let (gaps', regressions', seen') =
        observe_all-accounts k es (observe e s) (seen ∙ last) (rw apart at increasing) in
      rw (apart) (omega (arith, gaps, gaps'), regressions' ∙ regressions, seen')
]
