-- ===== src/Registry/Stages.antt =====
-- The stages of an experiment along its promotion events: the loop in `record_promotion_event` of
-- research/experiments/store.py and `current_research_stage` of research/experiments/promotion.py.
use binance_algo.Base.{
  eq_iff, str_eq, ◌∙◌, is_some, Option-cases, sym, ap, refl, inl, inr, Bool-cases, if◌then◌else◌,
  ◌⊎◌, arith, ◌≤◌, All, ◌≡◌, ◌++◌, ℕ, String, true, Option, none, some, List, [], ◌∷◌,
}
use mathlib.Core.Option.{some-injective}
use binance_algo.Table.{select, insert_or_ignore, select_all}
use binance_algo.Registry.Promotions.{
  recorded_before, record_promotion_event, record_new, promotion_row, prior_events, promotes,
  research_stage_from, PromotionEventSpec, replayed, current_research_stage, order_by_time,
  insert_by_time, promotion_checks,
}
use binance_algo.Registry.Status.{promotion_transition, stage_eq, ResearchStage}
use binance_algo.Table.Laws.{select_all-append}
use binance_algo.Registry.Schema.{RegistryDb, PromotionRecord}

-- `current_research_stage` and the loop that `record_promotion_event` runs over the prior events
-- agree on every history: the same stage, or both refuse it as inconsistent.
pub replayed-agrees :
    (events : List PromotionRecord)
    → replayed ResearchStage.discovery events ≡ current_research_stage events
unfolding current_research_stage replayed research_stage_from
replayed-agrees events = from_stage ResearchStage.discovery events
  where
    from_stage :
        (stage : ResearchStage) (ps : List PromotionRecord)
        → replayed stage ps ≡ research_stage_from stage ps
    from_stage stage [] = refl
    from_stage stage (p ∷ ps) = ground (arith, from_stage stage ps, from_stage p.to_stage ps)

abbrev bind_stage :
    Option ResearchStage → (ResearchStage → Option ResearchStage) → Option ResearchStage
bind_stage none f = none
bind_stage (some s) f = f s

replayed-append :
    (stage : ResearchStage) (ps : List PromotionRecord) (p : PromotionRecord)
    → replayed stage (ps ++ (p ∷ [])) ≡ bind_stage (replayed stage ps) (λ s. replayed s (p ∷ []))
unfolding replayed
replayed-append stage [] p = refl
replayed-append stage (q ∷ ps) p =
    ground (arith, replayed-append stage ps p, replayed-append q.to_stage ps p)

insert_by_time-append :
    (q : PromotionRecord) (ps : List PromotionRecord) (p : PromotionRecord)
    → q.created_at_ms ≤ p.created_at_ms
    → insert_by_time q (ps ++ (p ∷ [])) ≡ insert_by_time q ps ++ (p ∷ [])
unfolding insert_by_time
insert_by_time-append q [] p early = ground arith
insert_by_time-append q (r ∷ ps) p early = ground (arith, insert_by_time-append q ps p early)

-- No event is later.
abbrev pub IsSettled : ℕ → List PromotionRecord → Type 0
IsSettled now ps = All (λ (p : PromotionRecord). p.created_at_ms ≤ now) ps

order_by_time-append :
    (ps : List PromotionRecord) (p : PromotionRecord)
    → IsSettled p.created_at_ms ps
    → order_by_time (ps ++ (p ∷ [])) ≡ order_by_time ps ++ (p ∷ [])
unfolding order_by_time insert_by_time
order_by_time-append [] p early = refl
order_by_time-append (q ∷ ps) p early =
    ground (
      arith,
      order_by_time-append ps p early.1,
      insert_by_time-append q (order_by_time ps) p early.0,
    )

select_all-IsSettled :
    (k : String) (now : ℕ) (ps : List PromotionRecord)
    → IsSettled now ps
    → IsSettled now (select_all (promotes k) ps)
unfolding select_all
select_all-IsSettled k now [] h = tt
select_all-IsSettled k now (p ∷ ps) h = ground (arith, select_all-IsSettled k now ps h.1)

-- The same stage, or one that the table of transitions allows.
abbrev pub StageMove : ResearchStage → ResearchStage → Type 0
StageMove s t = (t ≡ s) ⊎ (promotion_transition s t ≡ true)

-- A stage is reached still, and has stayed or moved once.
abbrev StageFollows : Option ResearchStage → Option ResearchStage → Type 0
StageFollows none after = Unit
StageFollows (some s) none = ⊥
StageFollows (some s) (some t) = StageMove s t

StageFollows-refl : (o : Option ResearchStage) → StageFollows o o
StageFollows-refl none = tt
StageFollows-refl (some s) = inl refl

checked-StageFollows :
    (current : ResearchStage) (identifier : String) (spec : PromotionEventSpec) (now : ℕ)
    → promotion_checks current spec ≡ none
    → stage_eq spec.from_stage current ≡ true
    → StageFollows (some current) (replayed current (promotion_row identifier spec now ∷ []))
unfolding promotion_checks replayed
checked-StageFollows current identifier spec now passed from = ground arith

append-nil {ℓ} : {A : Type ℓ} (xs : List A) → xs ++ [] ≡ xs
append-nil [] = refl
append-nil (x ∷ rest) = ap (λ t. x ∷ t) (append-nil rest)

prior_events-append :
    (k : String) (p : PromotionRecord) (ps : List PromotionRecord)
    → IsSettled p.created_at_ms ps
    → order_by_time (select_all (promotes k) (ps ++ (p ∷ [])))
      ≡ order_by_time (select_all (promotes k) ps) ++ (if promotes k p then p ∷ [] else [])
prior_events-append k p ps settled = elim (Bool-cases (promotes k p)) [
  | inl mine ↦
      rw (select_all-append (promotes k) ps p, mine)
        (order_by_time-append (select_all (promotes k) ps) p
          (select_all-IsSettled k p.created_at_ms ps settled))
  | inr other ↦
      rw
        (
          select_all-append (promotes k) ps p,
          other,
          append-nil (select_all (promotes k) ps),
          append-nil (order_by_time (select_all (promotes k) ps)),
        )
        refl
]

-- The stage that an experiment has reached after its prior events.
abbrev pub stage_of : String → List PromotionRecord → Option ResearchStage
stage_of k ps = current_research_stage (order_by_time (select_all (promotes k) ps))

append-StageFollows :
    (k : String) (p : PromotionRecord) (ps : List PromotionRecord)
    → IsSettled p.created_at_ms ps
    → ((s : ResearchStage)
        → promotes k p ≡ true
        → replayed ResearchStage.discovery (order_by_time (select_all (promotes k) ps)) ≡ some s
        → StageFollows (some s) (replayed s (p ∷ [])))
    → StageFollows (stage_of k ps) (stage_of k (ps ++ (p ∷ [])))
append-StageFollows k p ps settled moves = elim (Bool-cases (promotes k p)) [
  | inl mine ↦
      rw
        (
          sym (replayed-agrees (order_by_time (select_all (promotes k) ps))),
          sym (replayed-agrees (order_by_time (select_all (promotes k) (ps ++ (p ∷ []))))),
          prior_events-append k p ps settled,
          mine,
          replayed-append ResearchStage.discovery (order_by_time (select_all (promotes k) ps)) p,
        )
        (split (replayed ResearchStage.discovery (order_by_time (select_all (promotes k) ps)))
          (λ s. moves s mine))
  | inr other ↦
      rw
        (
          prior_events-append k p ps settled,
          other,
          append-nil (order_by_time (select_all (promotes k) ps)),
        )
        (StageFollows-refl (stage_of k ps))
]
  where
    split :
        (o : Option ResearchStage)
        → ((s : ResearchStage) → o ≡ some s → StageFollows (some s) (replayed s (p ∷ [])))
        → StageFollows o (bind_stage o (λ s. replayed s (p ∷ [])))
    split none h = tt
    split (some s) h = h s refl

reached_stage :
    {s : ResearchStage} (o : Option ResearchStage)
    → StageFollows (some s) o
    → (t : ResearchStage) × (o ≡ some t) × StageMove s t
reached_stage none h = elim h [ ]
reached_stage (some t) h = (t, refl, h)

module _ {Float : Type 0} (canonical_sha256 : PromotionEventSpec → String) where
  new-StageFollows :
      (current : ResearchStage) (spec : PromotionEventSpec) (now : ℕ) (db : RegistryDb Float)
      (k : String)
      → IsSettled now db.promotions
      → stage_of spec.experiment_id db.promotions ≡ some current
      → stage_eq spec.from_stage current ≡ true
      → StageFollows
          (stage_of k db.promotions)
          (stage_of k (record_new canonical_sha256 current spec now db).1.promotions)
  unfolding record_new insert_or_ignore
  new-StageFollows current spec now db k settled before from =
      elim (Option-cases (promotion_checks current spec)) [
        | inr (e, refused) ↦ rw (refused) (StageFollows-refl (stage_of k db.promotions))
        | inl passed ↦
            elim (Bool-cases (
              is_some (
                select (λ (p : PromotionRecord). str_eq p.promotion_id (canonical_sha256 spec))
                  db.promotions))) [
                    | inl known ↦ rw (passed, known) (StageFollows-refl (stage_of k db.promotions))
                    | inr new ↦
                        rw (passed, new)
                          (append-StageFollows k (promotion_row (canonical_sha256 spec) spec now)
                            db.promotions settled
                            (λ s mine at.
                              let same : k ≡ spec.experiment_id =
                                sym ((eq_iff spec.experiment_id k).0 mine) in
                              let here : some s ≡ some current =
                                sym at
                                ∙ replayed-agrees
                                    (order_by_time (select_all (promotes k) db.promotions))
                                ∙ ap (λ j. stage_of j db.promotions) same
                                ∙ before in
                              let checked =
                                checked-StageFollows current (canonical_sha256 spec) spec now passed
                                  from in
                              rw (some-injective s current here) checked))
                  ]
      ]

  record-StageFollows :
      (spec : PromotionEventSpec) (now : ℕ) (db : RegistryDb Float) (k : String)
      → IsSettled now db.promotions
      → StageFollows
          (stage_of k db.promotions)
          (stage_of k (record_promotion_event canonical_sha256 spec now db).1.promotions)
  unfolding record_promotion_event recorded_before
  record-StageFollows spec now db k settled =
      elim (Option-cases
        (replayed ResearchStage.discovery (prior_events canonical_sha256 spec.experiment_id db))) [
          | inl bad ↦ ground (arith, StageFollows-refl (stage_of k db.promotions))
          | inr (s, at) ↦ elim (Bool-cases (stage_eq spec.from_stage s)) [
            | inl from ↦ ground (
              arith,
              StageFollows-refl (stage_of k db.promotions),
              new-StageFollows s spec now db k settled
                  (sym (replayed-agrees (prior_events canonical_sha256 spec.experiment_id db)) ∙ at)
                  from,
            )
            | inr other ↦ ground (arith, StageFollows-refl (stage_of k db.promotions))
          ]
        ]

  -- Recording a promotion event, at a time that is not before any event of the registry and whether
  -- or not the call raises, keeps every experiment's history readable: the experiment whose events
  -- led to a stage has events that lead to the same stage, or to one that the table of promotions
  -- allows from it.
  pub record_promotion_event-StageMove :
      (spec : PromotionEventSpec) (now : ℕ) (db : RegistryDb Float) (k : String) {s : ResearchStage}
      → IsSettled now db.promotions
      → stage_of k db.promotions ≡ some s
      → (t : ResearchStage) × (stage_of k
            (record_promotion_event canonical_sha256 spec now db).1.promotions
          ≡ some t)
        × StageMove s t
  record_promotion_event-StageMove spec now db k {s} settled before =
      reached_stage _ (rw (sym before) (record-StageFollows spec now db k settled))
