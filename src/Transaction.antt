-- ===== src/Transaction.antt =====
-- Methods that read and write a database and may raise: the context managers
-- `StateStore.transaction` (data/state_store.py) and `ResearchStore.transaction`
-- (research/experiments/store.py).
pub mod Moves
use binance_algo.Base.{
  refl, ◌⊎◌, inl, inr, Bool, true, false, Option, none, some, Result, ok, err, ◌≡◌, arith,
}

abbrev pub Exec {ℓ κ μ} : Type ℓ → Type κ → Type μ → Type (ℓ ⊔ κ ⊔ μ)
Exec Db E A = Db → Result E A × Db

module _ {ℓ κ μ} {Db : Type ℓ} {E : Type κ} {A : Type μ} where
  abbrev pub pure : A → Exec Db E A
  pure a db = (ok a, db)

  abbrev pub raise : E → Exec Db E A
  raise e db = (err e, db)

  abbrev pub gets : (Db → A) → Exec Db E A
  gets f db = (ok (f db), db)

  abbrev pub or_raise : Option A → E → Exec Db E A
  or_raise none e = raise e
  or_raise (some a) e = pure a

  abbrev rolled_back : Db → Result E A × Db → Result E A × Db
  rolled_back db (ok a, after) = (ok a, after)
  rolled_back db (err e, after) = (err e, db)

  abbrev pub caught : (E → Exec Db E A) → Result E A × Db → Result E A × Db
  caught handler (ok a, db) = (ok a, db)
  caught handler (err e, db) = handler e db

  -- `try: body except … as exc: handler`
  abbrev pub try_except : Exec Db E A → (E → Exec Db E A) → Exec Db E A
  try_except body handler db = caught handler (body db)

  -- `BEGIN IMMEDIATE`, the body, and `commit`; `rollback` if the body raises.
  abbrev pub transaction : Exec Db E A → Exec Db E A
  transaction body db = rolled_back db (body db)

abbrev pub modify {ℓ κ} : {Db : Type ℓ} {E : Type κ} → (Db → Db) → Exec Db E (Unit {0})
modify f db = (ok tt, f db)

abbrev pub raise_if {ℓ κ} : {Db : Type ℓ} {E : Type κ} → Bool → E → Exec Db E (Unit {0})
raise_if true e db = (err e, db)
raise_if false e db = (ok tt, db)

infixl 5 ◌>>=◌ ◌>>◌
abbrev pub ◌>>=◌ {ℓ κ μ ν} :
    {Db : Type ℓ} {E : Type κ} {A : Type μ} {B : Type ν}
    → Exec Db E A
    → (A → Exec Db E B)
    → Exec Db E B
◌>>=◌ m f db = let (r, db') = m db in elim r [ ok a ↦ f a db' | err e ↦ (err e, db') ]

abbrev pub ◌>>◌ {ℓ κ μ ν} :
    {Db : Type ℓ} {E : Type κ} {A : Type μ} {B : Type ν} → Exec Db E A → Exec Db E B → Exec Db E B
m >> k = m >>= λ _. k

-- A method that raises has changed nothing.
abbrev pub IsAtomic {ℓ κ μ} :
    {Db : Type ℓ} {E : Type κ} {A : Type μ} → Db → Result E A × Db → Type ℓ
IsAtomic before (ok a, after) = Unit
IsAtomic before (err e, after) = after ≡ before

pub IsAtomic-transaction {ℓ κ μ} :
    {Db : Type ℓ} {E : Type κ} {A : Type μ} (body : Exec Db E A) (db : Db)
    → IsAtomic db (transaction body db)
IsAtomic-transaction body db = ground arith

pub Result-cases {ℓ κ} :
    {E : Type ℓ} {A : Type κ} (r : Result E A) → ((a : A) × (r ≡ ok a)) ⊎ ((e : E) × (r ≡ err e))
Result-cases (ok a) = inl (a, refl)
Result-cases (err e) = inr (e, refl)

pub unchanged {ℓ κ μ} :
    {Db : Type ℓ} {E : Type κ} {A : Type μ} (db : Db) (p : Result E A × Db) {e : E}
    → IsAtomic db p
    → p.0 ≡ err e
    → p.1 ≡ db
unchanged db (ok a, after) atomic raised = ground arith
unchanged db (err e, after) atomic raised = atomic
