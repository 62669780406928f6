-- ===== src/Registry/OutputsKept.antt =====
-- That outputs are kept, for the ways in which research/experiments/store.py composes a method.
use binance_algo.Base.{Result, ◌≡◌, Bool, true, false, Option, none, some, ok, err}
use binance_algo.Registry.Permanent.{
  same-OutputsKept, OutputsKept-trans, OutputsKept-refl, OutputsKept,
}
use binance_algo.Transaction.{modify, transaction, raise_if, ◌>>=◌, or_raise}
use binance_algo.Registry.Schema.{RegistryError, RegistryDb}
use binance_algo.Registry.Runs.{Action}

module _ {Float : Type 0} where
  -- A method that keeps the outputs.
  abbrev pub Keeps : {A : Type 0} → Action Float A → Type 0
  Keeps m = (db : RegistryDb Float) → OutputsKept db (m db).1

  pub reads-Keeps :
      {A : Type 0} (m : Action Float A) → ((db : RegistryDb Float) → (m db).1 ≡ db) → Keeps m
  reads-Keeps m same db = rw (same db) (OutputsKept-refl db)

  pub raise_if-Keeps : (b : Bool) (e : RegistryError) → Keeps {A = Unit {0}} (raise_if b e)
  raise_if-Keeps true e db = OutputsKept-refl db
  raise_if-Keeps false e db = OutputsKept-refl db

  pub or_raise-Keeps :
      {A : Type 0} (o : Option A) (e : RegistryError) → Keeps {A = A} (or_raise o e)
  or_raise-Keeps none e db = OutputsKept-refl db
  or_raise-Keeps (some a) e db = OutputsKept-refl db

  split_bind :
      {A B : Type 0} (f : A → Action Float B) (db : RegistryDb Float)
      (p : Result RegistryError A × RegistryDb Float)
      → OutputsKept db p.1
      → ((a : A) → Keeps (f a))
      → OutputsKept db (((λ (_ : RegistryDb Float). p) >>= f) db).1
  split_bind f db (ok a, after) r h = OutputsKept-trans db after (f a after).1 r (h a after)
  split_bind f db (err e, after) r h = r

  pub bind-Keeps :
      {A B : Type 0} (m : Action Float A) (f : A → Action Float B)
      → Keeps m
      → ((a : A) → Keeps (f a))
      → Keeps (m >>= f)
  bind-Keeps m f g h db = split_bind f db (m db) (g db) h

  split_transaction :
      {A : Type 0} (db : RegistryDb Float) (p : Result RegistryError A × RegistryDb Float)
      → OutputsKept db p.1
      → OutputsKept db (transaction (λ (_ : RegistryDb Float). p) db).1
  split_transaction db (ok a, after) r = r
  split_transaction db (err e, after) r = OutputsKept-refl db

  pub transaction-Keeps : {A : Type 0} (m : Action Float A) → Keeps m → Keeps (transaction m)
  transaction-Keeps m g db = split_transaction db (m db) (g db)

  -- A change of other tables.
  pub modify-Keeps :
      (f : RegistryDb Float → RegistryDb Float)
      → ((db : RegistryDb Float) → (f db).metrics ≡ db.metrics)
      → ((db : RegistryDb Float) → (f db).artifacts ≡ db.artifacts)
      → Keeps {A = Unit {0}} (modify f)
  modify-Keeps f metrics artifacts db = same-OutputsKept db (f db) (metrics db) (artifacts db)
