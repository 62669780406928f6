-- ===== src/Transaction/Moves.antt =====
-- Actions that move a database along a relation, for the workflows of data/writer.py and
-- research/experiments that call several methods of a store.
use binance_algo.Base.{ap, ◌≡◌, Result, ok, err, refl}
use binance_algo.Transaction.{try_except, Exec, ◌>>=◌, caught}

module _ {Db E : Type 0} (R : Db → Db → Type 0) (stays : (db : Db) → R db db)
    (follows : (a b c : Db) → R a b → R b c → R a c) where
  abbrev pub Moves : {A : Type 0} → Exec Db E A → Type 0
  Moves m = (db : Db) → R db (m db).1

  split_bind :
      {A B : Type 0} (f : A → Exec Db E B) (db : Db) (p : Result E A × Db)
      → R db p.1
      → ((a : A) → Moves (f a))
      → R db (((λ (_ : Db). p) >>= f) db).1
  split_bind f db (ok a, after) r h = follows db after (f a after).1 r (h a after)
  split_bind f db (err e, after) r h = r

  pub bind-Moves :
      {A B : Type 0} (m : Exec Db E A) (f : A → Exec Db E B)
      → Moves m
      → ((a : A) → Moves (f a))
      → Moves (m >>= f)
  bind-Moves m f g h db = split_bind f db (m db) (g db) h

  split_try :
      {A : Type 0} (handler : E → Exec Db E A) (db : Db) (p : Result E A × Db)
      → R db p.1
      → ((e : E) → Moves (handler e))
      → R db (caught handler p).1
  split_try handler db (ok a, after) r h = r
  split_try handler db (err e, after) r h = follows db after (handler e after).1 r (h e after)

  pub try_except-Moves :
      {A : Type 0} (body : Exec Db E A) (handler : E → Exec Db E A)
      → Moves body
      → ((e : E) → Moves (handler e))
      → Moves (try_except body handler)
  try_except-Moves body handler b h db = split_try handler db (body db) (b db) h

module _ {Db E A B : Type 0} (P : Result E B × Db → Type 0) where
  split :
      (p : Result E A × Db) (f : A → Exec Db E B)
      → ((a : A) → p.0 ≡ ok a → P (f a p.1))
      → ((e : E) → p.0 ≡ err e → P (err e, p.1))
      → P (((λ (_ : Db). p) >>= f) p.1)
  split (ok a, db) f returned raised = returned a refl
  split (err e, db) f returned raised = raised e refl

  -- What holds after a first action and what follows it, by what the first gives.
  pub bind-cases :
      (m : Exec Db E A) (f : A → Exec Db E B) (db : Db)
      → ((a : A) → (m db).0 ≡ ok a → P (f a (m db).1))
      → ((e : E) → (m db).0 ≡ err e → P (err e, (m db).1))
      → P ((m >>= f) db)
  bind-cases m f db = split (m db) f

-- A first action that returns, by what it gives.
pub bind-eq {ℓ κ μ ν} :
    {Db : Type ℓ} {E : Type κ} {A : Type μ} {B : Type ν} (m : Exec Db E A) (f : A → Exec Db E B)
    (db : Db) {a : A} {db' : Db}
    → m db ≡ (ok a, db')
    → (m >>= f) db ≡ f a db'
bind-eq m f db e = ap (λ p. ((λ (_ : _). p) >>= f) db) e
