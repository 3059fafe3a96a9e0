-- ===== src/Store/Db.antt =====
-- The database: its tables, and how a statement runs against them
-- (server/internal/store, the calls of `pool.QueryRow`, `pool.Exec` and `pool.Begin`).
--
-- Each statement meets the next entry of `faults`: true makes it fail with a driver error that
-- changes no table. Where the list is at its end no statement fails. A transaction that fails
-- leaves the tables as they were.
use kubby.Prelude.{
  ℕ, zero, suc, ◌<◌, ◌≡◌, refl, ◌⊎◌, inl, inr, Bool, true, false, Option, none, some, List, [], ◌∷◌,
  ◌++◌, arith, if◌then◌else◌, Bool-cases, any, All,
}
use kubby.Store.Models.{User, Session, RecoveryCode, AuditEvent, SettingRow, SecretRow}
use kubby.Store.Registry.{Cluster, CredentialRow, GrantRow}

pub data Error : Type 0 where
  not_found email_in_use setup_complete cluster_name_in_use database : Error

pub data Result (A : Type 0) : Type 0 where
  ok : A → Result A
  err : Error → Result A

pub record Db : Type 0 where
  pub users : List User
  pub sessions : List Session
  pub codes : List RecoveryCode
  pub clusters : List Cluster
  pub credentials : List CredentialRow
  pub grants : List GrantRow
  pub events : List AuditEvent
  pub settings : List SettingRow
  pub secrets : List SecretRow
  pub faults : List Bool

abbrev pub Query : Type 0 → Type 0
Query A = Db → Result A × Db

abbrev pub pure : {A : Type 0} → A → Query A
pure a db = (ok a, db)

abbrev pub fail : {A : Type 0} → Error → Query A
fail e db = (err e, db)

infixl 5 ◌>>=◌ ◌>>◌
abbrev pub ◌>>=◌ : {A B : Type 0} → Query A → (A → Query B) → Query B
◌>>=◌ m f db = let (r, db') = m db in elim r [ ok a ↦ f a db' | err e ↦ (err e, db') ]

abbrev pub ◌>>◌ : {B : Type 0} → Query (Unit {0}) → Query B → Query B
m >> k = m >>= λ _. k

abbrev pub next_fault : List Bool → Bool
next_fault [] = false
next_fault (f ∷ fs) = f

abbrev pub other_faults : List Bool → List Bool
other_faults [] = []
other_faults (f ∷ fs) = fs

-- One statement: a driver error, or its effect on the tables.
abbrev pub statement : {A : Type 0} → Query A → Query A
statement body db =
    let db' = record db { faults = other_faults db.faults } in
    if next_fault db.faults then (err database, db') else body db'

-- After a statement: the fault that it met is used up.
abbrev pub tick : Db → Db
tick db = record db { faults = other_faults db.faults }

-- `Commit` behind a body that succeeded, and the deferred `Rollback` otherwise.
abbrev pub settle : {A : Type 0} → Db → Result A × Db → Result A × Db
settle old (ok a, new) =
    if next_fault new.faults
    then (err database, record old { faults = other_faults new.faults })
    else (ok a, tick new)
settle old (err e, new) = (err e, record old { faults = new.faults })

-- `Begin`, the body, and how it ends.
abbrev pub transaction : {A : Type 0} → Query A → Query A
transaction body db =
    if next_fault db.faults then (err database, tick db) else settle db (body (tick db))

module _ {A : Type 0} where
  -- The first row that satisfies the condition.
  abbrev pub find : (A → Bool) → List A → Option A
  find p [] = none
  find p (x ∷ xs) = let rest = find p xs in if p x then some x else rest

  -- UPDATE … SET … WHERE …
  abbrev pub update_where : (A → Bool) → (A → A) → List A → List A
  update_where p f [] = []
  update_where p f (x ∷ xs) = (if p x then f x else x) ∷ update_where p f xs

  -- DELETE … WHERE …
  abbrev pub delete_where : (A → Bool) → List A → List A
  delete_where p [] = []
  delete_where p (x ∷ xs) = let rest = delete_where p xs in if p x then rest else x ∷ rest

  -- SELECT … WHERE …
  abbrev pub select : (A → Bool) → List A → List A
  select p [] = []
  select p (x ∷ xs) = let rest = select p xs in if p x then x ∷ rest else rest

  -- The count of rows that a condition selects, `RowsAffected` of an update.
  abbrev pub count_where : (A → Bool) → List A → ℕ
  count_where p [] = 0
  count_where p (x ∷ xs) = let rest = count_where p xs in if p x then suc rest else rest

-- What holds after a call: the new value if it succeeded, and otherwise the old.
abbrev pub settled : {A B : Type 0} → Result A → B → B → B
settled (ok a) new old = new
settled (err e) new old = old

pub Result-cases :
    {A : Type 0} (r : Result A) → ((a : A) × (r ≡ ok a)) ⊎ ((e : Error) × (r ≡ err e))
Result-cases (ok a) = inl (a, refl)
Result-cases (err e) = inr (e, refl)

abbrev pub or_not_found : {A : Type 0} → Option A → Result A
or_not_found none = err not_found
or_not_found (some a) = ok a

-- `if tag.RowsAffected() == 0 { return ErrNotFound }`
abbrev pub affected : ℕ → Result (Unit {0})
affected zero = err not_found
affected (suc n) = ok tt

module _ {A : Type 0} where
  pub find-holds : (p : A → Bool) (xs : List A) {a : A} → find p xs ≡ some a → p a ≡ true
  find-holds p [] h = cc
  find-holds p (x ∷ xs) {a} h = elim (Bool-cases (p x)) [
    | inl e ↦ let same : x ≡ a = ground (arith, e, h) in rw (← same) e
    | inr e ↦ find-holds p xs (rw e at h)
  ]

  pub All-find :
      (P : A → Type 0) (p : A → Bool) (xs : List A) {a : A} → All P xs → find p xs ≡ some a → P a
  All-find P p [] k h = cc
  All-find P p (x ∷ xs) {a} k h = elim (Bool-cases (p x)) [
    | inl e ↦ let same : x ≡ a = ground (arith, e, h) in rw (← same) k.0
    | inr e ↦ All-find P p xs k.1 (rw e at h)
  ]

  pub find-delete_where : (p : A → Bool) (xs : List A) → find p (delete_where p xs) ≡ none
  find-delete_where p [] = refl
  find-delete_where p (x ∷ xs) = ground (arith, find-delete_where p xs)

  pub update_where-none :
      (p : A → Bool) (f : A → A) (xs : List A) → any p xs ≡ false → update_where p f xs ≡ xs
  update_where-none p f [] h = refl
  update_where-none p f (x ∷ xs) h = ground (arith, update_where-none p f xs)

  find-any : (p : A → Bool) (xs : List A) {a : A} → find p xs ≡ some a → any p xs ≡ true
  find-any p [] h = cc
  find-any p (x ∷ xs) {a} h = ground (arith, find-any p xs {a = a})

  pub count_where-pos :
      (p : A → Bool) (xs : List A) {a : A} → find p xs ≡ some a → 0 < count_where p xs
  count_where-pos p [] h = cc
  count_where-pos p (x ∷ xs) {a} h = ground (arith, count_where-pos p xs {a = a})

  pub All-update_where :
      (P : A → Type 0) (p : A → Bool) (f : A → A)
      → ((a : A) → p a ≡ true → P (f a))
      → ((a : A) → p a ≡ false → P a)
      → (xs : List A) → All P (update_where p f xs)
  All-update_where P p f yes_case no_case [] = tt
  All-update_where P p f yes_case no_case (x ∷ xs) = elim (Bool-cases (p x)) [
    | inl e ↦ rw e (yes_case x e, All-update_where P p f yes_case no_case xs)
    | inr e ↦ rw e (no_case x e, All-update_where P p f yes_case no_case xs)
  ]

  -- The rows that are searched first decide; the others matter where none of them fits.
  pub find-append_none :
      (p : A → Bool) (xs ys : List A) → any p xs ≡ false → find p (xs ++ ys) ≡ find p ys
  find-append_none p [] ys h = refl
  find-append_none p (x ∷ xs) ys h = ground (arith, find-append_none p xs ys)

  find-append_some :
      (p : A → Bool) (xs ys : List A) → any p xs ≡ true → find p (xs ++ ys) ≡ find p xs
  find-append_some p [] ys h = cc
  find-append_some p (x ∷ xs) ys h = ground (arith, find-append_some p xs ys)

-- What a committed transaction did is what its body did.
transaction-ok :
    {A : Type 0} (body : Query A) (db : Db) {a : A}
    → (transaction body db).0 ≡ ok a
    → ((body (tick db)).0 ≡ ok a) × ((transaction body db).1 ≡ tick (body (tick db)).1)
transaction-ok body db h = ground arith
