-- ===== src/Store/Flow.antt =====
-- Go code over the database that may return early (server/internal/cluster/service.go and the handlers
-- of server/internal/httpapi): a call goes on with a value, or stops with an error or a reply.
use kubby.Prelude.{◌≡◌, refl, ◌⊎◌, inl, inr, Bool, true, false}
use kubby.Store.Db.{Db, Query, Error}
use kubby.Store.Db

pub data Flow (E A : Type 0) : Type 0 where
  go : A → Flow E A
  stop : E → Flow E A

abbrev pub Call : Type 0 → Type 0 → Type 0
Call E A = Db → Flow E A × Db

abbrev pub pure : {E A : Type 0} → A → Call E A
pure a db = (go a, db)

abbrev pub leave : {E A : Type 0} → E → Call E A
leave e db = (stop e, db)

infixl 5 ◌>>=◌ ◌>>◌
abbrev pub ◌>>=◌ : {E A B : Type 0} → Call E A → (A → Call E B) → Call E B
◌>>=◌ m f db = let (r, db') = m db in elim r [ go a ↦ f a db' | stop e ↦ (stop e, db') ]

abbrev pub ◌>>◌ : {E B : Type 0} → Call E (Unit {0}) → Call E B → Call E B
m >> k = m >>= λ _. k

abbrev pub answer : {E A : Type 0} → (Error → E) → Db.Result A → Flow E A
answer on_error (Db.ok a) = go a
answer on_error (Db.err e) = stop (on_error e)

-- A repository call whose error ends the call.
abbrev pub run : {E A : Type 0} → (Error → E) → Query A → Call E A
run on_error q db = let (r, db') = q db in (answer on_error r, db')

-- A repository call whose error is ignored: `_ = …`.
abbrev pub attempt : {E A : Type 0} → Query A → Call E (Unit {0})
attempt q db = (go tt, (q db).1)

abbrev translated : {E F A : Type 0} → (E → F) → Flow E A → Flow F A
translated f (go a) = go a
translated f (stop e) = stop (f e)

-- A call whose error is turned into the caller's own.
abbrev pub under : {E F A : Type 0} → (E → F) → Call E A → Call F A
under f m db = let (r, db') = m db in (translated f r, db')

abbrev pub refuse_if : {E : Type 0} → Bool → E → Call E (Unit {0})
refuse_if true e = leave e
refuse_if false e = pure tt

abbrev pub when : {E : Type 0} → Bool → Call E (Unit {0}) → Call E (Unit {0})
when true m = m
when false m = pure tt

-- To split on how a call ended.
pub Flow-cases : {E A : Type 0} (r : Flow E A) → ((a : A) × (r ≡ go a)) ⊎ ((e : E) × (r ≡ stop e))
Flow-cases (go a) = inl (a, refl)
Flow-cases (stop e) = inr (e, refl)
