-- ===== src/Store/Users/Lockout.antt =====
-- The progressive lockout of server/internal/store/users.go: what a run of failed sign-ins makes of
-- an account.
use kubby.Prelude.{
  ℕ, ◌+◌, ◌*◌, ◌<◌, ◌≡◌, refl, sym, ap, ◌∙◌, inl, inr, ◌&&◌, ◌||◌, not, none, List, [], ◌∷◌, arith,
  leb, leb→le, leb→gt, le→leb, gt→leb, Bool-cases, length,
}
use kubby.Rbac.{is_admin}
use kubby.Store.Models.{User, Time, Duration, is_blocked, is_locked}
use kubby.Store.Users.{failed_login}

-- A failed sign-in: the time at which it is recorded and the length of the lockout that it may start.
abbrev pub Attempt : Type 0
Attempt = Time × Duration

-- Failed sign-ins in their order, with no successful one between them.
abbrev pub fail_all : ℕ → ℕ → List Attempt → User → User
fail_all max_attempts max_lockouts [] u = u
fail_all max_attempts max_lockouts ((now, lock_for) ∷ rest) u =
    fail_all max_attempts max_lockouts rest (failed_login max_attempts lock_for max_lockouts now u)

-- Counting in rounds of `m`: a number of whole rounds is reached when that many steps are.
leb-rounds : (m k l f : ℕ) → f < m → leb k l ≡ leb (k * m) (l * m + f)
leb-rounds m k l f h = elim (Bool-cases (leb k l)) [
  | inl e ↦ e ∙ sym (le→leb (k * m) (l * m + f) (grind (arith, leb→le k l e)))
  | inr e ↦ e ∙ sym (gt→leb (k * m) (l * m + f) (rounds_mono (leb→gt k l e)))
]
  where
    rounds_mono : l < k → l * m + f < k * m
    rounds_mono lt = grind arith

module _ (max_attempts max_lockouts : ℕ) where
  abbrev fail : Time → Duration → User → User
  fail now lock_for = failed_login max_attempts lock_for max_lockouts now

  -- The failures that the two counters stand for.
  abbrev pub failures : User → ℕ
  failures u = u.lockout_count * max_attempts + u.failed_login_count

  failures-fail :
      (now : Time) (lock_for : Duration) (u : User)
      → u.failed_login_count < max_attempts
      → failures (fail now lock_for u) ≡ failures u + 1
  unfolding failed_login
  failures-fail now lock_for u h = elim (Bool-cases (leb max_attempts (u.failed_login_count + 1))) [
    | inl e ↦ rw e (omega (arith, leb→le max_attempts (u.failed_login_count + 1) e))
    | inr e ↦ rw e (omega arith)
  ]

  -- The counter of attempts is below its limit, and an account is blocked exactly if it has used
  -- up its lockouts and is no administrator's.
  abbrev pub IsSettled : User → Type 0
  IsSettled u =
      (u.failed_login_count < max_attempts)
      × (is_blocked u ≡ (leb max_lockouts u.lockout_count && not (is_admin u.role)))

  fail-IsSettled :
      (now : Time) (lock_for : Duration) (u : User)
      → 0 < max_attempts
      → 0 < max_lockouts
      → IsSettled u
      → IsSettled (fail now lock_for u)
  unfolding failed_login is_blocked
  fail-IsSettled now lock_for u some_attempts some_lockouts h = ground arith

  role-fail : (now : Time) (lock_for : Duration) (u : User) → (fail now lock_for u).role ≡ u.role
  unfolding failed_login
  role-fail now lock_for u = refl

  fail_all_counts :
      (attempts : List Attempt) (u : User)
      → 0 < max_attempts
      → 0 < max_lockouts
      → IsSettled u
      → IsSettled (fail_all max_attempts max_lockouts attempts u)
        × (failures (fail_all max_attempts max_lockouts attempts u) ≡ failures u + length attempts)
        × ((fail_all max_attempts max_lockouts attempts u).role ≡ u.role)
  fail_all_counts [] u p q h = (h, omega arith, refl)
  fail_all_counts ((now, lock_for) ∷ rest) u p q h =
      let (settled, counted, same) =
        fail_all_counts rest (fail now lock_for u) p q (fail-IsSettled now lock_for u p q h) in
      (
        settled,
        omega (arith, counted, failures-fail now lock_for u h.0),
        same ∙ role-fail now lock_for u,
      )

  -- After any number of failed sign-ins in a row from a state with no failures, an account is
  -- blocked exactly if it is no administrator's and the failures are at least the attempts of a
  -- lockout times the lockouts allowed; its counters stand for that number of failures.
  pub blocked-fail_all :
      (attempts : List Attempt) (u : User)
      → 0 < max_attempts
      → 0 < max_lockouts
      → u.failed_login_count ≡ 0
      → u.lockout_count ≡ 0
      → u.blocked_at ≡ none
      → (is_blocked (fail_all max_attempts max_lockouts attempts u)
          ≡ (leb (max_lockouts * max_attempts) (length attempts) && not (is_admin u.role)))
        × (failures (fail_all max_attempts max_lockouts attempts u) ≡ length attempts)
  unfolding is_blocked
  blocked-fail_all attempts u p q none_failed none_locked unblocked =
      let start : IsSettled u = ground arith in
      let (settled, counted, same) = fail_all_counts attempts u p q start in
      let total : failures (fail_all max_attempts max_lockouts attempts u) ≡ length attempts =
        counted ∙ (rw (none_failed, none_locked) (omega arith)) in
      (
        settled.1
            ∙ rw same (
                ap (λ b. b && not (is_admin u.role))
                  (leb-rounds max_attempts max_lockouts _ _ settled.0
                    ∙ ap (leb (max_lockouts * max_attempts)) total)),
        total,
      )

  -- Right after a failed sign-in that could start a lockout of some length, the account is locked
  -- exactly if that attempt reached the limit, or it was locked already.
  locked-failed_login :
      (now : Time) (lock_for : Duration) (u : User)
      → 0 < lock_for
      → (is_locked (failed_login max_attempts lock_for max_lockouts now u) now
          ≡ (leb max_attempts (u.failed_login_count + 1) || is_locked u now))
  unfolding failed_login is_locked
  locked-failed_login now lock_for u h = ground arith
