-- ===== src/Deadline/Scopes.antt =====
-- Deadlines that a scope puts in place, and what runs inside it.
use agent_desktop.Prelude.{
  List, Option, arith, none, some, ℕ, ◌∷◌, ◌≤◌, >>=-eq-ok, [], ok, ok-injective, refl, subst, ◌≡◌,
}
use agent_desktop.Deadline.{
  Deadline, DeadlineScope, drop_scope, effective, enter_scope, min_expiry, under_inherited, after,
  detached_after,
}

-- No later than the deadline in place, where there is one.
unfoldable pub Within : Option Deadline → ℕ → Type 0
Within none t = Unit {0}
Within (some parent) t = t ≤ parent.expires_at

-- As tight as the deadline on the right, where there is one.
unfoldable pub Tightens : Option Deadline → Option Deadline → Type 0
Tightens _ none = Unit {0}
Tightens none (some parent) = ⊥
Tightens (some child) (some parent) = child.expires_at ≤ parent.expires_at

pub Tightens-Within :
    (child parent : Option Deadline) (t : ℕ)
    → Tightens child parent
    → Within child t
    → Within parent t
unfolding Tightens Within
Tightens-Within child none t tight h = tt
Tightens-Within none (some parent) t tight h = absurd tight
Tightens-Within (some child) (some parent) t tight h = omega arith

pub min_expiry_le :
    (d other : Deadline)
    → ((min_expiry d other).expires_at ≤ d.expires_at)
      × ((min_expiry d other).expires_at ≤ other.expires_at)
unfolding min_expiry
min_expiry_le d other = ground arith

pub effective-Tightens :
    (inherited deadline : Option Deadline) → Tightens (effective inherited deadline) inherited
unfolding effective Tightens
effective-Tightens (some parent) (some child) = (min_expiry_le child parent).1
effective-Tightens (some parent) none = omega arith
effective-Tightens none deadline = tt

pub under_inherited-Within :
    (inherited : Option Deadline) (d : Deadline)
    → Within inherited (under_inherited inherited d).expires_at
unfolding Within under_inherited
under_inherited-Within none d = tt
under_inherited-Within (some parent) d = (min_expiry_le d parent).1

-- A thread: the deadline in place, and the guards that are alive, the innermost first.
pub record Thread : Type 0 where
  pub inherited : Option Deadline
  pub guards : List DeadlineScope

-- A guard is made on entry, and only the innermost one is dropped.
pub data Step (t : Thread) : Thread → Type 0 where
  enter :
      (deadline : Option Deadline)
      → Step t (record {
        inherited = (enter_scope t.inherited deadline).0;
        guards = (enter_scope t.inherited deadline).1 ∷ t.guards;
      })
  leave :
      (scope : DeadlineScope) (guards : List DeadlineScope)
      → t.guards ≡ scope ∷ guards
      → Step t (record { inherited = drop_scope scope t.inherited; guards = guards })

pub data Run (s : Thread) : Thread → Type 0 where
  stop : Run s s
  next : {t u : Thread} → Run s t → Step t u → Run s u

abbrev pub no_scope : Thread
no_scope = record { inherited = none; guards = [] }

-- Each guard keeps a deadline that the one inside it tightens.
unfoldable pub Nested : Option Deadline → List DeadlineScope → Type 0
unfolding Tightens
Nested inherited [] = inherited ≡ none
Nested inherited (scope ∷ guards) = Tightens inherited scope.previous × Nested scope.previous guards

Step-Nested : {t u : Thread} → Step t u → Nested t.inherited t.guards → Nested u.inherited u.guards
unfolding Nested drop_scope enter_scope
Step-Nested {t} (enter deadline) h = (effective-Tightens t.inherited deadline, h)
Step-Nested {t} (leave scope guards e) h = (rw e at h).1

Run-Nested : {t : Thread} → Run no_scope t → Nested t.inherited t.guards
unfolding Nested
Run-Nested stop = refl
Run-Nested (next run step) = Step-Nested step (Run-Nested run)

unfoldable pub WithinAll : List DeadlineScope → ℕ → Type 0
unfolding Within
WithinAll [] t = Unit {0}
WithinAll (scope ∷ guards) t = Within scope.previous t × WithinAll guards t

Nested-WithinAll :
    (inherited : Option Deadline) (guards : List DeadlineScope) (t : ℕ)
    → Nested inherited guards
    → Within inherited t
    → WithinAll guards t
unfolding Nested WithinAll
Nested-WithinAll inherited [] t nested h = tt
Nested-WithinAll inherited (scope ∷ guards) t nested h =
    let outer = Tightens-Within inherited scope.previous t nested.0 h in
    (outer, Nested-WithinAll scope.previous guards t nested.1 outer)

after-Within :
    (last : ℕ) (inherited : Option Deadline) (now timeout_ms : ℕ) (d : Deadline)
    → after last inherited now timeout_ms ≡ ok d
    → Within inherited d.expires_at
unfolding after
after-Within last inherited now timeout_ms d e =
    let (own, made, same) = >>=-eq-ok (detached_after last now timeout_ms) _ e in
    subst (λ x. Within inherited x.expires_at) (ok-injective same)
      (under_inherited-Within inherited own)

-- In every state that a thread reaches by entering and dropping scopes, a deadline made by `after`
-- expires no later than the deadline in place, and no later than any that an open scope replaced.
pub after-WithinAll :
    (last : ℕ) (t : Thread) (run : Run no_scope t) (now timeout_ms : ℕ) (d : Deadline)
    → after last t.inherited now timeout_ms ≡ ok d
    → Within t.inherited d.expires_at × WithinAll t.guards d.expires_at
after-WithinAll last t run now timeout_ms d e =
    let h = after-Within last t.inherited now timeout_ms d e in
    (h, Nested-WithinAll t.inherited t.guards d.expires_at (Run-Nested run) h)

-- A thread that has dropped every scope it entered has no deadline in place.
pub no_guards-no_deadline : (t : Thread) → Run no_scope t → t.guards ≡ [] → t.inherited ≡ none
unfolding Nested
no_guards-no_deadline t run e =
    let nested : Nested t.inherited t.guards = Run-Nested run in rw e at nested
