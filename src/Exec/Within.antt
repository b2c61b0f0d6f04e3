-- ===== src/Exec/Within.antt =====
-- What an action does to the state, whatever it returns, step by step.
use respawn.Base.{inl, inr}
use respawn.Errors.{Result, Result-cases}
use respawn.Exec.{Exec, lift, reads, ◌>>=◌}

-- The state before and the state after are related.
pub record Within {S : Type 0} (R : S → S → Type 0) {A : Type 0} (m : Exec S A) : Type 0 where
  pub at : (s : S) → R s (m s).1

pub record IsPreorder {S : Type 0} (R : S → S → Type 0) : Type 0 where
  pub same : (s : S) → R s s
  pub trans : {s t u : S} → R s t → R t u → R s u

module _ {S : Type 0} {R : S → S → Type 0} (o : IsPreorder R) where
  pub Within-bind :
      {A B : Type 0} {m : Exec S A} {f : A → Exec S B}
      → Within R m
      → ((a : A) → Within R (f a))
      → Within R (m >>= f)
  Within-bind {m} {f} first next = record {
    at = λ s. elim (Result-cases (m s).0) [
      | inl (a, p) ↦ rw p (o.trans (first.at s) ((next a).at (m s).1))
      | inr (e, p) ↦ rw p (first.at s)
    ];
  }

  pub Within-lift : {A : Type 0} (r : Result A) → Within R (lift {S = S} r)
  Within-lift r = record { at = λ s. o.same s }

  pub Within-reads : {A : Type 0} (f : S → Result A) → Within R (reads f)
  Within-reads f = record { at = λ s. o.same s }
