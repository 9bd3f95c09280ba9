-- ===== src/Job/State/Logic.antt =====
-- Triples for the monad of packages/orchestrator/src/services/job-service.ts: what holds after a
-- method that returns, after one that throws, and after a chain of calls that ran out of fuel.
use vmcp.Job.State.{World, Outcome, ok, thrown, exhausted, M, ◌>>=◌, bind_outcome}

-- `T` holds after an exception and `E` after the end of the fuel.
module _ (T E : World → Type 0) where
  abbrev pub Post : {A : Type 0} → (A → World → Type 0) → Outcome A → World → Type 0
  Post Q (ok a) w = Q a w
  Post Q (thrown e) w = T w
  Post Q exhausted w = E w

  abbrev pub Triple : {A : Type 0} → (World → Type 0) → M A → (A → World → Type 0) → Type 0
  Triple P m Q = (w : World) → P w → Post Q (m w).0 (m w).1

  Post-bind_outcome :
      {A B : Type 0} (Q : A → World → Type 0) (R : B → World → Type 0) (f : A → M B) (r : Outcome A)
      (w : World)
      → ((a : A) → Triple (Q a) (f a) R)
      → Post Q r w
      → Post R (bind_outcome f r w).0 (bind_outcome f r w).1
  Post-bind_outcome Q R f (ok a) w h p = h a w p
  Post-bind_outcome Q R f (thrown e) w h p = p
  Post-bind_outcome Q R f exhausted w h p = p

  pub triple_bind :
      {A B : Type 0} {P : World → Type 0} (Q : A → World → Type 0) (R : B → World → Type 0)
      (m : M A) (f : A → M B)
      → Triple P m Q
      → ((a : A) → Triple (Q a) (f a) R)
      → Triple P (m >>= f) R
  triple_bind Q R m f first next w p = Post-bind_outcome Q R f (m w).0 (m w).1 next (first w p)
