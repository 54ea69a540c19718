-- ===== src/Teardown/Clients.antt =====
-- The clients that the teardown dials: of each address, how many dials of a trace succeeded and how
-- many clients were closed; and what an action does to the difference.
pub mod Steady
pub mod Dialogs
pub mod Whole
use cluster_api_runtime_exte.Base.{
  ℕ, ◌+◌, String, ◌≡◌, refl, Bool, true, false, Option, none, some, [], ◌∷◌, ◌++◌, arith, ◌==◌,
  string_eq, nat_eq, if◌then◌else◌,
}
use cluster_api_runtime_exte.Base.Lists.{All}
use cluster_api_runtime_exte.Teardown.Effect.{
  Error, Result, ok, err, Call, dial, close, Trace, World, Exec, pure, raise, this, cases, continue,
  resume, handle, ◌>>=◌,
}
use cluster_api_runtime_exte.Teardown.Api.{Machine}

-- 1 for the address itself.
abbrev pub one : String → String → ℕ
one address a = if address == a then 1 else 0

-- The dials of an address that succeeded.
unfoldable pub opened : String → Trace → ℕ
opened a [] = 0
opened a (dial address true ∷ t) = one address a + opened a t
opened a (_ ∷ t) = opened a t

-- The clients of an address that were closed.
unfoldable pub closed : String → Trace → ℕ
closed a [] = 0
closed a (close address ∷ t) = one address a + closed a t
closed a (_ ∷ t) = closed a t

module _ (a : String) where
  -- From `j` open clients of the address at first to `o` at last.
  abbrev pub Balance : ℕ → ℕ → World → World → Type 0
  Balance j o w w' =
      opened a w'.trace + (closed a w.trace + j) ≡ opened a w.trace + (closed a w'.trace + o)

  abbrev pub left_open : {A : Type 0} → (A → ℕ) → ℕ → Result A → ℕ
  left_open k e (ok x) = k x
  left_open k e (err _) = e

  -- An action that finds `j` clients open leaves `k x` of them on a return of `x`, and `e` on an error.
  pub record Flow {A : Type 0} (j : ℕ) (m : Exec A) (k : A → ℕ) (e : ℕ) : Type 0 where
    pub flows : (w : World) → Balance j (left_open k e (m w).0) w (m w).1

  module _ {A : Type 0} {k : A → ℕ} {e : ℕ} where
    pub Flow-pure : (x : A) → Flow (k x) (pure x) k e
    unfolding pure
    Flow-pure x = record { flows = λ w. refl }

    pub Flow-raise : (x : Error) → Flow e (raise {A = A} x) k e
    unfolding raise
    Flow-raise x = record { flows = λ w. refl }

    pub Flow-if :
        {j : ℕ} (b : Bool) (m n : Exec A)
        → Flow j m k e
        → Flow j n k e
        → Flow j (if b then m else n) k e
    Flow-if true m n p q = p
    Flow-if false m n p q = q

    pub Flow-cases :
        {B : Type 0} {j : B → ℕ} {i : ℕ} (o : Option B) (f : B → Exec A) (n : Exec A)
        → ((b : B) → Flow (j b) (f b) k e)
        → Flow i n k e
        → Flow (cases o j i) (cases o f n) k e
    Flow-cases none f n p q = q
    Flow-cases (some b) f n p q = p b

    pub Flow-this :
        {j : ℕ} (f : Machine → Exec A)
        → ((x : Machine) → Flow j (f x) k e)
        → Flow j (this >>= f) k e
    unfolding ◌>>=◌
    Flow-this f p = record { flows = λ w. (p w.machine).flows w }

  chain : (j i o : ℕ) (w v u : World) → Balance j i w v → Balance i o v u → Balance j o w u
  chain j i o w v u h k = ground arith

  module _ {A B : Type 0} (m : Exec A) (f : A → Exec B) where
    after_continue :
        (j e : ℕ) (k : A → ℕ) (l : B → ℕ) (x : Result A) (w v : World)
        → Balance j (left_open k e x) w v
        → ((y : A) → Flow (k y) (f y) l e)
        → Balance j (left_open l e (continue x f v).0) w (continue x f v).1
    after_continue j e k l (ok y) w v h q =
        chain j (k y) (left_open l e (f y v).0) w v (f y v).1 h ((q y).flows v)
    after_continue j e k l (err x) w v h q = h

    pub Flow-bind :
        {j e : ℕ} {k : A → ℕ} {l : B → ℕ}
        → Flow j m k e
        → ((y : A) → Flow (k y) (f y) l e)
        → Flow j (m >>= f) l e
    unfolding ◌>>=◌
    Flow-bind {j} {e} {k} {l} p q = record {
      flows = λ w. after_continue j e k l (m w).0 w (m w).1 (p.flows w) q;
    }

    module _ (g : Error → Exec B) where
      after_resume :
          (j i e : ℕ) (k : A → ℕ) (l : B → ℕ) (x : Result A) (w v : World)
          → Balance j (left_open k i x) w v
          → ((y : A) → Flow (k y) (f y) l e)
          → ((y : Error) → Flow i (g y) l e)
          → Balance j (left_open l e (resume x f g v).0) w (resume x f g v).1
      after_resume j i e k l (ok y) w v h q s =
          chain j (k y) (left_open l e (f y v).0) w v (f y v).1 h ((q y).flows v)
      after_resume j i e k l (err y) w v h q s =
          chain j i (left_open l e (g y v).0) w v (g y v).1 h ((s y).flows v)

      pub Flow-handle :
          {j i e : ℕ} {k : A → ℕ} {l : B → ℕ}
          → Flow j m k i
          → ((y : A) → Flow (k y) (f y) l e)
          → ((y : Error) → Flow i (g y) l e)
          → Flow j (handle m f g) l e
      unfolding handle
      Flow-handle {j} {i} {e} {k} {l} p q s = record {
        flows = λ w. after_resume j i e k l (m w).0 w (m w).1 (p.flows w) q s;
      }
