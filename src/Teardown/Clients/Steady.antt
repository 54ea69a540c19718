-- ===== src/Teardown/Clients/Steady.antt =====
-- Actions that leave the number of open clients as it is, and those that dial or close one.
use cluster_api_runtime_exte.Base.{
  ℕ, ◌+◌, String, ◌≡◌, refl, Bool, Option, none, some, [], ◌∷◌, ◌++◌, arith, string_eq, nat_eq,
  if◌then◌else◌,
}
use cluster_api_runtime_exte.Base.Dict.{Dict}
use cluster_api_runtime_exte.Base.Lists.{All}
use cluster_api_runtime_exte.Teardown.Api.{Machine}
use cluster_api_runtime_exte.Teardown.Effect.{
  Error, Result, ok, err, Call, dial, close, Trace, World, Exec, Config, pure, push, outcome,
  succeeded, raise, this, cases, closing, tell, handle, ◌>>=◌,
}
use cluster_api_runtime_exte.Teardown.Effect.Pushes.{Pushes, IsLocal}
use cluster_api_runtime_exte.Teardown.Controller.{Reconciler, patch_annotations, send}
use cluster_api_runtime_exte.Teardown.EtcdPhase.{dial_node}
use cluster_api_runtime_exte.Teardown.Clients.{
  one, opened, closed, Balance, left_open, Flow, Flow-pure, Flow-raise, Flow-if, Flow-this,
  Flow-bind, Flow-handle,
}

-- A call that is neither a dial nor a close.
abbrev pub IsCallOnly : Call → Type 0
IsCallOnly (dial _ _) = ⊥
IsCallOnly (close _) = ⊥
IsCallOnly _ = Unit

IsLocal-IsCallOnly : (c : Call) → IsLocal c → IsCallOnly c
IsLocal-IsCallOnly (dial _ _) h = h
IsLocal-IsCallOnly (close _) h = h
IsLocal-IsCallOnly _ h = tt

All-IsCallOnly : (t : Trace) → All IsLocal t → All IsCallOnly t
All-IsCallOnly [] h = tt
All-IsCallOnly (c ∷ t) (h, k) = (IsLocal-IsCallOnly c h, All-IsCallOnly t k)

pub Pushes-IsCallOnly : {A : Type 0} {m : Exec A} → Pushes IsLocal m → Pushes IsCallOnly m
Pushes-IsCallOnly p = record { new = λ w. let (t, h, e) = p.new w in (t, All-IsCallOnly t h, e) }

module _ (a : String) where
  opened-cons : (c : Call) (t : Trace) → IsCallOnly c → opened a (c ∷ t) ≡ opened a t
  unfolding opened
  opened-cons (dial _ _) t h = absurd h
  opened-cons _ t h = refl

  closed-cons : (c : Call) (t : Trace) → IsCallOnly c → closed a (c ∷ t) ≡ closed a t
  unfolding closed
  closed-cons (close _) t h = absurd h
  closed-cons _ t h = refl

  opened-append : (new t : Trace) → All IsCallOnly new → opened a (new ++ t) ≡ opened a t
  opened-append [] t h = refl
  opened-append (c ∷ new) t (h, k) = rw (opened-cons c (new ++ t) h) (opened-append new t k)

  closed-append : (new t : Trace) → All IsCallOnly new → closed a (new ++ t) ≡ closed a t
  closed-append [] t h = refl
  closed-append (c ∷ new) t (h, k) = rw (closed-cons c (new ++ t) h) (closed-append new t k)

  pub same_left : {A : Type 0} (j : ℕ) (x : Result A) → left_open a (λ _. j) j x ≡ j
  same_left j (ok _) = refl
  same_left j (err _) = refl

  pub Flow-Pushes : {A : Type 0} {m : Exec A} (j : ℕ) → Pushes IsCallOnly m → Flow a j m (λ _. j) j
  Flow-Pushes {m} j p = record {
    flows = λ w.
        let (t, h, e) = p.new w in
        rw (e, same_left j (m w).0, opened-append t w.trace h, closed-append t w.trace h) refl;
  }

  module _ (r : Reconciler) where
    send-Flow : (j : ℕ) (annotations : Dict String) → Flow a j (send r annotations) (λ _. j) j
    unfolding send tell opened closed
    send-Flow j annotations = record { flows = λ w. ground arith }

    pub Flow-patch :
        (j : ℕ) (f : Dict String → Option (Dict String))
        → Flow a j (patch_annotations r f) (λ _. j) j
    unfolding patch_annotations
    Flow-patch j f = record {
      flows = λ w. patched w (r.env.new_patch_helper w.trace w.machine) (f w.machine.annotations);
    }
      where
        patched :
            (w : World) (e : Option Error) (o : Option (Dict String))
            → let (x, v) =
                cases {B = Result (Unit {0}) × World} e
                  (λ e'. (err e', w))
                  (cases o (λ annotations. send r annotations w) (ok tt, w)) in
              Balance a j (left_open a (λ _. j) j x) w v
        patched w (some e) o = refl
        patched w none none = refl
        patched w none (some annotations) = (send-Flow j annotations).flows w

    pub Flow-dial :
        (j : ℕ) (cfg : Config) (address : String)
        → Flow a j (dial_node r cfg address) (λ _. one address a + j) j
    unfolding tell opened closed
    Flow-dial j cfg address = record { flows = λ w. dialed w (r.env.dial_node w.trace cfg address) }
      where
        dialed :
            (w : World) (e : Option Error)
            → Balance a j
                (left_open a (λ (_ : Unit {0}). one address a + j) j (outcome e))
                w
                (push (dial address (succeeded e)) w)
        dialed w none = ground arith
        dialed w (some e) = refl

  pub Flow-closing :
      {A : Type 0} (j : ℕ) (address : String) (m : Exec A)
      → Flow a (one address a + j) m (λ _. one address a + j) (one address a + j)
      → Flow a (one address a + j) (closing address m) (λ _. j) j
  unfolding closing opened closed
  Flow-closing {A} j address m p = record { flows = λ w. shut (m w).0 w (m w).1 (p.flows w) }
    where
      shut :
          (x : Result A) (w v : World)
          → Balance a
              (one address a + j)
              (left_open a (λ _. one address a + j) (one address a + j) x)
              w
              v
          → Balance a (one address a + j) (left_open a (λ _. j) j x) w (push (close address) v)
      shut (ok x) w v h = ground arith
      shut (err x) w v h = ground arith

  -- It leaves as many clients open as it finds.
  pub record Steady {A : Type 0} (m : Exec A) : Type 0 where
    pub flow : (j : ℕ) → Flow a j m (λ _. j) j

  module _ {A : Type 0} where
    pub Steady-pure : (x : A) → Steady (pure x)
    Steady-pure x = record { flow = λ j. Flow-pure a x }

    pub Steady-raise : (e : Error) → Steady (raise {A = A} e)
    Steady-raise e = record { flow = λ j. Flow-raise a e }

    pub Steady-if : (b : Bool) (m n : Exec A) → Steady m → Steady n → Steady (if b then m else n)
    Steady-if b m n p q = record { flow = λ j. Flow-if a b m n (p.flow j) (q.flow j) }

    pub Steady-cases :
        {B : Type 0} (o : Option B) (f : B → Exec A) (n : Exec A)
        → ((b : B) → Steady (f b))
        → Steady n
        → Steady (cases o f n)
    Steady-cases none f n p q = q
    Steady-cases (some b) f n p q = p b

    pub Steady-this : (f : Machine → Exec A) → ((x : Machine) → Steady (f x)) → Steady (this >>= f)
    Steady-this f p = record { flow = λ j. Flow-this a f (λ x. (p x).flow j) }

    pub Steady-Pushes : {m : Exec A} → Pushes IsCallOnly m → Steady m
    Steady-Pushes p = record { flow = λ j. Flow-Pushes j p }

    pub Steady-IsLocal : {m : Exec A} → Pushes IsLocal m → Steady m
    Steady-IsLocal p = Steady-Pushes (Pushes-IsCallOnly p)

  module _ {A B : Type 0} (m : Exec A) (f : A → Exec B) where
    pub Steady-bind : Steady m → ((x : A) → Steady (f x)) → Steady (m >>= f)
    Steady-bind p q = record { flow = λ j. Flow-bind a m f (p.flow j) (λ x. (q x).flow j) }

    pub Steady-handle :
        (g : Error → Exec B)
        → Steady m
        → ((x : A) → Steady (f x))
        → ((e : Error) → Steady (g e))
        → Steady (handle m f g)
    Steady-handle g p q s = record {
      flow = λ j. Flow-handle a m f g (p.flow j) (λ x. (q x).flow j) (λ e. (s e).flow j);
    }

  pub Steady-patch :
      (r : Reconciler) (f : Dict String → Option (Dict String)) → Steady (patch_annotations r f)
  Steady-patch r f = record { flow = λ j. Flow-patch r j f }

pub ruleset steady_rules = (
  Steady-pure, Steady-raise, Steady-if, Steady-cases, Steady-this, Steady-bind, Steady-handle,
  Steady-patch, Steady-IsLocal,
)
