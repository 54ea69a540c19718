-- ===== src/Teardown/Effect/Pushes.antt =====
-- Actions that only put calls of one class on the trace: the Machine in hand stays as it is, and the
-- calls of before stay below the new ones.
use cluster_api_runtime_exte.Base.{
  String, ◌≡◌, refl, ap, ◌∙◌, Bool, true, false, Option, none, some, [], ◌∷◌, ◌++◌, if◌then◌else◌,
}
use cluster_api_runtime_exte.Base.Lists.{All, All-append}
use mathlib.Core.List.{append_assoc}
use cluster_api_runtime_exte.Teardown.Effect.{
  reset_generic, Error, Result, ok, err, Call, read_clock, patch, dial, rpc, close, Trace, Env,
  World, Exec, pure, raise, this, record_call, ask, tell, consult, clock, closing, handle, continue,
  resume, cases, ◌>>=◌,
}

-- Calls of the API server other than patches, events, metrics and the clock.
abbrev pub IsLocal : Call → Type 0
IsLocal (patch _ _) = ⊥
IsLocal (dial _ _) = ⊥
IsLocal (rpc _ _ _) = ⊥
IsLocal (close _) = ⊥
IsLocal _ = Unit

-- Every call but a patch of the Machine.
abbrev pub IsNoPatch : Call → Type 0
IsNoPatch (patch _ _) = ⊥
IsNoPatch _ = Unit

-- Every call but a patch of the Machine and a reset of its node.
abbrev pub IsNoWipe : Call → Type 0
IsNoWipe (patch _ _) = ⊥
IsNoWipe (rpc _ (reset_generic _) _) = ⊥
IsNoWipe _ = Unit

abbrev pub extend : Trace → World → World
extend new w = record w { trace = new ++ w.trace }

pub record Pushes {A : Type 0} (C : Call → Type 0) (m : Exec A) : Type 0 where
  pub new : (w : World) → (t : Trace) × All C t × ((m w).1 ≡ extend t w)

module _ {C : Call → Type 0} {A : Type 0} where
  pub Pushes-pure : (a : A) → Pushes C (pure a)
  unfolding pure
  Pushes-pure a = record { new = λ w. ([], tt, refl) }

  pub Pushes-raise : (e : Error) → Pushes C (raise {A = A} e)
  unfolding raise
  Pushes-raise e = record { new = λ w. ([], tt, refl) }

  pub Pushes-ask : (answer : Trace → Result A) (c : Call) → C c → Pushes C (ask answer c)
  unfolding ask
  Pushes-ask answer c h = record { new = λ w. (c ∷ [], (h, tt), refl) }

  pub Pushes-consult :
      (answer : Trace → Result A) (c : Bool → Call)
      → ((b : Bool) → C (c b))
      → Pushes C (consult answer c)
  unfolding consult
  Pushes-consult answer c h = record { new = λ w. (c _ ∷ [], (h _, tt), refl) }

  pub Pushes-if :
      (b : Bool) (m n : Exec A) → Pushes C m → Pushes C n → Pushes C (if b then m else n)
  Pushes-if true m n p q = p
  Pushes-if false m n p q = q

  pub Pushes-option :
      {B : Type 0} (o : Option B) (f : B → Exec A) (n : Exec A)
      → ((b : B) → Pushes C (f b))
      → Pushes C n
      → Pushes C (cases o f n)
  Pushes-option none f n p q = q
  Pushes-option (some b) f n p q = p b

  pub Pushes-closing :
      (address : String) (m : Exec A)
      → C (close address)
      → Pushes C m
      → Pushes C (closing address m)
  unfolding closing
  Pushes-closing address m h p = record {
    new = λ w.
        let (t, all, e) = p.new w in
        (close address ∷ t, (h, all), λ i. record (e i) { trace = close address ∷ (e i).trace });
  }

module _ {C : Call → Type 0} where
  pub Pushes-this : Pushes C this
  unfolding this
  Pushes-this = record { new = λ w. ([], tt, refl) }

  pub Pushes-record_call : (c : Call) → C c → Pushes C (record_call c)
  unfolding record_call
  Pushes-record_call c h = record { new = λ w. (c ∷ [], (h, tt), refl) }

  pub Pushes-tell :
      (answer : Trace → Option Error) (c : Bool → Call)
      → ((b : Bool) → C (c b))
      → Pushes C (tell answer c)
  unfolding tell
  Pushes-tell answer c h = record { new = λ w. (c _ ∷ [], (h _, tt), refl) }

  pub Pushes-clock : (env : Env) → C read_clock → Pushes C (clock env)
  unfolding clock
  Pushes-clock env h = record { new = λ w. (read_clock ∷ [], (h, tt), refl) }

module _ {C : Call → Type 0} {B : Type 0} where
  -- What follows a call that has pushed `t` pushes more.
  Pushes-after :
      (m : Exec B) (w w' : World) (t : Trace)
      → All C t
      → w' ≡ extend t w
      → Pushes C m
      → (u : Trace) × All C u × ((m w').1 ≡ extend u w)
  Pushes-after m w w' t h e p =
      let (u, k, d) = p.new w' in
      (u ++ t, All-append C u t k h, d ∙ ap (extend u) e ∙ rw append_assoc)

module _ {C : Call → Type 0} {A B : Type 0} (m : Exec A) (f : A → Exec B) (p : Pushes C m)
    (q : (a : A) → Pushes C (f a)) where
  Pushes-continue : (r : Result A) → Pushes C (continue r f)
  unfolding pure
  Pushes-continue (ok a) = q a
  Pushes-continue (err e) = record { new = λ w. ([], tt, refl) }

  pub Pushes-bind : Pushes C (m >>= f)
  unfolding ◌>>=◌
  Pushes-bind = record {
    new = λ w.
        let (t, h, d) = p.new w in
        Pushes-after (continue (m w).0 f) w (m w).1 t h d (Pushes-continue (m w).0);
  }

  module _ (g : Error → Exec B) (s : (e : Error) → Pushes C (g e)) where
    Pushes-resume : (r : Result A) → Pushes C (resume r f g)
    Pushes-resume (ok a) = q a
    Pushes-resume (err e) = s e

    pub Pushes-handle : Pushes C (handle m f g)
    unfolding handle
    Pushes-handle = record {
      new = λ w.
          let (t, h, d) = p.new w in
          Pushes-after (resume (m w).0 f g) w (m w).1 t h d (Pushes-resume (m w).0);
    }

pub ruleset push_rules = (
  Pushes-pure, Pushes-raise, Pushes-ask, Pushes-consult, Pushes-if, Pushes-option, Pushes-closing,
  Pushes-this, Pushes-record_call, Pushes-tell, Pushes-clock, Pushes-bind, Pushes-handle, tt,
)

IsLocal-IsNoWipe : (c : Call) → IsLocal c → IsNoWipe c
IsLocal-IsNoWipe (patch _ _) h = absurd h
IsLocal-IsNoWipe (rpc _ _ _) h = absurd h
IsLocal-IsNoWipe _ h = tt

IsLocal-IsNoPatch : (c : Call) → IsLocal c → IsNoPatch c
IsLocal-IsNoPatch (patch _ _) h = absurd h
IsLocal-IsNoPatch _ h = tt

module _ {C D : Call → Type 0} (weaken : (c : Call) → C c → D c) where
  All-weaken : (t : Trace) → All C t → All D t
  All-weaken [] h = tt
  All-weaken (c ∷ t) (h, k) = (weaken c h, All-weaken t k)

  Pushes-weaken : {A : Type 0} {m : Exec A} → Pushes C m → Pushes D m
  Pushes-weaken p = record { new = λ w. let (t, h, e) = p.new w in (t, All-weaken t h, e) }

module _ {A : Type 0} {m : Exec A} (p : Pushes IsLocal m) where
  pub Pushes-IsNoWipe : Pushes IsNoWipe m
  Pushes-IsNoWipe = Pushes-weaken IsLocal-IsNoWipe p

  pub Pushes-IsNoPatch : Pushes IsNoPatch m
  Pushes-IsNoPatch = Pushes-weaken IsLocal-IsNoPatch p
