-- ===== src/Teardown/Effect/Triples.antt =====
-- Pre- and postconditions of actions: `Q` of the value and the world after a return, `E` of the
-- world after an error.
use cluster_api_runtime_exte.Base.{
  ◌≡◌, refl, Bool, true, false, Option, none, some, if◌then◌else◌, sym, subst,
}
use cluster_api_runtime_exte.Base.Lists.{All}
use cluster_api_runtime_exte.Teardown.Api.{Machine}
use cluster_api_runtime_exte.Teardown.Effect.{
  Error, Result, ok, err, Call, Trace, World, Exec, pure, raise, this, handle, continue, resume,
  cases, ◌>>=◌,
}
use cluster_api_runtime_exte.Teardown.Effect.Pushes.{Pushes, extend}

abbrev pub Post : {A : Type 0} → (A → World → Type 0) → (World → Type 0) → Result A → World → Type 0
Post Q E (ok a) w = Q a w
Post Q E (err e) w = E w

pub record Triple {A : Type 0} (P : World → Type 0) (m : Exec A) (Q : A → World → Type 0)
    (E : World → Type 0) : Type 0 where
  pub run : (w : World) → P w → Post Q E (m w).0 (m w).1

module _ {A : Type 0} {P : World → Type 0} {Q : A → World → Type 0} {E : World → Type 0} where
  pub Triple-pure : (a : A) → ((w : World) → P w → Q a w) → Triple P (pure a) Q E
  unfolding pure
  Triple-pure a h = record { run = h }

  pub Triple-raise : (e : Error) → ((w : World) → P w → E w) → Triple P (raise e) Q E
  unfolding raise
  Triple-raise e h = record { run = h }

  pub Triple-if :
      (b : Bool) (m n : Exec A)
      → (b ≡ true → Triple P m Q E)
      → (b ≡ false → Triple P n Q E)
      → Triple P (if b then m else n) Q E
  Triple-if true m n p q = p refl
  Triple-if false m n p q = q refl

  pub Triple-cases :
      {B : Type 0} (o : Option B) (f : B → Exec A) (n : Exec A)
      → ((b : B) → o ≡ some b → Triple P (f b) Q E)
      → (o ≡ none → Triple P n Q E)
      → Triple P (cases o f n) Q E
  Triple-cases none f n p q = q refl
  Triple-cases (some b) f n p q = p b refl

  -- A stronger precondition.
  pub Triple-pre :
      {P' : World → Type 0} (m : Exec A)
      → ((w : World) → P' w → P w)
      → Triple P m Q E
      → Triple P' m Q E
  Triple-pre m h t = record { run = λ w p. t.run w (h w p) }

  -- The action reads the Machine in hand first.
  pub Triple-this :
      (f : Machine → Exec A)
      → ((x : Machine) → Triple (λ w. (w.machine ≡ x) × P w) (f x) Q E)
      → Triple P (this >>= f) Q E
  unfolding ◌>>=◌
  Triple-this f h = record { run = λ w p. (h w.machine).run w (refl, p) }

  -- The Machine in hand is known.
  pub Triple-this_at :
      (x : Machine) (f : Machine → Exec A)
      → ((w : World) → P w → w.machine ≡ x)
      → Triple P (f x) Q E
      → Triple P (this >>= f) Q E
  unfolding ◌>>=◌
  Triple-this_at x f h t = record {
    run = λ w p. subst (λ y. Post Q E (f y w).0 (f y w).1) (sym (h w p)) (t.run w p);
  }

module _ {A B : Type 0} {R : A → World → Type 0} {Q : B → World → Type 0} {E : World → Type 0}
    (m : Exec A) (f : A → Exec B) where
  after-continue :
      ((a : A) → Triple (R a) (f a) Q E)
      → (x : Result A) (w : World) → Post R E x w
      → Post Q E (continue x f w).0 (continue x f w).1
  after-continue t (ok a) w h = (t a).run w h
  after-continue t (err e) w h = h

  pub Triple-bind :
      {P : World → Type 0}
      → Triple P m R E
      → ((a : A) → Triple (R a) (f a) Q E)
      → Triple P (m >>= f) Q E
  unfolding ◌>>=◌
  Triple-bind s t = record { run = λ w p. after-continue t (m w).0 (m w).1 (s.run w p) }

  module _ {F : World → Type 0} (g : Error → Exec B) where
    after-resume :
        ((a : A) → Triple (R a) (f a) Q E)
        → ((e : Error) → Triple F (g e) Q E)
        → (x : Result A) (w : World) → Post R F x w
        → Post Q E (resume x f g w).0 (resume x f g w).1
    after-resume t u (ok a) w h = (t a).run w h
    after-resume t u (err e) w h = (u e).run w h

    pub Triple-handle :
        {P : World → Type 0}
        → Triple P m R F
        → ((a : A) → Triple (R a) (f a) Q E)
        → ((e : Error) → Triple F (g e) Q E)
        → Triple P (handle m f g) Q E
    unfolding handle
    Triple-handle s t u = record { run = λ w p. after-resume t u (m w).0 (m w).1 (s.run w p) }

-- What an action that pushes calls of a class keeps: all that such calls keep.
module _ {A : Type 0} {P : World → Type 0} {C : Call → Type 0} (m : Exec A) (p : Pushes C m)
    (kept : (w : World) (t : Trace) → All C t → P w → P (extend t w)) where
  both : (x : Result A) (w : World) → P w → Post (λ (_ : A). P) P x w
  both (ok a) w h = h
  both (err e) w h = h

  pub Triple-Pushes : Triple P m (λ _. P) P
  Triple-Pushes = record {
    run =
        λ w h. let (t, all, e) = p.new w in both (m w).0 (m w).1 (subst P (sym e) (kept w t all h));
  }

module _ {A : Type 0} {Q Q' : A → World → Type 0} {E E' : World → Type 0} (m : Exec A)
    (q : (a : A) (w : World) → Q a w → Q' a w) (e : (w : World) → E w → E' w) where
  weakened : (x : Result A) (w : World) → Post Q E x w → Post Q' E' x w
  weakened (ok a) w h = q a w h
  weakened (err _) w h = e w h

  -- Weaker postconditions.
  pub Triple-post : {P : World → Type 0} → Triple P m Q E → Triple P m Q' E'
  Triple-post t = record { run = λ w p. weakened (m w).0 (m w).1 (t.run w p) }
