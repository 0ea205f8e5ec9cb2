-- ===== src/Gateway/Session/Steps.antt =====
-- Statements on runs, and their rules.
use contextforge_data_plane.Prelude.{
  ◌≡◌, refl, sym, ap, ◌∙◌, subst, List, [], ◌∷◌, ◌++◌, Option, none, some, inl, inr, Option-cases,
  Result, ok, err, All, All-append,
}
use contextforge_data_plane.Prelude.Maybe.{some-inj}
use contextforge_data_plane.Gateway.{ErrorData, Event, Run, done, emit, continue, ◌>>=◌}
use contextforge_data_plane.Gateway.Session.{Phase, step, steps}

-- From a phase, a run causes only events that satisfy P, in an order that the automaton allows, and
-- ends in a phase with a result that satisfy Post.
pub record Runs {A : Type 0} (P : Event → Type 0) (p : Phase) (m : Run A)
    (Post : Phase → Result ErrorData A → Type 0) : Type 0 where
  pub events : All P m.0
  pub last : Phase
  pub reaches : steps p m.0 ≡ some last
  pub ends : Post last m.1

abbrev after : List Event → Option Phase → Option Phase
after s none = none
after s (some p) = steps p s

steps-cons : (p : Phase) (e : Event) (s : List Event) → steps p (e ∷ s) ≡ after s (step p e)
unfolding steps
steps-cons p e s = refl

steps-nil : (q : Phase) → steps q [] ≡ some q
unfolding steps
steps-nil q = refl

steps-append : (p q : Phase) (s t : List Event) → steps p s ≡ some q → steps p (s ++ t) ≡ steps q t
steps-append p q [] t h = ap (λ x. steps x t) (some-inj (sym (steps-nil p) ∙ h))
steps-append p q (e ∷ s) t h = elim (Option-cases (step p e)) [
  | inl f ↦ let k = sym (steps-cons p e s) ∙ h in let l = subst (λ o. after s o ≡ some q) f k in cc
  | inr (r, f) ↦
      let k = sym (steps-cons p e s) ∙ h in
      steps-cons p e (s ++ t)
      ∙ ap (after (s ++ t)) f
      ∙ steps-append r q s t (subst (λ o. after s o ≡ some q) f k)
]

module _ {P : Event → Type 0} where
  pub done-Runs :
      {A : Type 0} {p : Phase} {r : Result ErrorData A} {Post : Phase → Result ErrorData A → Type 0}
      → Post p r
      → Runs P p (done r) Post
  unfolding steps
  done-Runs {p = p} h = record { events = tt; last = p; reaches = refl; ends = h }

  pub bind-Runs :
      {A B : Type 0} {p : Phase} (m : Run A) (f : A → Run B)
      {Post : Phase → Result ErrorData B → Type 0}
      → Runs P p m (λ q r. Runs P q (continue r f) Post)
      → Runs P p (m >>= f) Post
  unfolding ◌>>=◌
  bind-Runs {p = p} m f h = record {
    events = All-append P m.0 _ h.events h.ends.events;
    last = h.ends.last;
    reaches = steps-append p h.last m.0 _ h.reaches ∙ h.ends.reaches;
    ends = h.ends.ends;
  }

  pub event-Runs :
      {p q : Phase} (e : Event) {Post : Phase → Result ErrorData (Unit {0}) → Type 0}
      → P e
      → step p e ≡ some q
      → Post q (ok tt)
      → Runs P p (emit e) Post
  event-Runs {q = q} e a s h = record {
    events = (a, tt);
    last = q;
    reaches = steps-cons _ e [] ∙ ap (after []) s ∙ steps-nil q;
    ends = h;
  }

  pub emit-Runs :
      {B : Type 0} {p q : Phase} (e : Event) (f : Unit {0} → Run B)
      {Post : Phase → Result ErrorData B → Type 0}
      → P e
      → step p e ≡ some q
      → Runs P q (f tt) Post
      → Runs P p (emit e >>= f) Post
  emit-Runs e f a s r = bind-Runs (emit e) f (event-Runs e a s r)

  pub check-Runs :
      {A B : Type 0} {p : Phase} (r : Result ErrorData A) (f : A → Run B)
      {Post : Phase → Result ErrorData B → Type 0}
      → ((a : A) → r ≡ ok a → Runs P p (f a) Post)
      → ((e : ErrorData) → Post p (err e))
      → Runs P p (done r >>= f) Post
  check-Runs (ok a) f g h = bind-Runs (done (ok a)) f (done-Runs (g a refl))
  check-Runs (err e) f g h = bind-Runs (done (err e)) f (done-Runs (done-Runs (h e)))
