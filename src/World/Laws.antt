-- ===== src/World/Laws.antt =====
-- Rules for the outcomes of actions that check before they go on.
use code2cloud.Prelude.{◌≡◌, refl, ap, Bool, true, false, Option, none, some}
use code2cloud.World.{World, Outcome, done, fail, Act, ◌>>=◌, ◌>>◌, guard, require, Error}

module _ {B : Type 0} (P : Outcome B → Type 0) (e : Error) (w : World) where
  -- The action after a guard runs only if the test holds.
  pub guard_rule :
      (b : Bool) (k : Act B)
      → (b ≡ false → P (fail e w))
      → (b ≡ true → P (k w))
      → P ((guard b e >> k) w)
  guard_rule true k stop go = go refl
  guard_rule false k stop go = stop refl

  -- The action after `require` gets the value.
  pub require_rule :
      {A : Type 0} (o : Option A) (f : A → Act B)
      → (o ≡ none → P (fail e w))
      → ((a : A) → o ≡ some a → P (f a w))
      → P ((require o e >>= f) w)
  require_rule none f stop go = stop refl
  require_rule (some a) f stop go = go a refl

module _ {A B : Type 0} (m : Act A) (f : A → Act B) (w : World) where
  pub bind-done : (a : A) (w' : World) → m w ≡ done a w' → (m >>= f) w ≡ f a w'
  bind-done a w' e = ap (next f) e
    where
      next : (A → Act B) → Outcome A → Outcome B
      next f o = elim o [ done a w' ↦ f a w' | fail e w' ↦ fail e w' ]

  pub bind-fail : (x : Error) (w' : World) → m w ≡ fail x w' → (m >>= f) w ≡ fail x w'
  bind-fail x w' e = ap (next f) e
    where
      next : (A → Act B) → Outcome A → Outcome B
      next f o = elim o [ done a w' ↦ f a w' | fail e w' ↦ fail e w' ]

  -- What the first action returned, or how it failed.
  pub bind_rule :
      (P : Outcome B → Type 0)
      → ((a : A) (w' : World) → m w ≡ done a w' → P (f a w'))
      → ((e : Error) (w' : World) → m w ≡ fail e w' → P (fail e w'))
      → P ((m >>= f) w)
  bind_rule P go stop = by_outcome (m w) refl
    where
      by_outcome :
          (o : Outcome A) → m w ≡ o → P (elim o [ done a w' ↦ f a w' | fail e w' ↦ fail e w' ])
      by_outcome (done a w') e = go a w' e
      by_outcome (fail x w') e = stop x w' e
