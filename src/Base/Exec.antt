-- ===== src/Base/Exec.antt =====
-- How a piece of C code ends, and the rules for code that ends well.
use mathlib.Core.Path.{◌≡◌, refl, subst}
use mathlib.Core.Bool.{Bool, true, false}
use mathlib.Core.Option.{Option, none, some}
use projet.Base.Tests.{if◌then◌else◌}

-- A value; undefined behaviour, such as an access outside an object or the release of a pointer
-- that was never set; or the fuel of a loop of the model running out.
pub data Exec {ℓ} (A : Type ℓ) : Type ℓ where
  ok : A → Exec A
  fault no_fuel : Exec A

infixl 5 ◌>>=◌
abbrev pub ◌>>=◌ {ℓ κ} : {A : Type ℓ} {B : Type κ} → Exec A → (A → Exec B) → Exec B
ok a >>= f = f a
fault >>= f = fault
no_fuel >>= f = no_fuel

abbrev pub or_fault {ℓ} : {A : Type ℓ} → Option A → Exec A
or_fault (some a) = ok a
or_fault none = fault

-- The code returns, with a result that satisfies `P`.
pub data Yields {ℓ κ} {A : Type ℓ} (P : A → Type κ) : Exec A → Type (ℓ ⊔ κ) where
  yields : {a : A} → P a → Yields P (ok a)

module _ {ℓ κ} {A : Type ℓ} {P : A → Type κ} where
  pub Yields-bind {ℓ' κ'} :
      {B : Type ℓ'} {Q : B → Type κ'} {m : Exec A} {f : A → Exec B}
      → Yields P m
      → ((a : A) → P a → Yields Q (f a))
      → Yields Q (m >>= f)
  Yields-bind (yields p) next = next _ p

  pub Yields-map {κ'} :
      {Q : A → Type κ'} {m : Exec A} → Yields P m → ((a : A) → P a → Q a) → Yields Q m
  Yields-map (yields p) weaken = yields (weaken _ p)

  pub Yields-if :
      {x y : Exec A} (b : Bool)
      → (b ≡ true → Yields P x)
      → (b ≡ false → Yields P y)
      → Yields P (if b then x else y)
  Yields-if true p q = p refl
  Yields-if false p q = q refl

  pub Yields-inv : {m : Exec A} → Yields P m → (a : A) × (m ≡ ok a) × P a
  Yields-inv (yields p) = (_, refl, p)

  value : {a : A} → Yields P (ok a) → P a
  value (yields p) = p

  -- The result of code that yields.
  pub Yields-elim : {m : Exec A} {a : A} → Yields P m → m ≡ ok a → P a
  Yields-elim y e = value (subst (Yields P) e y)

-- If the code returns, its result satisfies `P`.
abbrev pub OnReturn {ℓ κ} : {A : Type ℓ} → (A → Type κ) → Exec A → Type κ
OnReturn P (ok a) = P a
OnReturn P fault = Unit
OnReturn P no_fuel = Unit

module _ {ℓ κ} {A : Type ℓ} where
  pub OnReturn-bind {ℓ' κ'} :
      {B : Type ℓ'} (P : A → Type κ) (Q : B → Type κ') (m : Exec A) (f : A → Exec B)
      → OnReturn P m
      → ((a : A) → P a → OnReturn Q (f a))
      → OnReturn Q (m >>= f)
  OnReturn-bind P Q (ok a) f p next = next a p
  OnReturn-bind P Q fault f p next = tt
  OnReturn-bind P Q no_fuel f p next = tt

  pub OnReturn-elim : (P : A → Type κ) (m : Exec A) {a : A} → OnReturn P m → m ≡ ok a → P a
  OnReturn-elim P m p e = subst (OnReturn P) e p

  pub OnReturn-if :
      (P : A → Type κ) (b : Bool) (x y : Exec A)
      → (b ≡ true → OnReturn P x)
      → (b ≡ false → OnReturn P y)
      → OnReturn P (if b then x else y)
  OnReturn-if P true x y p q = p refl
  OnReturn-if P false x y p q = q refl

  pub OnReturn-map {κ'} :
      (P : A → Type κ) (Q : A → Type κ') (m : Exec A)
      → OnReturn P m
      → ((a : A) → P a → Q a)
      → OnReturn Q m
  OnReturn-map P Q (ok a) p weaken = weaken a p
  OnReturn-map P Q fault p weaken = tt
  OnReturn-map P Q no_fuel p weaken = tt

-- Every result is allowed.
pub OnReturn-any {ℓ} : {A : Type ℓ} (m : Exec A) → OnReturn (λ _. Unit {0}) m
OnReturn-any (ok a) = tt
OnReturn-any fault = tt
OnReturn-any no_fuel = tt

-- The laws of sequencing.
pub bind_assoc {ℓ κ ℓ'} :
    {A : Type ℓ} {B : Type κ} {C : Type ℓ'} (m : Exec A) (f : A → Exec B) (g : B → Exec C)
    → ((m >>= f) >>= g) ≡ (m >>= λ a. f a >>= g)
bind_assoc (ok a) f g = refl
bind_assoc fault f g = refl
bind_assoc no_fuel f g = refl

pub bind-cong {ℓ κ ℓ'} :
    {A : Type ℓ} {B : Type κ} (P : A → Type ℓ') (m : Exec A) (f g : A → Exec B)
    → OnReturn P m
    → ((a : A) → P a → f a ≡ g a)
    → (m >>= f) ≡ (m >>= g)
bind-cong P (ok a) f g p same = same a p
bind-cong P fault f g p same = refl
bind-cong P no_fuel f g p same = refl
