-- ===== src/Base/Result.antt =====
-- What a call that may throw returns. Nothing in the program catches these exceptions, so the
-- state that a throwing call leaves behind is not part of the model.
use mathlib.Core.Path.{◌≡◌, refl, subst}
use mathlib.Core.Bool.{Bool, true, false}

pub data Failure : Type 0 where
  -- UNIVERSAL_ASSERT_MESSAGE and UNIVERSAL_TERMINATE throw a UniversalException.
  assertion : Failure
  -- Undefined behaviour: an element of an empty vector, a null optional that is read.
  undefined : Failure
  -- A loop that was given too little fuel.
  out_of_fuel : Failure

pub data Result {ℓ} (A : Type ℓ) : Type ℓ where
  ok : A → Result A
  thrown : Failure → Result A

infixl 5 ◌>>=◌ ◌>>◌
abbrev pub ◌>>=◌ {ℓ κ} : {V : Type ℓ} {W : Type κ} (r : Result V) (next : V → Result W) → Result W
ok v >>= next = next v
thrown failure >>= next = thrown failure

abbrev pub ◌>>◌ {ℓ} : {W : Type ℓ} (r : Result (Unit {0})) (next : Result W) → Result W
r >> next = r >>= λ _. next

-- UNIVERSAL_ASSERT_MESSAGE
abbrev pub assert : Bool → Result (Unit {0})
assert true = ok tt
assert false = thrown assertion

pub ok-injective {ℓ} : {A : Type ℓ} {a b : A} → ok a ≡ ok b → a ≡ b
ok-injective h = cc

pub >>=-eq-ok {ℓ κ} :
    {V : Type ℓ} {W : Type κ} (r : Result V) (next : V → Result W) {w : W}
    → (r >>= next) ≡ ok w
    → (v : V) × (r ≡ ok v) × (next v ≡ ok w)
>>=-eq-ok (ok v) next e = (v, refl, e)
>>=-eq-ok (thrown failure) next e = cc

pub >>=_assoc {ℓ κ μ} :
    {A : Type ℓ} {B : Type κ} {C : Type μ} (m : Result A) (f : A → Result B) (g : B → Result C)
    → (m >>= f >>= g) ≡ (m >>= λ a. f a >>= g)
>>=_assoc (ok a) f g = refl
>>=_assoc (thrown e) f g = refl

-- What is returned, if nothing is thrown, satisfies the predicate.
abbrev pub Ensures {ℓ κ} : {A : Type ℓ} → (A → Type κ) → Result A → Type κ
Ensures P (ok a) = P a
Ensures P (thrown e) = Unit

pub Ensures-ok {ℓ κ} :
    {A : Type ℓ} (P : A → Type κ) (r : Result A) {a : A} → Ensures P r → r ≡ ok a → P a
Ensures-ok P r h e = subst (Ensures P) e h

pub Ensures-bind {ℓ κ μ} :
    {A : Type ℓ} {B : Type μ} (P : B → Type κ) (r : Result A) (f : A → Result B)
    → ((a : A) → r ≡ ok a → Ensures P (f a))
    → Ensures P (r >>= f)
Ensures-bind P (ok a) f h = h a refl
Ensures-bind P (thrown e) f h = tt

pub Ensures-mono {ℓ κ μ} :
    {A : Type ℓ} (P : A → Type κ) (Q : A → Type μ) (r : Result A)
    → Ensures P r
    → ((a : A) → P a → Q a)
    → Ensures Q r
Ensures-mono P Q (ok a) h f = f a h
Ensures-mono P Q (thrown e) h f = tt
