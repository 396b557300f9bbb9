-- ===== src/Base/Outcome.antt =====
-- The outcome of a run: a result; a write or read past the end of a C array, or a halt of the
-- kernel; or a loop that did not end within its fuel.
use mathlib.Core.Path.{◌≡◌, refl}
use mathlib.Core.Option.{Option, none, some}
use mathlib.Core.Bool.{Bool, true, false}
use astra_os.Base.Tests.{if◌then◌else◌}

pub data Run {ℓ} (A : Type ℓ) : Type ℓ where
  done : A → Run A
  fault : Run A
  out_of_fuel : Run A

infixl 5 ◌>>=◌
abbrev pub ◌>>=◌ {ℓ κ} : {A : Type ℓ} {B : Type κ} → Run A → (A → Run B) → Run B
done a >>= f = f a
fault >>= f = fault
out_of_fuel >>= f = out_of_fuel

-- `if (!f(…, &x)) return 0;` and the rest of the function
abbrev pub if_some {ℓ κ} :
    {A : Type ℓ} {B : Type κ} → Option A → (A → Run (Option B)) → Run (Option B)
if_some none f = done none
if_some (some a) f = f a

-- what a bind that ended did
pub bind-done {ℓ κ} :
    {A : Type ℓ} {B : Type κ} (m : Run A) (f : A → Run B) {b : B}
    → (m >>= f) ≡ done b
    → (a : A) × (m ≡ done a) × (f a ≡ done b)
bind-done (done a) f h = (a, refl, h)
bind-done fault f h = cc
bind-done out_of_fuel f h = cc

-- `P` holds of the result, if the run ends with one
abbrev pub Ends {ℓ} : {A : Type ℓ} → (A → Type 0) → Run A → Type 0
Ends P (done a) = P a
Ends P fault = Unit
Ends P out_of_fuel = Unit

pub Ends-bind {ℓ κ} :
    {A : Type ℓ} {B : Type κ} (Q : A → Type 0) (P : B → Type 0) (m : Run A) (f : A → Run B)
    → Ends Q m
    → ((a : A) → m ≡ done a → Q a → Ends P (f a))
    → Ends P (m >>= f)
Ends-bind Q P (done a) f q next = next a refl q
Ends-bind Q P fault f q next = tt
Ends-bind Q P out_of_fuel f q next = tt

pub Ends-done {ℓ} : {A : Type ℓ} (P : A → Type 0) (m : Run A) (a : A) → Ends P m → m ≡ done a → P a
Ends-done P m a h e = rw e at h

-- what is known of no result but its equation
pub Ends-any {ℓ} : {A : Type ℓ} (m : Run A) → Ends (λ a. Unit) m
Ends-any (done a) = tt
Ends-any fault = tt
Ends-any out_of_fuel = tt

pub Ends-if {ℓ} :
    {A : Type ℓ} (P : A → Type 0) (b : Bool) (m n : Run A)
    → (b ≡ true → Ends P m)
    → (b ≡ false → Ends P n)
    → Ends P (if b then m else n)
Ends-if P true m n hm hn = hm refl
Ends-if P false m n hm hn = hn refl
