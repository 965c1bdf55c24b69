-- ===== src/Base/Faults.antt =====
-- How a C++ operation may fail to return normally, and the monad of operations that can.
use mathlib.Core.Path.{◌≡◌, refl}
use mathlib.Core.Option.{Option, none, some}
use mathlib.Core.List.{List, [], ◌∷◌, map}

pub data Fault : Type 0 where
  -- a null pointer is followed
  null_pointer : Fault
  -- a pointer to no live object, or one that was never initialised, is followed
  bad_pointer : Fault
  -- `std::out_of_range`, thrown by the checked accesses
  out_of_range : Fault
  -- `std::invalid_argument`, thrown by `std::stoi` at a text without a number
  invalid_argument : Fault
  -- `cv::Exception`, thrown by OpenCV at operands that do not fit
  cv_exception : Fault
  -- `std::runtime_error`, thrown by the JSON reader at a value of another kind
  wrong_kind : Fault
  -- undefined behaviour other than by pointers
  undefined : Fault
  -- the loop did not end within its fuel
  no_fuel : Fault

pub data Result {ℓ} (A : Type ℓ) : Type ℓ where
  ok : A → Result A
  err : Fault → Result A

infixl 5 ◌>>=◌
abbrev pub ◌>>=◌ {ℓ κ} : {A : Type ℓ} {B : Type κ} → Result A → (A → Result B) → Result B
err e >>= next = err e
ok value >>= next = next value

abbrev pub or_fault {ℓ} : {A : Type ℓ} → Option A → Fault → Result A
or_fault none e = err e
or_fault (some a) e = ok a

module _ {ℓ κ} {A : Type ℓ} {B : Type κ} (next : A → Result B) {out : B} where
  -- A chain that returns: its first part returned, and the rest did from there.
  pub >>=-eq-ok :
      (r : Result A) → (r >>= next) ≡ ok out → (value : A) × (r ≡ ok value) × (next value ≡ ok out)
  >>=-eq-ok (err e) ran = cc
  >>=-eq-ok (ok value) ran = (value, refl, ran)

pub ok-injective {ℓ} : {A : Type ℓ} {a b : A} → ok a ≡ ok b → a ≡ b
ok-injective h = cc

-- A loop that computes a value for each element, up to the first fault.
module _ {ℓ κ} {A : Type ℓ} {B : Type κ} (f : A → Result B) where
  abbrev pub each : List A → Result (List B)
  each [] = ok []
  each (x ∷ xs) = do y ← f x; ys ← each xs; ok (y ∷ ys)

  pub each-map : (g : A → B) (xs : List A) → ((x : A) → f x ≡ ok (g x)) → each xs ≡ ok (map g xs)
  each-map g [] h = refl
  each-map g (x ∷ xs) h = rw (h x, each-map g xs h) refl
