-- ===== src/Common/Lists.antt =====
-- Lists over the native numbers: length, tests of every and of some item, and joining texts.
use Prim.Native.Nat.{ℕ, suc}
use Prim.Native.String.{String, ◌++◌ as ◌+s◌}
use mathlib.Core.Path.{◌≡◌, refl}
use mathlib.Core.Bool.{Bool, true, false, ◌&&◌, ◌||◌}
use mathlib.Core.Logic.{inl, inr, ◌⊎◌, ◌↔◌}
use native.Mathlib.Omega.{arith}
use mathlib.Core.List.{List, [], ◌∷◌, ◌++◌}
use tidewaiter.Common.Tests.{if◌then◌else◌}

module _ {ℓ} {A : Type ℓ} where
  abbrev pub length : List A → ℕ
  length [] = 0
  length (x ∷ xs) = suc (length xs)

  abbrev pub is_empty : List A → Bool
  is_empty [] = true
  is_empty (x ∷ xs) = false

  -- Whether some item passes the test.
  abbrev pub any : (A → Bool) → List A → Bool
  any p [] = false
  any p (x ∷ xs) = p x || any p xs

  -- How many items pass the test.
  abbrev pub count : (A → Bool) → List A → ℕ
  count p [] = 0
  count p (x ∷ xs) = let rest = count p xs in if p x then suc rest else rest

  abbrev pub all : (A → Bool) → List A → Bool
  all p [] = true
  all p (x ∷ xs) = p x && all p xs

-- `strings.Join`.
abbrev pub join : String → List String → String
join sep [] = ""
join sep (x ∷ []) = x
join sep (x ∷ y ∷ ys) = x +s (sep +s join sep (y ∷ ys))

module _ {ℓ} {A : Type ℓ} where
  -- Every item satisfies the predicate.
  abbrev pub All : (A → Type 0) → List A → Type 0
  All P [] = Unit
  All P (x ∷ xs) = P x × All P xs

  -- Some item satisfies the predicate: the first, or a later one.
  abbrev pub Any : (A → Type 0) → List A → Type 0
  Any P [] = ⊥
  Any P (x ∷ xs) = P x ⊎ Any P xs

  -- A test of some item, read as a statement.
  pub any_iff : (p : A → Bool) (xs : List A) → (any p xs ≡ true) ↔ Any (λ x. p x ≡ true) xs
  any_iff p [] = (λ e. cc, λ h. elim h [ ])
  any_iff p (x ∷ xs) = ground (arith, any_iff p xs)

  pub not_any_iff : (p : A → Bool) (xs : List A) → (any p xs ≡ false) ↔ All (λ x. p x ≡ false) xs
  not_any_iff p [] = (λ e. tt, λ h. refl)
  not_any_iff p (x ∷ xs) = ground (arith, not_any_iff p xs)

-- The list holds the item.
abbrev pub Elem : {A : Type 0} → A → List A → Type 0
Elem a xs = Any (λ x. x ≡ a) xs

pub Elem-append :
    {A : Type 0} (a : A) (xs ys : List A) → Elem a (xs ++ ys) ↔ (Elem a xs ⊎ Elem a ys)
Elem-append a [] ys = ground arith
Elem-append a (x ∷ xs) ys = ground (arith, Elem-append a xs ys)

pub All-snoc :
    {A : Type 0} (P : A → Type 0) (xs : List A) (x : A) → All P xs → P x → All P (xs ++ x ∷ [])
All-snoc P [] x h p = (p, tt)
All-snoc P (y ∷ ys) x h p = (h.0, All-snoc P ys x h.1 p)

pub All-imp :
    {A : Type 0} (P Q : A → Type 0) (xs : List A) → ((x : A) → P x → Q x) → All P xs → All Q xs
All-imp P Q [] f h = tt
All-imp P Q (x ∷ xs) f h = (f x h.0, All-imp P Q xs f h.1)

-- Every item of a list is in it.
pub All-Elem : {A : Type 0} (xs : List A) → All (λ x. Elem x xs) xs
All-Elem [] = tt
All-Elem {A = A} (x ∷ xs) = (
  inl refl,
  All-imp (λ (y : A). Elem y xs) (λ (y : A). Elem y (x ∷ xs)) xs (λ y h. inr h) (All-Elem xs),
)
