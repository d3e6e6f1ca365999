-- ===== src/Prelude/Tests.antt =====
-- Boolean tests on the native numbers, the conditional, and stores indexed by number.
use Prim.Native.Nat.{ℕ, zero, suc, ◌≤◌, ◌<◌, compare, Ordering}
use mathlib.Core.Path.{◌≡◌, refl}
use mathlib.Core.Logic.{◌↔◌, ◌⊎◌, inl, inr}
use mathlib.Core.Bool.{Bool, true, false, not}
use mathlib.Core.Option.{Option, none, some}
use native.Mathlib.Omega.{arith}

abbrev pub ltb : ℕ → ℕ → Bool
ltb a b = elim (compare a b) [ Ordering.lt ↦ true | _ ↦ false ]

abbrev pub leb : ℕ → ℕ → Bool
leb a b = elim (compare a b) [ Ordering.gt ↦ false | _ ↦ true ]

infix 50 ◌==◌
abbrev pub ◌==◌ : ℕ → ℕ → Bool
a == b = elim (compare a b) [ Ordering.eq ↦ true | _ ↦ false ]

infix 1 if◌then◌else◌
abbrev pub if◌then◌else◌ {ℓ} : {A : Type ℓ} → Bool → A → A → A
if true then x else y = x
if false then x else y = y

pub ltb→lt : (a b : ℕ) → ltb a b ≡ true → a < b
ltb→lt a b h = ground arith

pub lt→ltb : (a b : ℕ) → a < b → ltb a b ≡ true
lt→ltb a b h = ground arith

pub leb→le : (a b : ℕ) → leb a b ≡ true → a ≤ b
leb→le a b h = ground arith

pub ==_iff : (a b : ℕ) → ((a == b) ≡ true) ↔ (a ≡ b)
==_iff a b = ground arith

-- To split on a computed test and keep the equation.
pub Bool-cases : (b : Bool) → (b ≡ true) ⊎ (b ≡ false)
Bool-cases true = inl refl
Bool-cases false = inr refl

pub Option-cases {ℓ} : {A : Type ℓ} (o : Option A) → (o ≡ none) ⊎ ((a : A) × (o ≡ some a))
Option-cases none = inl refl
Option-cases (some a) = inr (a, refl)

-- The chain of steps that may fail; `none` is a fault or exhausted fuel.
infixl 5 ◌>>=◌
abbrev pub ◌>>=◌ {ℓ κ} : {A : Type ℓ} {B : Type κ} → Option A → (A → Option B) → Option B
none >>= f = none
some a >>= f = f a

-- The computation has a result, and the result satisfies `P`.
abbrev pub Returns {ℓ} : {A : Type ℓ} → (A → Type 0) → Option A → Type 0
Returns P none = ⊥
Returns P (some a) = P a

-- A store changed at one index.
abbrev pub update {ℓ} : {A : Type ℓ} (store : ℕ → A) (at : ℕ) (v : A) (i : ℕ) → A
update store at v i = if at == i then v else store i

-- Over a small range every value can be checked by evaluation, from the highest down.
unfoldable pub holds_below : (ℕ → Bool) → ℕ → Bool
holds_below p zero = true
holds_below p (suc n) = let rest = holds_below p n in if p n then rest else false

pub holds_below-at : (p : ℕ → Bool) (n i : ℕ) → holds_below p n ≡ true → i < n → p i ≡ true
unfolding holds_below
holds_below-at p zero i all l = absurd (omega arith)
holds_below-at p (suc n) i all l = ground (arith, holds_below-at p n i)

-- A property of what a `do` returns.
pub Returns-bind {ℓ} :
    {A : Type ℓ}
    → {B : Type ℓ} → (P : A → Type 0) → (Q : B → Type 0) → (o : Option A) → (f : A → Option B)
    → Returns P o
    → ((a : A) → P a → Returns Q (f a))
    → Returns Q (do a ← o; f a)
Returns-bind P Q none f p step = p
Returns-bind P Q (some a) f p step = step a p

pub Returns-map {ℓ} :
    {A : Type ℓ}
    → (P : A → Type 0) → (Q : A → Type 0) → (o : Option A) → Returns P o
    → ((a : A) → P a → Q a)
    → Returns Q o
Returns-map P Q none p step = p
Returns-map P Q (some a) p step = step a p

-- A guard that holds, and a result of either branch of a test.
pub unguard {ℓ} :
    {A : Type ℓ}
    → (P : A → Type 0) → (b : Bool) → (x : Option A) → b ≡ true
    → Returns P x
    → Returns P (if not b then none else x)
unguard P true x e h = h
unguard P false x e h = ground arith

pub Returns-if {ℓ} :
    {A : Type ℓ}
    → (P : A → Type 0) → (b : Bool) → (x y : Option A) → Returns P x
    → Returns P y
    → Returns P (if b then x else y)
Returns-if P true x y h k = h
Returns-if P false x y h k = k
