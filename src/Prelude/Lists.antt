-- ===== src/Prelude/Lists.antt =====
-- Lists measured by native numbers, and Boolean selection.
use Prim.Native.Nat.{ℕ, zero, suc, ◌+◌, min}
use mathlib.Core.Path.{◌≡◌, refl, ap, sym, subst, ◌∙◌}
use mathlib.Core.Bool.{Bool, true, false, ◌||◌}
use mathlib.Core.List.Memᴰ
use mathlib.Core.List.{List, [], ◌∷◌, ◌++◌, Memᴰ}
use mathlib.Core.Logic.{◌≢◌, ◌⊎◌, inl, inr}
use native.Mathlib.Omega.{arith}
use dist_task_queue.Prelude.Tests.{if◌then◌else◌, Bool-cases}

module _ {ℓ} {A : Type ℓ} where
  abbrev pub length : List A → ℕ
  length [] = 0
  length (x ∷ xs) = suc (length xs)

  abbrev pub take : ℕ → List A → List A
  take zero xs = []
  take (suc n) [] = []
  take (suc n) (x ∷ xs) = x ∷ take n xs

  abbrev pub drop : ℕ → List A → List A
  drop zero xs = xs
  drop (suc n) [] = []
  drop (suc n) (x ∷ xs) = drop n xs

  -- The elements that pass the test, in their order.
  abbrev pub select : (A → Bool) → List A → List A
  select p [] = []
  select p (x ∷ xs) = let rest = select p xs in if p x then x ∷ rest else rest

  abbrev pub exists : (A → Bool) → List A → Bool
  exists p [] = false
  exists p (x ∷ xs) = p x || exists p xs

  pub length-append : (xs ys : List A) → length (xs ++ ys) ≡ length xs + length ys
  length-append [] ys = omega arith
  length-append (x ∷ xs) ys = omega (arith, length-append xs ys)

  pub length-take : (n : ℕ) (xs : List A) → length (take n xs) ≡ min n (length xs)
  length-take zero xs = omega arith
  length-take (suc n) [] = omega arith
  length-take (suc n) (x ∷ xs) = omega (arith, length-take n xs)

  -- What passes the test is selected, and only that.
  pub Memᴰ-select :
      (p : A → Bool) (x : A) (xs : List A) → Memᴰ x xs → p x ≡ true → Memᴰ x (select p xs)
  Memᴰ-select p x [] m h = absurd (Memᴰ.not-nil m)
  Memᴰ-select p x (y ∷ xs) m h = elim (Bool-cases (p y)) [
    | inl passes ↦ elim m [
      | Memᴰ.head same ↦ rw passes (Memᴰ.head same)
      | Memᴰ.tail later ↦ rw passes (Memᴰ.tail (Memᴰ-select p x xs later h))
    ]
    | inr other ↦ elim m [
      | Memᴰ.head same ↦ absurd (apart (sym h ∙ ap p same ∙ other))
      | Memᴰ.tail later ↦ rw other (Memᴰ-select p x xs later h)
    ]
  ]
    where
      apart : true ≢ false
      apart q = cc

  pub select-Memᴰ :
      (p : A → Bool) (x : A) (xs : List A) → Memᴰ x (select p xs) → Memᴰ x xs × (p x ≡ true)
  select-Memᴰ p x [] m = absurd (Memᴰ.not-nil m)
  select-Memᴰ p x (y ∷ xs) m = elim (Bool-cases (p y)) [
    | inl passes ↦ elim (rw passes at m) [
      | Memᴰ.head same ↦ (Memᴰ.head same, ap p same ∙ passes)
      | Memᴰ.tail later ↦
          let (among, passed) = select-Memᴰ p x xs later in (Memᴰ.tail among, passed)
    ]
    | inr other ↦
        let (among, passed) = select-Memᴰ p x xs (rw other at m) in (Memᴰ.tail among, passed)
  ]

  -- A nonempty list has a last element.
  pub List-snoc : (xs : List A) → (xs ≡ []) ⊎ ((ys : List A) × (y : A) × (xs ≡ ys ++ y ∷ []))
  List-snoc [] = inl refl
  List-snoc (x ∷ xs) = elim (List-snoc xs) [
    | inl e ↦ inr ([], x, ap (◌∷◌ x) e)
    | inr (ys, y, e) ↦ inr (x ∷ ys, y, ap (◌∷◌ x) e)
  ]

-- A predicate by recursion computes to tuples, which the tactics read and build.
module _ {ℓ κ} {A : Type ℓ} (P : A → Type κ) where
  abbrev pub All : List A → Type κ
  All [] = Unit
  All (x ∷ xs) = P x × All xs

  pub All-append : (xs ys : List A) → All xs → All ys → All (xs ++ ys)
  All-append [] ys _ hy = hy
  All-append (x ∷ xs) ys (px, hx) hy = (px, All-append xs ys hx hy)

  pub All-select : (p : A → Bool) (xs : List A) → All xs → All (select p xs)
  All-select p [] h = tt
  All-select p (x ∷ xs) (hx, hs) = ground (arith, All-select p xs hs)

  pub All-Memᴰ : {a : A} (xs : List A) → All xs → Memᴰ a xs → P a
  All-Memᴰ [] h m = absurd (Memᴰ.not-nil m)
  All-Memᴰ (x ∷ xs) h (Memᴰ.head e) = subst P (sym e) h.0
  All-Memᴰ (x ∷ xs) h (Memᴰ.tail m) = All-Memᴰ xs h.1 m
