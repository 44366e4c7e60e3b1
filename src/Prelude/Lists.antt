-- ===== src/Prelude/Lists.antt =====
-- Lists measured by native numbers, Boolean searches, and predicates over all elements.
use Prim.Native.Nat.{ℕ, zero, suc, ◌+◌, ◌≤◌}
use mathlib.Core.Path.{◌≡◌, refl, subst}
use mathlib.Core.Logic.{◌⊎◌, inl, inr}
use mathlib.Core.Bool.{Bool, true, false, not, ◌||◌}
use mathlib.Core.List.{List, [], ◌∷◌, ◌++◌}
use mathlib.Core.Option.{Option, none, some}
use native.Mathlib.Omega.{arith}
use khel_arena.Prelude.Tests.{if◌then◌else◌, Bool-cases, some-eq}

module _ {ℓ} {A : Type ℓ} where
  abbrev pub length : List A → ℕ
  length [] = 0
  length (x ∷ xs) = suc (length xs)

  abbrev pub take : ℕ → List A → List A
  take zero xs = []
  take (suc n) [] = []
  take (suc n) (x ∷ xs) = x ∷ take n xs

  pub length-take : (n : ℕ) (xs : List A) → length (take n xs) ≤ n
  length-take zero xs = omega arith
  length-take (suc n) [] = omega arith
  length-take (suc n) (x ∷ xs) = omega (arith, length-take n xs)

  pub length-append : (xs ys : List A) → length (xs ++ ys) ≡ length xs + length ys
  length-append [] ys = omega arith
  length-append (x ∷ xs) ys = omega (arith, length-append xs ys)

  -- Whether some element passes the test.
  abbrev pub any : (A → Bool) → List A → Bool
  any p [] = false
  any p (x ∷ xs) = p x || any p xs

  -- The first element that passes the test.
  abbrev pub find : (A → Bool) → List A → Option A
  find p [] = none
  find p (x ∷ xs) = if p x then some x else find p xs

  -- The elements that pass the test, in order.
  abbrev pub filter : (A → Bool) → List A → List A
  filter p [] = []
  filter p (x ∷ xs) = let rest = filter p xs in if p x then x ∷ rest else rest

-- Every element satisfies the predicate.
abbrev pub All {ℓ κ} : {A : Type ℓ} → (A → Type κ) → List A → Type κ
All P [] = Unit
All P (x ∷ xs) = P x × All P xs

-- Some element satisfies the predicate, and the proof says which.
abbrev pub Any {ℓ} : {A : Type ℓ} → (A → Type 0) → List A → Type 0
Any P [] = ⊥
Any P (x ∷ xs) = P x ⊎ Any P xs

-- No two elements at different places are related.
abbrev pub AllPairs {ℓ} : {A : Type ℓ} → (A → A → Bool) → List A → Type 0
AllPairs rel [] = Unit
AllPairs rel (x ∷ xs) = (any (rel x) xs ≡ false) × AllPairs rel xs

module _ {ℓ} {A : Type ℓ} where
  pub any-weaken :
      (p q : A → Bool)
      → ((x : A) → p x ≡ false → q x ≡ false)
      → (xs : List A) → any p xs ≡ false
      → any q xs ≡ false
  any-weaken p q weaker [] h = refl
  any-weaken p q weaker (x ∷ xs) h =
      let first : q x ≡ false = weaker x (ground arith) in
      let rest : any q xs ≡ false = any-weaken p q weaker xs (ground arith) in ground arith

  pub any-or :
      (p q : A → Bool) (xs : List A)
      → any p xs ≡ false
      → any q xs ≡ false
      → any (λ x. p x || q x) xs ≡ false
  any-or p q [] h k = refl
  any-or p q (x ∷ xs) h k =
      let rest : any (λ x. p x || q x) xs ≡ false = any-or p q xs (ground arith) (ground arith) in
      ground arith

  pub any-All : (p : A → Bool) (xs : List A) → any p xs ≡ false → All (λ x. p x ≡ false) xs
  any-All p [] h = tt
  any-All p (x ∷ xs) h = (ground arith, any-All p xs (ground arith))

  pub All-map {κ μ} :
      {P : A → Type κ} {Q : A → Type μ} (f : (x : A) → P x → Q x) (xs : List A)
      → All P xs
      → All Q xs
  All-map f [] h = tt
  All-map f (x ∷ xs) h = (f x h.0, All-map f xs h.1)

module _ {A : Type 0} where
  pub any-member :
      (p : A → Bool) (xs : List A) {x : A} → any p xs ≡ false → Any (λ y. y ≡ x) xs → p x ≡ false
  any-member p [] h m = elim m [ ]
  any-member p (y ∷ ys) h (inl e) = rw (← e) (ground arith)
  any-member p (y ∷ ys) h (inr m) = any-member p ys (ground arith) m

  pub All-member {κ} : (P : A → Type κ) (xs : List A) {x : A} → All P xs → Any (λ y. y ≡ x) xs → P x
  All-member P [] h m = elim m [ ]
  All-member P (y ∷ ys) h (inl e) = subst P e h.0
  All-member P (y ∷ ys) h (inr m) = All-member P ys h.1 m

  -- What `find` returns stands in the list and passes the test.
  pub find-some :
      (p : A → Bool) (xs : List A) {x : A} → find p xs ≡ some x → (p x ≡ true) × Any (λ y. y ≡ x) xs
  find-some p [] h = cc
  find-some p (y ∷ ys) h = elim (Bool-cases (p y)) [
    | inl yes_y ↦ let e : y ≡ _ = some-eq (rw yes_y at h) in (rw (← e) yes_y, inl e)
    | inr no_y ↦ let (t, m) = find-some p ys (rw no_y at h) in (t, inr m)
  ]

  pub any-find : (p : A → Bool) (xs : List A) → any p xs ≡ false → find p xs ≡ none
  any-find p [] h = refl
  any-find p (x ∷ xs) h =
      let rest : find p xs ≡ none = any-find p xs (ground arith) in
      let miss : p x ≡ false = ground arith in rw (miss, rest) refl

  pub filter-all : (p : A → Bool) (xs : List A) → any p xs ≡ false → filter (λ x. not (p x)) xs ≡ xs
  filter-all p [] h = refl
  filter-all p (x ∷ xs) h =
      let rest : filter (λ x. not (p x)) xs ≡ xs = filter-all p xs (ground arith) in
      let miss : p x ≡ false = ground arith in rw (miss, rest) refl

  pub any-filter :
      (p keep : A → Bool) (xs : List A) → any p xs ≡ false → any p (filter keep xs) ≡ false
  any-filter p keep [] h = refl
  any-filter p keep (x ∷ xs) h =
      let rest : any p (filter keep xs) ≡ false = any-filter p keep xs (ground arith) in
      elim (Bool-cases (keep x)) [
        | inl yes_keep ↦ rw yes_keep (ground arith)
        | inr no_keep ↦ rw no_keep rest
      ]

  pub any-filter_kept :
      (p keep : A → Bool)
      → ((x : A) → p x ≡ true → keep x ≡ true)
      → (xs : List A) → any p xs ≡ true
      → any p (filter keep xs) ≡ true
  any-filter_kept p keep kept [] h = cc
  any-filter_kept p keep kept (x ∷ xs) h = elim (Bool-cases (p x)) [
    | inl hit ↦ rw (kept x hit) (rw hit refl)
    | inr miss ↦
        let rest : any p (filter keep xs) ≡ true = any-filter_kept p keep kept xs (rw miss at h) in
        elim (Bool-cases (keep x)) [
          | inl yes_keep ↦ rw yes_keep (rw rest (ground arith))
          | inr no_keep ↦ rw no_keep rest
        ]
  ]

  pub AllPairs-filter :
      (rel : A → A → Bool) (keep : A → Bool) (xs : List A)
      → AllPairs rel xs
      → AllPairs rel (filter keep xs)
  AllPairs-filter rel keep [] h = tt
  AllPairs-filter rel keep (x ∷ xs) h =
      let rest = AllPairs-filter rel keep xs h.1 in
      elim (Bool-cases (keep x)) [
        | inl yes_keep ↦ rw yes_keep (any-filter (rel x) keep xs h.0, rest)
        | inr no_keep ↦ rw no_keep rest
      ]

  pub All-filter {κ} :
      (P : A → Type κ) (keep : A → Bool) (xs : List A) → All P xs → All P (filter keep xs)
  All-filter P keep [] h = tt
  All-filter P keep (x ∷ xs) h =
      let rest = All-filter P keep xs h.1 in
      elim (Bool-cases (keep x)) [
        | inl yes_keep ↦ rw yes_keep (h.0, rest)
        | inr no_keep ↦ rw no_keep rest
      ]

  -- What the kept elements are, from what all of them were.
  pub All-filter_kept {κ μ} :
      {P : A → Type κ} {Q : A → Type μ} (keep : A → Bool)
      → ((x : A) → keep x ≡ true → P x → Q x)
      → (xs : List A) → All P xs
      → All Q (filter keep xs)
  All-filter_kept keep f [] h = tt
  All-filter_kept keep f (x ∷ xs) h =
      let rest = All-filter_kept keep f xs h.1 in
      elim (Bool-cases (keep x)) [
        | inl yes_keep ↦ rw yes_keep (f x yes_keep h.0, rest)
        | inr no_keep ↦ rw no_keep rest
      ]

  pub All-zip {κ μ} :
      (P : A → Type κ) (Q : A → Type μ) (xs : List A)
      → All P xs
      → All Q xs
      → All (λ x. P x × Q x) xs
  All-zip P Q [] h k = tt
  All-zip P Q (x ∷ xs) h k = ((h.0, k.0), All-zip P Q xs h.1 k.1)
