-- ===== src/Store/Updates.antt =====
-- What an UPDATE keeps of a table: the same rows, each as it was or changed.
use khel_arena.Prelude.{
  ◌≡◌, refl, ap, Bool, true, false, some, List, [], ◌∷◌, inl, inr, arith, any, find, some-eq, All,
  AllPairs, any-weaken, Bool-cases, if◌then◌else◌, length, filter, not,
}
use khel_arena.Domain.Errors.{Error, ok, err}
use khel_arena.Store.Tables.{Db, Tx, commit, in_tx, update_where}

module _ {ℓ} {A : Type ℓ} (p : A → Bool) (f : A → A) where
  pub any-update_where :
      (q : A → Bool)
      → ((x : A) → p x ≡ true → q x ≡ false → q (f x) ≡ false)
      → (xs : List A) → any q xs ≡ false
      → any q (update_where p f xs) ≡ false
  any-update_where q keep [] h = refl
  any-update_where q keep (x ∷ xs) h =
      let rest : any q (update_where p f xs) ≡ false = any-update_where q keep xs (ground arith) in
      elim (Bool-cases (p x)) [
        | inl hit ↦ rw hit (rw (keep x hit (ground arith)) rest)
        | inr miss ↦ rw miss (ground arith)
      ]

  pub All-update_where {κ} :
      (P : A → Type κ)
      → ((x : A) → p x ≡ true → P x → P (f x))
      → (xs : List A) → All P xs
      → All P (update_where p f xs)
  All-update_where P keep [] h = tt
  All-update_where P keep (x ∷ xs) h =
      let rest = All-update_where P keep xs h.1 in
      elim (Bool-cases (p x)) [
        | inl hit ↦ (rw hit (keep x hit h.0), rest)
        | inr miss ↦ (rw miss h.0, rest)
      ]

  -- What the rows are, changed or not, from what they were.
  pub All-update_where_cases {κ μ} :
      {P : A → Type κ} {Q : A → Type μ}
      → ((x : A) → p x ≡ true → P x → Q (f x))
      → ((x : A) → p x ≡ false → P x → Q x)
      → (xs : List A) → All P xs
      → All Q (update_where p f xs)
  All-update_where_cases moved kept [] h = tt
  All-update_where_cases moved kept (x ∷ xs) h =
      let rest = All-update_where_cases moved kept xs h.1 in
      elim (Bool-cases (p x)) [
        | inl hit ↦ (rw hit (moved x hit h.0), rest)
        | inr miss ↦ (rw miss (kept x miss h.0), rest)
      ]

  pub AllPairs-update_where :
      (rel : A → A → Bool)
      → ((x y : A) → p x ≡ true → rel x y ≡ false → rel (f x) y ≡ false)
      → ((x y : A) → p y ≡ true → rel x y ≡ false → rel x (f y) ≡ false)
      → (xs : List A) → AllPairs rel xs
      → AllPairs rel (update_where p f xs)
  AllPairs-update_where rel left right [] h = tt
  AllPairs-update_where rel left right (x ∷ xs) h =
      let rest = AllPairs-update_where rel left right xs h.1 in
      let kept : any (rel x) (update_where p f xs) ≡ false =
        any-update_where (rel x) (right x) xs h.0 in
      elim (Bool-cases (p x)) [
        | inl hit ↦ (rw hit (any-weaken (rel x) (rel (f x)) (λ y. left x y hit) _ kept), rest)
        | inr miss ↦ (rw miss kept, rest)
      ]

  pub length-update_where : (xs : List A) → length (update_where p f xs) ≡ length xs
  length-update_where [] = refl
  length-update_where (x ∷ xs) = rw (length-update_where xs) refl

  -- An UPDATE does not touch the rows that do not meet its condition.
  pub filter-update_where :
      ((x : A) → p x ≡ true → p (f x) ≡ true)
      → (xs : List A) → filter (λ x. not (p x)) (update_where p f xs) ≡ filter (λ x. not (p x)) xs
  filter-update_where keep [] = refl
  filter-update_where keep (x ∷ xs) =
      let rest = filter-update_where keep xs in
      elim (Bool-cases (p x)) [
        | inl hit ↦ let still = keep x hit in rw hit (rw still rest)
        | inr miss ↦ rw miss (rw miss (ap (λ ys. x ∷ ys) rest))
      ]

  -- A row that stays as a test wants it is found after it.
  pub any-update_where_kept :
      (q : A → Bool)
      → ((x : A) → p x ≡ true → q x ≡ true → q (f x) ≡ true)
      → (xs : List A) → any q xs ≡ true
      → any q (update_where p f xs) ≡ true
  any-update_where_kept q keep [] h = h
  any-update_where_kept q keep (x ∷ xs) h = elim (Bool-cases (q x)) [
    | inl here ↦ elim (Bool-cases (p x)) [
      | inl hit ↦ let still = keep x hit here in rw (hit, still) refl
      | inr miss ↦ rw (miss, here) refl
    ]
    | inr elsewhere ↦
        let rest = any-update_where_kept q keep xs (ground arith) in
        elim (Bool-cases (p x)) [
          | inl hit ↦ rw hit (ground arith)
          | inr miss ↦ rw miss (ground arith)
        ]
  ]

  -- An UPDATE that ends its own condition leaves no row that meets it.
  pub any-update_where_self :
      ((x : A) → p x ≡ true → p (f x) ≡ false) → (xs : List A) → any p (update_where p f xs) ≡ false
  any-update_where_self ends [] = refl
  any-update_where_self ends (x ∷ xs) = elim (Bool-cases (p x)) [
    | inl hit ↦ rw hit (rw (ends x hit) (any-update_where_self ends xs))
    | inr miss ↦ rw miss (rw miss (any-update_where_self ends xs))
  ]

  -- A test that the change does not turn gives the same answer on the table.
  pub any-update_where_same :
      (q : A → Bool)
      → ((x : A) → p x ≡ true → q (f x) ≡ q x)
      → (xs : List A) → any q (update_where p f xs) ≡ any q xs
  any-update_where_same q same [] = refl
  any-update_where_same q same (x ∷ xs) = elim (Bool-cases (p x)) [
    | inl hit ↦ rw hit (rw (same x hit, any-update_where_same q same xs) refl)
    | inr miss ↦ rw miss (rw (any-update_where_same q same xs) refl)
  ]

  -- Where some row is changed, some row is as the change leaves it.
  pub any-update_where_hit :
      (q : A → Bool)
      → ((x : A) → p x ≡ true → q (f x) ≡ true)
      → (xs : List A) → any p xs ≡ true
      → any q (update_where p f xs) ≡ true
  any-update_where_hit q becomes [] h = cc
  any-update_where_hit q becomes (x ∷ xs) h = elim (Bool-cases (p x)) [
    | inl hit ↦ rw hit (rw (becomes x hit) refl)
    | inr miss ↦
        let rest : any q (update_where p f xs) ≡ true =
          any-update_where_hit q becomes xs (rw miss at h) in
        rw miss (rw rest (ground arith))
  ]

  -- The same for a test that the change makes stricter or looser.
  pub any-update_where_from :
      (q r : A → Bool)
      → ((x : A) → p x ≡ true → q x ≡ false → r (f x) ≡ false)
      → ((x : A) → p x ≡ false → q x ≡ false → r x ≡ false)
      → (xs : List A) → any q xs ≡ false
      → any r (update_where p f xs) ≡ false
  any-update_where_from q r moved kept [] h = refl
  any-update_where_from q r moved kept (x ∷ xs) h =
      let rest : any r (update_where p f xs) ≡ false =
        any-update_where_from q r moved kept xs (ground arith) in
      elim (Bool-cases (p x)) [
        | inl hit ↦ rw hit (rw (moved x hit (ground arith)) rest)
        | inr miss ↦ rw miss (rw (kept x miss (ground arith)) rest)
      ]

-- A transaction that answers is kept, and one that fails is undone.
pub in_tx-ok :
    {A : Type 0} (m : Tx A) (db : Db) {a : A} {db' : Db}
    → m db ≡ (ok a, db')
    → in_tx m db ≡ (ok a, db')
in_tx-ok m db h = ap (commit db) h

pub in_tx-err :
    {A : Type 0} (m : Tx A) (db : Db) {e : Error} {db' : Db}
    → m db ≡ (err e, db')
    → in_tx m db ≡ (err e, db)
in_tx-err m db h = ap (commit db) h

module _ {A : Type 0} (p : A → Bool) (f : A → A) where
  -- A row that is found by a test that the change does not turn is found again, as it is now.
  pub find-update_where :
      (q : A → Bool)
      → ((x : A) → q (f x) ≡ q x)
      → (xs : List A) {y : A} → find q xs ≡ some y
      → find q (update_where p f xs) ≡ some (if p y then f y else y)
  find-update_where q same [] h = cc
  find-update_where q same (x ∷ xs) {y} h = elim (Bool-cases (q x)) [
    | inl here ↦
        let e : x ≡ y = some-eq (rw here at h) in
        rw (← e) (elim (Bool-cases (p x)) [
          | inl hit ↦ rw (hit, same x, here) refl
          | inr miss ↦ rw (miss, here) refl
        ])
    | inr elsewhere ↦
        let rest = find-update_where q same xs (rw elsewhere at h) in
        elim (Bool-cases (p x)) [
          | inl hit ↦ rw (hit, same x, elsewhere) rest
          | inr miss ↦ rw (miss, elsewhere) rest
        ]
  ]

pub find-any :
    {A : Type 0} (q p : A → Bool) (xs : List A) {y : A}
    → find q xs ≡ some y
    → p y ≡ true
    → any p xs ≡ true
find-any q p [] h k = cc
find-any q p (x ∷ xs) {y} h k = elim (Bool-cases (q x)) [
  | inl here ↦ let e : x ≡ y = some-eq (rw here at h) in rw (e, k) refl
  | inr elsewhere ↦
      let rest : any p xs ≡ true = find-any q p xs (rw elsewhere at h) k in ground arith
]
