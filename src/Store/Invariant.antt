-- ===== src/Store/Invariant.antt =====
-- What holds of the tables between two transactions.
use khel_arena.Prelude.{
  ℕ, ◌≡◌, refl, Bool, true, false, ◌&&◌, not, Option, none, some, List, ◌==◌, any, AllPairs,
  if◌then◌else◌,
}
use khel_arena.Domain.Errors.{Error, Result, ok, err}
use khel_arena.Domain.Enums.{is_pending}
use khel_arena.Domain.Payment.{Payment, is_some}
use khel_arena.Store.Tables.{BookingRow, Db, Tx, commit, in_tx, clash, has_verified}

abbrev pub same_booking_id : BookingRow → BookingRow → Bool
same_booking_id a b = a.id == b.id

abbrev pub same_payment_id : Payment → Payment → Bool
same_payment_id p q = p.id == q.id

-- A hold that has no end.
abbrev pub is_unfused : BookingRow → Bool
is_unfused r = is_pending r.status && not (is_some r.hold_expires_at)

-- A hold that has been paid for.
abbrev pub is_paid_hold : List Payment → BookingRow → Bool
is_paid_hold payments r = is_pending r.status && has_verified payments r.id

-- No two live bookings of a court overlap; every hold has an end; no booking with a verified payment
-- is still a hold; and identifiers are unique.
pub record IsSound (db : Db) : Type 0 where
  pub disjoint : AllPairs clash db.bookings
  pub fused : any is_unfused db.bookings ≡ false
  pub unpaid : any (is_paid_hold db.payments) db.bookings ≡ false
  pub booking_ids : AllPairs same_booking_id db.bookings
  pub payment_ids : AllPairs same_payment_id db.payments

-- A transaction that answers leaves sound tables; one that fails is undone, whatever it wrote.
abbrev pub Safe {ℓ} : {A : Type ℓ} → Result A × Db → Type 0
Safe (ok a, db) = IsSound db
Safe (err e, db) = Unit

commit-IsSound :
    {A : Type 0} (db : Db) (x : Result A × Db) → IsSound db → Safe x → IsSound (commit db x).1
commit-IsSound db (ok a, db') sound safe = safe
commit-IsSound db (err e, db') sound safe = sound

pub in_tx-IsSound :
    {A : Type 0} (m : Tx A) (db : Db) → IsSound db → Safe (m db) → IsSound (in_tx m db).1
in_tx-IsSound m db sound safe = commit-IsSound db (m db) sound safe

pub Safe-if :
    {A : Type 0} (c : Bool) (x y : Result A × Db)
    → (c ≡ true → Safe x)
    → (c ≡ false → Safe y)
    → Safe (if c then x else y)
Safe-if true x y h k = h refl
Safe-if false x y h k = k refl

-- An identifier that gen_random_uuid() may return: no booking has it, and no payment names it.
pub record IsFreshBooking (db : Db) (id : ℕ) : Type 0 where
  pub unused : any (λ r. id == r.id) db.bookings ≡ false
  pub unnamed : has_verified db.payments id ≡ false

pub Safe-option :
    {A B : Type 0} (o : Option B) (x : Result A × Db) (f : B → Result A × Db)
    → Safe x
    → ((b : B) → o ≡ some b → Safe (f b))
    → Safe {A = A} (elim o [ none ↦ x | some b ↦ f b ])
Safe-option none x f h k = h
Safe-option (some b) x f h k = k b refl

pub Safe-result :
    {A B : Type 0} (o : Result B) (x : Error → Result A × Db) (f : B → Result A × Db)
    → ((e : Error) → Safe (x e))
    → ((b : B) → o ≡ ok b → Safe (f b))
    → Safe {A = A} (elim o [ err e ↦ x e | ok b ↦ f b ])
Safe-result (err e) x f h k = h e
Safe-result (ok b) x f h k = k b refl

-- Where the tables are as they were, any answer is safe.
pub Safe-same : {A : Type 0} (x : Result A) (db : Db) → IsSound db → Safe (x, db)
Safe-same (ok a) db h = h
Safe-same (err e) db h = tt

-- The tables that a call leaves.
abbrev pub IsSoundAfter : {A : Type 0} → Result A × Db → Type 0
IsSoundAfter x = IsSound x.1
