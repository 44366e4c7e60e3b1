-- ===== src/Service/Owner/Confined.antt =====
-- What a run of OwnerService's calls does: whoever makes them, the tables stay in order, and nobody
-- touches the venues of another owner.
use khel_arena.Prelude.{ℕ, ◌≡◌, refl, ◌∙◌, Bool, true, false, ◌==◌, any, sym, ap}
use khel_arena.Domain.Errors.{Result, ok, err, refuse, >>=-eq-ok, ok-eq}
use khel_arena.Domain.Text.{Text}
use khel_arena.Domain.Arena.{Arena, Court, clean_arena, validate_arena}
use khel_arena.Domain.Pricing.{PricingRule}
use khel_arena.Store.Venues.{Venues, VenuesTx}
use khel_arena.Store.Venues.Owned.{IsOrderly, IsKept}
use khel_arena.Store.Venues.Confined.{
  kept, IsKeptAfter, create_arena-IsKept, update_arena-IsKept, set_arena_active-IsKept,
  create_court-IsKept, update_court-IsKept, set_court_active-IsKept, create_rule-IsKept,
  copy_rules-IsKept, delete_rule-IsKept,
}
use khel_arena.Store.Venues.Orderly.{
  IsOrderlyAfter, create_arena-IsOrderly, update_arena-IsOrderly, set_arena_active-IsOrderly,
  create_court-IsOrderly, update_court-IsOrderly, set_court_active-IsOrderly, create_rule-IsOrderly,
  copy_rules-IsOrderly, delete_rule-IsOrderly,
}
use khel_arena.Service.Owner.{
  then_write, signed_in, require_owner_account, new_arena, edited_arena, valid_court, create_arena,
  update_arena, set_arena_active, create_court, update_court, set_court_active, create_rule,
  copy_rules, delete_rule, valid_rule,
}

-- A call of the owner's, whatever it answers; the identifier of a new row is one that is not in use.
pub data OwnerStep (owner : ℕ) : Venues → Venues → Type 0 where
  lists :
      {db : Venues} (id : ℕ) (account : ℕ → Result Bool) (a : Arena)
      → any (λ b. id == b.id) db.arenas ≡ false
      → OwnerStep owner db (create_arena id owner account a db).1
  edits : {db : Venues} (id : ℕ) (a : Arena) → OwnerStep owner db (update_arena id owner a db).1
  opens :
      {db : Venues} (id : ℕ) (active : Bool)
      → OwnerStep owner db (set_arena_active id owner active db).1
  lays :
      {db : Venues} (id : ℕ) (c : Court) (format : Text)
      → any (λ d. id == d.court.id) db.courts ≡ false
      → OwnerStep owner db (create_court id owner c format db).1
  relays :
      {db : Venues} (id : ℕ) (c : Court) (format : Text)
      → OwnerStep owner db (update_court id owner c format db).1
  retires :
      {db : Venues} (id : ℕ) (active : Bool)
      → OwnerStep owner db (set_court_active id owner active db).1
  prices :
      {db : Venues} (id : ℕ) (r : PricingRule) → OwnerStep owner db (create_rule id owner r db).1
  copies :
      {db : Venues} (source target : ℕ) (draw : ℕ → ℕ)
      → OwnerStep owner db (copy_rules source target owner draw db).1
  unprices : {db : Venues} (id : ℕ) → OwnerStep owner db (delete_rule id owner db).1

-- Calls of any owners, one after the other.
pub data VenueReach (db : Venues) : Venues → Type 0 where
  at_once : VenueReach db db
  then_call :
      {mid after : Venues} (owner : ℕ)
      → VenueReach db mid
      → OwnerStep owner mid after
      → VenueReach db after

-- Calls of owners other than one.
pub data ElseReach (spared : ℕ) (db : Venues) : Venues → Type 0 where
  untouched : ElseReach spared db db
  then_else :
      {mid after : Venues} (owner : ℕ)
      → (owner == spared) ≡ false
      → ElseReach spared db mid
      → OwnerStep owner mid after
      → ElseReach spared db after

then_write-IsOrderly :
    {A B : Type 0} (x : Result A) (write : A → VenuesTx B) (db : Venues)
    → IsOrderly db
    → ((a : A) → IsOrderlyAfter (write a db))
    → IsOrderlyAfter (then_write x write db)
then_write-IsOrderly (ok a) write db orderly h = h a
then_write-IsOrderly (err e) write db orderly h = orderly

then_write-IsKept :
    {A B : Type 0} (other : ℕ) (x : Result A) (write : A → VenuesTx B) (db : Venues)
    → ((a : A) → x ≡ ok a → IsKeptAfter other db (write a db))
    → IsKeptAfter other db (then_write x write db)
then_write-IsKept other (ok a) write db h = h a refl
then_write-IsKept other (err e) write db h = kept

-- CreateArena lists the venue in the caller's name.
new_arena-owner :
    (owner : ℕ) (account : ℕ → Result Bool) (a : Arena) {b : Arena}
    → new_arena owner account a ≡ ok b
    → b.owner_id ≡ owner
unfolding new_arena clean_arena
new_arena-owner owner account a h =
    let arena = clean_arena (record a { owner_id = owner; is_active = true }) in
    let (_, _, k) = >>=-eq-ok (require_owner_account owner account) _ h in
    let (_, _, e) = >>=-eq-ok (refuse (validate_arena arena)) _ k in
    ap (λ x. x.owner_id) (sym (ok-eq {a = arena} e))

OwnerStep-IsOrderly :
    {owner : ℕ} {db after : Venues} → OwnerStep owner db after → IsOrderly db → IsOrderly after
unfolding create_arena update_arena set_arena_active create_court update_court set_court_active
    create_rule copy_rules delete_rule
OwnerStep-IsOrderly {owner} (lists {db} id account a fresh) orderly =
    then_write-IsOrderly (new_arena owner account a) _ db orderly
      (λ b. create_arena-IsOrderly db orderly id b fresh)
OwnerStep-IsOrderly {owner} (edits {db} id a) orderly =
    then_write-IsOrderly (edited_arena owner a) _ db orderly
      (update_arena-IsOrderly db orderly id owner)
OwnerStep-IsOrderly {owner} (opens {db} id active) orderly =
    then_write-IsOrderly (signed_in owner) _ db orderly
      (λ done. set_arena_active-IsOrderly db orderly id owner active)
OwnerStep-IsOrderly {owner} (lays {db} id c format fresh) orderly =
    then_write-IsOrderly (valid_court owner c) _ db orderly
      (λ court. create_court-IsOrderly db orderly id owner court format fresh)
OwnerStep-IsOrderly {owner} (relays {db} id c format) orderly =
    then_write-IsOrderly (valid_court owner c) _ db orderly
      (λ court. update_court-IsOrderly db orderly id owner court format)
OwnerStep-IsOrderly {owner} (retires {db} id active) orderly =
    then_write-IsOrderly (signed_in owner) _ db orderly
      (λ done. set_court_active-IsOrderly db orderly id owner active)
OwnerStep-IsOrderly {owner} (prices {db} id r) orderly =
    then_write-IsOrderly (valid_rule owner r) _ db orderly
      (λ done. create_rule-IsOrderly db orderly id owner r)
OwnerStep-IsOrderly {owner} (copies {db} source target draw) orderly =
    then_write-IsOrderly (signed_in owner) _ db orderly
      (λ done. copy_rules-IsOrderly db orderly source target owner draw)
OwnerStep-IsOrderly {owner} (unprices {db} id) orderly =
    then_write-IsOrderly (signed_in owner) _ db orderly
      (λ done. delete_rule-IsOrderly db orderly id owner)

-- Whatever owners list, edit, open, close and price, one after the other, no two venues share a web
-- address or an identifier, and every venue, court and rate meets the constraints of its table: hours
-- that run forward, an address of words and hyphens, positive prices, and rate windows that run
-- forward.
pub VenueReach-IsOrderly :
    {db after : Venues} → IsOrderly db → VenueReach db after → IsOrderly after
VenueReach-IsOrderly orderly at_once = orderly
VenueReach-IsOrderly orderly (then_call owner run step) =
    OwnerStep-IsOrderly step (VenueReach-IsOrderly orderly run)

module _ (owner other : ℕ) (apart : (owner == other) ≡ false) where
  OwnerStep-IsKept :
      {db after : Venues} → OwnerStep owner db after → IsOrderly db → IsKept other db after
  unfolding create_arena update_arena set_arena_active create_court update_court set_court_active
      create_rule copy_rules delete_rule
  OwnerStep-IsKept (lists {db} id account a fresh) orderly =
      then_write-IsKept other (new_arena owner account a) _ db (λ b made.
        create_arena-IsKept owner other apart db id b (new_arena-owner owner account a made))
  OwnerStep-IsKept (edits {db} id a) orderly =
      then_write-IsKept other (edited_arena owner a) _ db
        (λ b made. update_arena-IsKept owner other apart db id b)
  OwnerStep-IsKept (opens {db} id active) orderly =
      then_write-IsKept other (signed_in owner) _ db
        (λ done h. set_arena_active-IsKept owner other apart db id active)
  OwnerStep-IsKept (lays {db} id c format fresh) orderly =
      then_write-IsKept other (valid_court owner c) _ db
        (λ court h. create_court-IsKept owner other apart db orderly id court format)
  OwnerStep-IsKept (relays {db} id c format) orderly =
      then_write-IsKept other (valid_court owner c) _ db
        (λ court h. update_court-IsKept owner other apart db orderly id court format)
  OwnerStep-IsKept (retires {db} id active) orderly =
      then_write-IsKept other (signed_in owner) _ db
        (λ done h. set_court_active-IsKept owner other apart db orderly id active)
  OwnerStep-IsKept (prices {db} id r) orderly =
      then_write-IsKept other (valid_rule owner r) _ db
        (λ done h. create_rule-IsKept owner other apart db orderly id r)
  OwnerStep-IsKept (copies {db} source target draw) orderly =
      then_write-IsKept other (signed_in owner) _ db
        (λ done h. copy_rules-IsKept owner other apart db orderly source target draw)
  OwnerStep-IsKept (unprices {db} id) orderly =
      then_write-IsKept other (signed_in owner) _ db
        (λ done h. delete_rule-IsKept owner other apart db orderly id)

ElseReach-IsOrderly :
    {spared : ℕ} {db after : Venues} → IsOrderly db → ElseReach spared db after → IsOrderly after
ElseReach-IsOrderly orderly untouched = orderly
ElseReach-IsOrderly orderly (then_else owner apart run step) =
    OwnerStep-IsOrderly step (ElseReach-IsOrderly orderly run)

IsKept-trans :
    {other : ℕ} {db mid after : Venues}
    → IsKept other db mid
    → IsKept other mid after
    → IsKept other db after
IsKept-trans first last = record {
  arenas = last.arenas ∙ first.arenas;
  courts = last.courts ∙ first.courts;
  rules = last.rules ∙ first.rules;
}

-- An owner's venues are theirs alone: from tables in order, whatever calls other people make, with
-- whatever identifiers they name, the owner's arenas, the courts at them and the rate cards of those
-- courts are as they were.
pub ElseReach-IsKept :
    {spared : ℕ} {db after : Venues}
    → IsOrderly db
    → ElseReach spared db after
    → IsKept spared db after
ElseReach-IsKept orderly untouched = kept
ElseReach-IsKept {spared} orderly (then_else owner apart run step) =
    IsKept-trans (ElseReach-IsKept orderly run)
      (OwnerStep-IsKept owner spared apart step (ElseReach-IsOrderly orderly run))
