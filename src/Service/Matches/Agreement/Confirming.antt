-- ===== src/Service/Matches/Agreement/Confirming.antt =====
-- What Confirm asks of a result and of who confirms it, and the result after it.
use khel_arena.Prelude.{
  ℕ, ◌≡◌, refl, sym, ap, subst, ◌∙◌, true, false, none, some, arith, ◌==◌, find, find-some,
  if◌then◌else◌,
}
use khel_arena.Domain.Errors.{Result, ok, err, refuse, >>=-eq-ok, ok-eq}
use khel_arena.Domain.Match.{Match, involves, can_be_confirmed_by}
use khel_arena.Store.Tables.{update_where}
use khel_arena.Store.Updates.{find-update_where}
use khel_arena.Store.Matches.{League, match_by_id, confirm_match, is_match, is_unagreed, agreed}
use khel_arena.Service.Bookings.{refuse_if}
use khel_arena.Service.Matches.{captained_team, confirmable, confirm_result, then_confirm}
use khel_arena.Service.Matches.Agreement.Parties.{IsPartyTo, captained_team-IsPartyTo}

-- A result that may be confirmed: stored, unagreed, and filed by someone who is not the actor; and the
-- actor captains one of its teams.
pub record IsConfirmable (db : League) (id actor : ℕ) (m : Match) : Type 0 where
  pub stored : match_by_id db id ≡ ok m
  pub unagreed : m.verified ≡ false
  pub filed : (m.reported_by == 0) ≡ false
  pub by_another : (m.reported_by == actor) ≡ false
  pub team : ℕ
  pub party : IsPartyTo db actor team m

pub allowed :
    (m : Match) (actor team : ℕ) {u : Unit {0}}
    → refuse (can_be_confirmed_by m actor team) ≡ ok u
    → (m.verified ≡ false) × ((m.reported_by == 0) ≡ false) × ((m.reported_by == actor) ≡ false)
unfolding can_be_confirmed_by
allowed m actor team h = ground arith

pub confirmable-IsConfirmable :
    (id actor : ℕ) (db : League) {m : Match}
    → confirmable id actor db ≡ ok m
    → IsConfirmable db id actor m
unfolding confirmable
confirmable-IsConfirmable id actor db {m} h =
    let (_, h₀, k₀) = >>=-eq-ok (refuse_if (actor == 0) _) _ h in
    let (m', h₁, k₁) = >>=-eq-ok (match_by_id db id) _ k₀ in
    let (team, h₂, k₂) = >>=-eq-ok (captained_team db actor m') _ k₁ in
    let (_, h₃, k₃) = >>=-eq-ok (refuse (can_be_confirmed_by m' actor team)) _ k₂ in
    let (unagreed, filed, by_another) = allowed m' actor team h₃ in
    subst (IsConfirmable db id actor) (ok-eq k₃) (record {
      stored = h₁;
      unagreed = unagreed;
      filed = filed;
      by_another = by_another;
      team = team;
      party = captained_team-IsPartyTo db actor m' h₂;
    })

pub match_by_id-found :
    (db : League) (id : ℕ) {m : Match}
    → match_by_id db id ≡ ok m
    → find (is_match id) db.matches ≡ some m
unfolding match_by_id
match_by_id-found db id h = ground arith

pub found-match_by_id :
    (db : League) (id : ℕ) {m : Match}
    → find (is_match id) db.matches ≡ some m
    → match_by_id db id ≡ ok m
unfolding match_by_id
found-match_by_id db id h = rw (match_by_id, h) refl

-- The stored result is agreed, and nothing else about it has changed.
pub confirm_match-agreed :
    (id : ℕ) (db : League) {m : Match}
    → match_by_id db id ≡ ok m
    → m.verified ≡ false
    → match_by_id (confirm_match id db) id ≡ ok (agreed m)
unfolding confirm_match
confirm_match-agreed id db {m} stored unagreed =
    let found = match_by_id-found db id stored in
    let named : is_match id m ≡ true = (find-some (is_match id) db.matches found).0 in
    let hit : is_unagreed id m ≡ true = ground arith in
    let after : find (is_match id) (update_where (is_unagreed id) agreed db.matches)
        ≡ some (if is_unagreed id m then agreed m else m) =
      find-update_where (is_unagreed id) agreed (is_match id) (λ x. refl) db.matches found in
    found-match_by_id (confirm_match id db) id (rw hit at after)

pub confirmed_from :
    (id actor : ℕ) (db : League) (o : Result Match) {m : Match} {db' : League}
    → ((n : Match) → o ≡ ok n → IsConfirmable db id actor n)
    → then_confirm o id db ≡ (ok m, db')
    → (n : Match) × IsConfirmable db id actor n × (m ≡ agreed n) × (db' ≡ confirm_match id db)
confirmed_from id actor db (ok n) {m} {db'} able h =
    let found = able n refl in
    let after = confirm_match-agreed id db found.stored found.unagreed in
    let result : match_by_id (confirm_match id db) id ≡ ok m =
      ap (λ (x : Result Match × League). x.0) h in
    (n, found, ok-eq (sym result ∙ after), sym (ap (λ (x : Result Match × League). x.1) h))
confirmed_from id actor db (err e) able h = cc (ap (λ (x : Result Match × League). x.0) h)

confirmable-ok :
    (id actor team : ℕ) (db : League) (m : Match)
    → (actor == 0) ≡ false
    → match_by_id db id ≡ ok m
    → captained_team db actor m ≡ ok team
    → can_be_confirmed_by m actor team ≡ none
    → confirmable id actor db ≡ ok m
unfolding confirmable
confirmable-ok id actor team db m known stored captain free = rw (known, stored, captain, free) refl

permitted :
    (m : Match) (actor team : ℕ)
    → involves m team ≡ true
    → m.verified ≡ false
    → (m.reported_by == 0) ≡ false
    → (m.reported_by == actor) ≡ false
    → can_be_confirmed_by m actor team ≡ none
unfolding can_be_confirmed_by
permitted m actor team side unagreed filed by_another = ground arith

pub confirm_result-confirmed :
    (id actor team : ℕ) (db : League) (m : Match)
    → (actor == 0) ≡ false
    → match_by_id db id ≡ ok m
    → captained_team db actor m ≡ ok team
    → m.verified ≡ false
    → (m.reported_by == 0) ≡ false
    → (m.reported_by == actor) ≡ false
    → confirm_result id actor db ≡ (ok (agreed m), confirm_match id db)
unfolding confirm_result
confirm_result-confirmed id actor team db m known stored captain unagreed filed by_another =
    let side = (captained_team-IsPartyTo db actor m captain).side in
    let free = permitted m actor team side unagreed filed by_another in
    rw
      (
        confirmable-ok id actor team db m known stored captain free,
        confirm_match-agreed id db stored unagreed,
      )
      refl
