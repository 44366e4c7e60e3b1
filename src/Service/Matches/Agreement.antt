-- ===== src/Service/Matches/Agreement.antt =====
-- Who agrees to a result, and what may change once it is agreed.
mod Parties
pub mod Confirming
mod Disputing
use khel_arena.Prelude.{
  ℕ, ◌≡◌, ◌≢◌, refl, sym, ap, subst, ◌∙◌, inl, inr, Bool, true, false, ◌&&◌, ◌||◌, none, some,
  arith, ℤ, pos, ◌==◌, ltb_ℤ, eq_ℤ, Bool-cases, any, find, find-some, if◌then◌else◌,
}
use khel_arena.Domain.Errors.{Error, Result, ok, err, refuse, >>=-eq-ok, ok-eq}
use khel_arena.Domain.Match.{
  Match, Team, is_captain, involves, can_be_confirmed_by, can_be_disputed_by,
}
use khel_arena.Store.Tables.{update_where}
use khel_arena.Store.Updates.{find-update_where, find-any}
use khel_arena.Store.Matches.{
  League, match_by_id, team_by_id, confirm_match, recount, is_match, is_unagreed, agreed, recounted,
}
use khel_arena.Service.Bookings.{refuse_if}
use khel_arena.Service.Matches.{
  captains, captained_team, confirmable, confirm_result, then_confirm, disputable, dispute,
  then_recount, read_back,
}
use khel_arena.Service.Matches.Agreement.Parties.{
  IsPartyTo, captain_found, captains-true, chosen, captained_team-IsPartyTo,
}
use khel_arena.Service.Matches.Agreement.Confirming.{
  IsConfirmable, confirmable-IsConfirmable, confirm_match-agreed, confirmed_from,
  confirm_result-confirmed,
}
use khel_arena.Service.Matches.Agreement.Disputing.{disputable-unagreed, disputed_from}

-- A result is agreed by Confirm only if it was stored and unagreed, somebody had filed it, whoever
-- confirms is not the one who filed it, and captains one of the two teams. Nothing but the agreement
-- changes: the scores are the ones that were stored when Confirm read them.
pub confirm_result-agreed :
    (id actor : ℕ) (db : League) {m : Match} {db' : League}
    → confirm_result id actor db ≡ (ok m, db')
    → (n : Match) × IsConfirmable db id actor n × (m ≡ agreed n) × (db' ≡ confirm_match id db)
unfolding confirm_result
confirm_result-agreed id actor db h =
    confirmed_from id actor db (confirmable id actor db)
      (λ n. confirmable-IsConfirmable id actor db) h

-- The result that is agreed is the one that was filed.
pub record IsAgreement (m n : Match) : Type 0 where
  pub verified : n.verified ≡ true
  pub same_home : n.home_score ≡ m.home_score
  pub same_away : n.away_score ≡ m.away_score
  pub same_reporter : n.reported_by ≡ m.reported_by

agreed-IsAgreement : (m : Match) → IsAgreement m (agreed m)
agreed-IsAgreement m = record {
  verified = refl;
  same_home = refl;
  same_away = refl;
  same_reporter = refl;
}

-- A result that is stored, unagreed and filed by somebody is agreed by any other player who captains
-- one of its two teams when they confirm, whichever side had filed it: the answer, and what is stored
-- after it, is verified, with the scores and the reporter that it had; and nobody can confirm it
-- again on the tables that this leaves.
pub confirm_result-ok :
    (id actor team : ℕ) (db : League) (m : Match)
    → (actor == 0) ≡ false
    → match_by_id db id ≡ ok m
    → captained_team db actor m ≡ ok team
    → m.verified ≡ false
    → (m.reported_by == 0) ≡ false
    → (m.reported_by == actor) ≡ false
    → (n : Match) × (db' : League) × (confirm_result id actor db ≡ (ok n, db'))
      × (match_by_id db' id ≡ ok n)
      × IsAgreement m n
      × ((later : ℕ) (k : Match) (after : League) → confirm_result id later db' ≢ (ok k, after))
confirm_result-ok id actor team db m known stored captain unagreed filed by_another =
    let after = confirm_match-agreed id db stored unagreed in
    (
      agreed m,
      confirm_match id db,
      confirm_result-confirmed id actor team db m known stored captain unagreed filed by_another,
      after,
      agreed-IsAgreement m,
      (λ later k db' again.
          let (n, able, _, _) = confirm_result-agreed id later (confirm_match id db) again in
          let same : n ≡ agreed m = ok-eq (sym able.stored ∙ after) in
          let open_still : (agreed m).verified ≡ false = rw same at able.unagreed in ground arith),
    )

-- A dispute files the score that it gives under the name of who disputes, so that the ball goes back:
-- whoever disputed cannot confirm their own score.
pub dispute-confirm_result :
    (id actor : ℕ) (home away : ℤ) (db : League) {m : Match} {db' : League}
    → dispute id actor home away db ≡ (ok m, db')
    → (m.home_score ≡ home)
      × (m.away_score ≡ away)
      × (m.reported_by ≡ actor)
      × ((k : Match) (after : League) → confirm_result id actor db' ≢ (ok k, after))
unfolding dispute
dispute-confirm_result id actor home away db {m} {db'} h =
    let (n, stored, e) =
      disputed_from id actor home away db (disputable id actor home away db)
        (λ n. disputable-unagreed id actor home away db) h in
    (
      rw e refl,
      rw e refl,
      rw e refl,
      (λ k after confirmed.
          let (x, able, _, _) = confirm_result-agreed id actor db' confirmed in
          let same : x ≡ recounted home away actor n = ok-eq (sym able.stored ∙ stored) in
          let other : (actor == actor) ≡ false = rw same at able.by_another in ground arith),
    )
