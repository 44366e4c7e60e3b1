-- ===== src/Service/Matches/Agreement/Disputing.antt =====
-- The result after a dispute.
use khel_arena.Prelude.{
  ℕ, ◌≡◌, refl, sym, ap, subst, ◌∙◌, inl, inr, true, false, ◌&&◌, ◌||◌, some, arith, ℤ, pos, ◌==◌,
  ltb_ℤ, eq_ℤ, Bool-cases, any, find, find-some, if◌then◌else◌,
}
use khel_arena.Domain.Errors.{Result, ok, err, refuse, >>=-eq-ok, ok-eq}
use khel_arena.Domain.Match.{Match, can_be_confirmed_by, can_be_disputed_by}
use khel_arena.Store.Tables.{update_where}
use khel_arena.Store.Updates.{find-update_where, find-any}
use khel_arena.Store.Matches.{League, match_by_id, recount, is_match, is_unagreed, recounted}
use khel_arena.Service.Bookings.{refuse_if}
use khel_arena.Service.Matches.{captained_team, disputable, then_recount, read_back}
use khel_arena.Service.Matches.Agreement.Confirming.{allowed, match_by_id-found, found-match_by_id}

-- After a dispute the result is filed by who disputed it, with the score that they give.
pub recount-found :
    (id actor : ℕ) (home away : ℤ) (db : League) {m n : Match} {db' : League}
    → match_by_id db id ≡ ok n
    → n.verified ≡ false
    → read_back id (recount id home away actor db) ≡ (ok m, db')
    → (match_by_id db' id ≡ ok (recounted home away actor n)) × (m ≡ recounted home away actor n)
unfolding recount
recount-found id actor home away db {m} {n} {db'} stored unagreed h =
    let found = match_by_id-found db id stored in
    let named : is_match id n ≡ true = (find-some (is_match id) db.matches found).0 in
    let hit : is_unagreed id n ≡ true = ground arith in
    let some_hit : any (is_unagreed id) db.matches ≡ true =
      find-any (is_match id) (is_unagreed id) db.matches found hit in
    let after : find (is_match id)
          (update_where (is_unagreed id) (recounted home away actor) db.matches)
        ≡ some (if is_unagreed id n then recounted home away actor n else n) =
      find-update_where (is_unagreed id) (recounted home away actor) (is_match id) (λ x. refl)
        db.matches found in
    elim (Bool-cases (ltb_ℤ home (pos 0) || ltb_ℤ away (pos 0))) [
      | inl negative ↦ cc (ap (λ (x : Result Match × League). x.0) (rw (some_hit, negative) at h))
      | inr counted ↦
          let done = rw (some_hit, counted) at h in
          let db₁ : League = record db {
            matches = update_where (is_unagreed id) (recounted home away actor) db.matches;
          } in
          let stored₁ : match_by_id db₁ id ≡ ok (recounted home away actor n) =
            found-match_by_id db₁ id (rw hit at after) in
          let same : db₁ ≡ db' = ap (λ (x : Result Match × League). x.1) done in
          let result : match_by_id db₁ id ≡ ok m = ap (λ (x : Result Match × League). x.0) done in
          (
            subst (λ x. match_by_id x id ≡ ok (recounted home away actor n)) same stored₁,
            ok-eq (sym result ∙ stored₁),
          )
    ]

pub disputable-unagreed :
    (id actor : ℕ) (home away : ℤ) (db : League) {n : Match}
    → disputable id actor home away db ≡ ok n
    → (match_by_id db id ≡ ok n) × (n.verified ≡ false)
unfolding disputable can_be_disputed_by
disputable-unagreed id actor home away db {n} h =
    let (_, h₀, k₀) = >>=-eq-ok (refuse_if (actor == 0) _) _ h in
    let (_, h₁, k₁) = >>=-eq-ok (refuse_if (ltb_ℤ home (pos 0) || ltb_ℤ away (pos 0)) _) _ k₀ in
    let (m, h₂, k₂) = >>=-eq-ok (match_by_id db id) _ k₁ in
    let (team, h₃, k₃) = >>=-eq-ok (captained_team db actor m) _ k₂ in
    let (_, h₄, k₄) = >>=-eq-ok (refuse (can_be_confirmed_by m actor team)) _ k₃ in
    let (_, h₅, k₅) =
      >>=-eq-ok (refuse_if (eq_ℤ m.home_score home && eq_ℤ m.away_score away) _) _ k₄ in
    subst (λ x. (match_by_id db id ≡ ok x) × (x.verified ≡ false)) (ok-eq k₅)
      (h₂, (allowed m actor team h₄).0)

pub disputed_from :
    (id actor : ℕ) (home away : ℤ) (db : League) (o : Result Match) {m : Match} {db' : League}
    → ((n : Match) → o ≡ ok n → (match_by_id db id ≡ ok n) × (n.verified ≡ false))
    → then_recount o id home away actor db ≡ (ok m, db')
    → (n : Match) × (match_by_id db' id ≡ ok (recounted home away actor n))
      × (m ≡ recounted home away actor n)
disputed_from id actor home away db (ok n) able h =
    let (stored, unagreed) = able n refl in
    let (after, same) = recount-found id actor home away db stored unagreed h in (n, after, same)
disputed_from id actor home away db (err e) able h = cc (ap (λ (x : Result Match × League). x.0) h)
