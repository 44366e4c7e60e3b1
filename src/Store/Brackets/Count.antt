-- ===== src/Store/Brackets/Count.antt =====
-- The count of a tournament is the number of its entries, and within its capacity.
use khel_arena.Prelude.{
  ℕ, suc, ◌+◌, ◌≡◌, refl, sym, ap, ◌∙◌, Bool, true, false, ◌&&◌, not, List, [], ◌∷◌, arith, pos,
  pos-add, ◌-ℤ◌, ◌≤ℤ◌, ◌==◌, inl, inr, any, filter, filter-all, All, AllPairs, AllPairs-filter,
  All-map, any-All, any-weaken, Bool-cases, if-intro, if◌then◌else◌,
}
use khel_arena.Domain.Errors.{Result}
use khel_arena.Domain.Enums.{TournamentStatus}
use khel_arena.Store.Tables.{update_where}
use khel_arena.Store.Updates.{All-update_where_cases, All-update_where, AllPairs-update_where}
use khel_arena.Store.Brackets.{
  TournamentRow, Entry, Brackets, is_tournament, is_entry, has_team, gain, lose, is_miscounted,
  register, withdraw, set_entry_paid, set_status, with_status,
}

abbrev pub entrants : ℕ → List Entry → ℕ
entrants id [] = 0
entrants id (e ∷ es) = let rest = entrants id es in if e.tournament_id == id then suc rest else rest

abbrev pub Exact : List Entry → TournamentRow → Type 0
Exact es t = t.team_count ≡ pos (entrants t.id es)

abbrev pub same_entry : Entry → Entry → Bool
same_entry e f = is_entry e.tournament_id e.team_id f

pub record IsCounted (db : Brackets) : Type 0 where
  pub exact : All (Exact db.entries) db.tournaments
  pub fits : All (λ t. t.team_count ≤ℤ t.max_teams) db.tournaments
  pub keys : AllPairs same_entry db.entries

abbrev pub IsCountedAfter : Result (Unit {0}) × Brackets → Type 0
IsCountedAfter x = IsCounted x.1

-- Taking one team out takes one from the tournament that it was in.
entrants-without :
    (tournament team id : ℕ) (es : List Entry)
    → AllPairs same_entry es
    → any (is_entry tournament team) es ≡ true
    → entrants id es
      ≡ (if tournament == id then 1 else 0)
        + entrants id (filter (λ e. not (is_entry tournament team e)) es)
entrants-without tournament team id [] keys h = cc
entrants-without tournament team id (e ∷ es) keys h =
    elim (Bool-cases (is_entry tournament team e)) [
      | inl hit ↦
          let alone : any (is_entry tournament team) es ≡ false =
            any-weaken (same_entry e) (is_entry tournament team) (λ f k. ground arith) es keys.0 in
          let same = filter-all (is_entry tournament team) es alone in rw (hit, same) (ground arith)
      | inr miss ↦
          let rest = entrants-without tournament team id es keys.1 (rw miss at h) in
          rw miss (ground arith)
    ]

entrants-paid :
    (tournament team id : ℕ) (paid : Bool) (es : List Entry)
    → entrants id (update_where (is_entry tournament team) (λ e. record e { paid = paid }) es)
      ≡ entrants id es
entrants-paid tournament team id paid [] = refl
entrants-paid tournament team id paid (e ∷ es) =
    let rest = entrants-paid tournament team id paid es in ground arith

within :
    (ts : List TournamentRow)
    → any is_miscounted ts ≡ false
    → All (λ t. t.team_count ≤ℤ t.max_teams) ts
within ts h = All-map (λ t k. ground arith) ts (any-All is_miscounted ts h)

gain-Exact :
    (tournament team actor : ℕ) (t : TournamentRow) (es : List Entry)
    → is_tournament tournament t ≡ true
    → Exact es t
    → Exact
        (record { tournament_id = tournament; team_id = team; registered_by = actor; paid = false }
          ∷ es)
        (gain t)
unfolding gain
gain-Exact tournament team actor t es hit exact =
    let same : (tournament == t.id) ≡ true = ground arith in
    rw (same, exact, pos-add) (ap pos (omega arith))

lose-Exact :
    (tournament team : ℕ) (t : TournamentRow) (es : List Entry)
    → AllPairs same_entry es
    → any (is_entry tournament team) es ≡ true
    → is_tournament tournament t ≡ true
    → Exact es t
    → Exact (filter (λ e. not (is_entry tournament team e)) es) (lose t)
unfolding lose ◌-ℤ◌
lose-Exact tournament team t es keys entered hit exact =
    let same : (tournament == t.id) ≡ true = ground arith in
    let less = entrants-without tournament team t.id es keys entered in
    rw exact (ground (arith, less))

kept-Exact :
    (tournament team : ℕ) (t : TournamentRow) (es : List Entry)
    → AllPairs same_entry es
    → any (is_entry tournament team) es ≡ true
    → is_tournament tournament t ≡ false
    → Exact es t
    → Exact (filter (λ e. not (is_entry tournament team e)) es) t
kept-Exact tournament team t es keys entered miss exact =
    let other : (tournament == t.id) ≡ false = ground arith in
    let less = entrants-without tournament team t.id es keys entered in
    let same : entrants t.id es
        ≡ entrants t.id (filter (λ e. not (is_entry tournament team e)) es) =
      ground (arith, less) in
    exact ∙ ap pos same

module _ (db : Brackets) (counted : IsCounted db) where
  pub register-IsCounted :
      (tournament team actor : ℕ) → IsCountedAfter (register tournament team actor db)
  unfolding register
  register-IsCounted tournament team actor =
      if-intro IsCountedAfter (any (is_entry tournament team) db.entries) _ _ (λ h. counted)
        λ new_entry.
          if-intro IsCountedAfter
            (not (any (is_tournament tournament) db.tournaments && has_team db.teams team)) _ _
            (λ h. counted)
            λ h.
              if-intro IsCountedAfter
                (any is_miscounted (update_where (is_tournament tournament) gain db.tournaments)) _
                _ (λ k. counted)
                λ fits. record {
                  exact =
                      All-update_where_cases (is_tournament tournament) gain
                        (λ t hit exact. gain-Exact tournament team actor t db.entries hit exact)
                        (λ t miss exact.
                          let other : (tournament == t.id) ≡ false = ground arith in rw other exact)
                        db.tournaments counted.exact;
                  fits = within _ fits;
                  keys = (new_entry, counted.keys);
                }

  pub withdraw-IsCounted : (tournament team : ℕ) → IsCountedAfter (withdraw tournament team db)
  unfolding withdraw
  withdraw-IsCounted tournament team =
      if-intro IsCountedAfter (not (any (is_entry tournament team) db.entries)) _ _ (λ h. counted)
        λ h.
          if-intro IsCountedAfter
            (any is_miscounted (update_where (is_tournament tournament) lose db.tournaments)) _ _
            (λ k. counted)
            λ fits.
              let entered : any (is_entry tournament team) db.entries ≡ true = ground arith in
              record {
                exact =
                    All-update_where_cases (is_tournament tournament) lose
                      (λ t hit exact.
                        lose-Exact tournament team t db.entries counted.keys entered hit exact)
                      (λ t miss exact.
                        kept-Exact tournament team t db.entries counted.keys entered miss exact)
                      db.tournaments counted.exact;
                fits = within _ fits;
                keys = AllPairs-filter same_entry _ db.entries counted.keys;
              }

  pub set_entry_paid-IsCounted :
      (tournament team : ℕ) (paid : Bool) → IsCountedAfter (set_entry_paid tournament team paid db)
  unfolding set_entry_paid
  set_entry_paid-IsCounted tournament team paid =
      if-intro IsCountedAfter (not (any (is_entry tournament team) db.entries)) _ _ (λ h. counted)
        λ h. record {
          exact =
              All-map
                (λ t exact.
                  exact ∙ ap pos (sym (entrants-paid tournament team t.id paid db.entries)))
                db.tournaments counted.exact;
          fits = counted.fits;
          keys =
              AllPairs-update_where (is_entry tournament team) _ same_entry (λ e f p k. k)
                (λ e f p k. k) db.entries counted.keys;
        }

  pub set_status-IsCounted :
      (tournament : ℕ) (status : TournamentStatus)
      → IsCountedAfter (set_status tournament status db)
  unfolding set_status
  set_status-IsCounted tournament status =
      if-intro IsCountedAfter (not (any (is_tournament tournament) db.tournaments)) _ _
        (λ h. counted)
        λ h. record {
          exact =
              All-update_where (is_tournament tournament) (with_status status) (Exact db.entries)
                (λ t p k. k) db.tournaments counted.exact;
          fits =
              All-update_where (is_tournament tournament) (with_status status) _ (λ t p k. k)
                db.tournaments counted.fits;
          keys = counted.keys;
        }
