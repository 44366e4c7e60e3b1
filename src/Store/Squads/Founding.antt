-- ===== src/Store/Squads/Founding.antt =====
-- A new team is manned by its captain alone.
use khel_arena.Prelude.{
  ℕ, ◌≡◌, refl, true, false, ◌&&◌, ◌||◌, not, List, [], ◌∷◌, arith, ◌==◌, any, any-weaken, any-All,
  All-zip, All, All-map, if-intro, Bool-cases, inl, inr,
}
use khel_arena.Domain.Errors.{Result, ok, err}
use khel_arena.Store.Tables.{commit}
use khel_arena.Store.Squads.{
  TeamRow, TeamRole, Member, Squads, is_team, is_on, is_seat, is_user, leads_besides, count_members,
  takes_name, takes_code, seat, seated, create_team, create_team_tx,
}
use khel_arena.Store.Squads.Manned.{IsManned}
use khel_arena.Store.Squads.Roster.{IsWellManned, IsWellMannedAfter}

-- Nobody is on a team that does not exist.
nobody :
    (id : ℕ) (ts : List TeamRow) (ms : List Member)
    → any (is_team id) ts ≡ false
    → All (λ m. any (is_team m.team_id) ts ≡ true) ms
    → any (is_on id) ms ≡ false
nobody id ts [] unused homed = refl
nobody id ts (m ∷ ms) unused homed =
    let rest = nobody id ts ms unused homed.1 in
    elim (Bool-cases (is_on id m)) [
      | inl hit ↦
          let same : m.team_id ≡ id = ground arith in
          let known : any (is_team id) ts ≡ true = rw same at homed.0 in cc
      | inr miss ↦ rw (miss, rest) refl
    ]

nobody-leads :
    (id user : ℕ) (ms : List Member)
    → any (is_on id) ms ≡ false
    → any (leads_besides id user) ms ≡ false
nobody-leads id user ms none_on =
    any-weaken (is_on id) (leads_besides id user) (λ m h. ground arith) ms none_on

count_members_nobody :
    (id : ℕ) (ms : List Member) → any (is_on id) ms ≡ false → count_members id ms ≡ 0
count_members_nobody id [] h = refl
count_members_nobody id (m ∷ ms) h =
    let rest = count_members_nobody id ms (ground arith) in ground arith

-- The captain's row leaves the teams with other identifiers manned.
captain-others :
    (team user : ℕ) (ms : List Member) (t : TeamRow)
    → IsManned ms t
    → (t.id == team) ≡ false
    → IsManned (record { team_id = team; user_id = user; role = TeamRole.captain } ∷ ms) t
captain-others team user ms t h other =
    let armband = h.armband in
    let alone = h.alone in
    let fits = h.fits in
    record { armband = ground arith; alone = ground arith; fits = ground arith }

-- What fails is rolled back, so only what goes well has to leave the teams manned.
abbrev Kept : {A : Type 0} → Result A × Squads → Type 0
Kept (ok a, after) = IsWellManned after
Kept (err e, after) = Unit

commit-Kept :
    {A : Type 0} (db : Squads) (x : Result A × Squads)
    → IsWellManned db
    → Kept x
    → IsWellMannedAfter (commit db x)
commit-Kept db (ok a, after) before kept = kept
commit-Kept db (err e, after) before kept = before

seated-Kept : (t : TeamRow) (x : Result (Unit {0}) × Squads) → Kept x → Kept (seated t x)
seated-Kept t (ok u, after) kept = kept
seated-Kept t (err e, after) kept = tt

module _ (db : Squads) (well : IsWellManned db) (t : TeamRow) where
  founded-IsWellManned :
      any (is_team t.id) db.teams ≡ false
      → any (is_seat t.id t.captain_id) db.members ≡ false
      → IsWellManned (record db {
        teams = t ∷ db.teams;
        members =
            record { team_id = t.id; user_id = t.captain_id; role = TeamRole.captain } ∷ db.members;
      })
  founded-IsWellManned unused free =
      let none_on = nobody t.id db.teams db.members unused well.homed in
      let none_lead = nobody-leads t.id t.captain_id db.members none_on in
      let count = count_members_nobody t.id db.members none_on in
      record {
        manned = (
          record { armband = ground arith; alone = ground arith; fits = ground arith },
          All-map (λ u (h, other). captain-others t.id t.captain_id db.members u h other) db.teams
              (All-zip _ _ db.teams well.manned (any-All (is_team t.id) db.teams unused)),
        );
        apart = (unused, well.apart);
        homed = (ground arith, All-map (λ m h. ground arith) db.members well.homed);
        keys = (free, well.keys);
      }

  create_team_tx-Kept : Kept (create_team_tx t db)
  unfolding create_team_tx seat
  create_team_tx-Kept =
      if-intro Kept
        (any (takes_name t.id t.name t.tag) db.teams || any (takes_code t.id t.join_code) db.teams)
        _ _ (λ h. tt)
        λ h.
          if-intro Kept (any (is_team t.id) db.teams || not (is_user db.users t.captain_id)) _ _
            (λ k. tt)
            λ k. seated-Kept t _ (
              if-intro (Kept {A = Unit {0}}) (any (is_seat t.id t.captain_id) db.members) _ _
                (λ l. tt)
                λ free.
                  if-intro (Kept {A = Unit {0}})
                    (not (any (is_team t.id) (t ∷ db.teams) && is_user db.users t.captain_id)) _ _
                    (λ l. tt) λ l. founded-IsWellManned (ground arith) free)

  pub create_team-IsWellManned : IsWellMannedAfter (create_team t db)
  unfolding create_team
  create_team-IsWellManned = commit-Kept db (create_team_tx t db) well create_team_tx-Kept
