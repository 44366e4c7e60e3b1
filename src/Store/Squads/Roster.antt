-- ===== src/Store/Squads/Roster.antt =====
-- Every statement on the squads keeps every team manned, as long as the service's checks let it
-- through.
use khel_arena.Prelude.{
  ℕ, ◌<◌, ◌≡◌, refl, ◌∙◌, sym, ap, subst, true, false, ◌&&◌, not, some, List, arith, ◌==◌, inl, inr,
  ◌⊎◌, any, find, any-filter_kept, All, AllPairs, All-map, All-zip, All-filter_kept,
  AllPairs-filter, if-intro,
}
use khel_arena.Domain.Errors.{Result, ok, err}
use khel_arena.Domain.Text.{Text}
use khel_arena.Domain.Match.{max_squad_size}
use khel_arena.Store.Tables.{update_where, commit}
use khel_arena.Store.Updates.{
  All-update_where, AllPairs-update_where, All-update_where_cases, any-update_where_same,
}
use khel_arena.Store.Squads.{
  TeamRow, TeamRole, Member, Squads, is_team, is_on, is_seat, is_user, leads_besides, count_members,
  with_role, with_captain, renamed, takes_name, takes_code, seat, add_member, update_team,
  remove_member, promote, transfer_captaincy, transfer_captaincy_tx, rotate_join_code, disband,
}
use khel_arena.Store.Squads.Manned.{
  IsManned, same_seat, same_team, All-found, is_armband, seat-IsManned, remove-IsManned,
  clear-IsManned, handed_over, hand_over-others, hand_over-IsManned,
}

pub record IsWellManned (db : Squads) : Type 0 where
  pub manned : All (IsManned db.members) db.teams
  pub apart : AllPairs same_team db.teams
  pub homed : All (λ m. any (is_team m.team_id) db.teams ≡ true) db.members
  pub keys : AllPairs same_seat db.members

abbrev pub IsWellMannedAfter : {A : Type 0} → Result A × Squads → Type 0
IsWellMannedAfter x = IsWellManned x.1

pub commit-IsWellManned :
    {A : Type 0} (db : Squads) (x : Result A × Squads)
    → IsWellManned db
    → IsWellMannedAfter x
    → IsWellMannedAfter (commit db x)
commit-IsWellManned db (ok a, after) before h = h
commit-IsWellManned db (err e, after) before h = before

-- Only the identifier and the captain of a team count.
IsManned-alike :
    {ms : List Member} (t u : TeamRow)
    → t.id ≡ u.id
    → t.captain_id ≡ u.captain_id
    → IsManned ms u
    → IsManned ms t
IsManned-alike {ms} t u same_id same_captain h = record {
  armband =
      ap (λ x. any (is_armband x t.captain_id) ms) same_id
      ∙ ap (λ x. any (is_armband u.id x) ms) same_captain
      ∙ h.armband;
  alone =
      ap (λ x. any (leads_besides x t.captain_id) ms) same_id
      ∙ ap (λ x. any (leads_besides u.id x) ms) same_captain
      ∙ h.alone;
  fits = rw same_id h.fits;
}

module _ (db : Squads) (well : IsWellManned db) where
  pub add_member-IsWellManned :
      (team user : ℕ)
      → count_members team db.members < max_squad_size
      → IsWellMannedAfter (add_member team user db)
  unfolding add_member seat
  add_member-IsWellManned team user room =
      if-intro IsWellMannedAfter (any (is_seat team user) db.members) _ _ (λ h. well)
        λ new_seat.
          if-intro IsWellMannedAfter (not (any (is_team team) db.teams && is_user db.users user)) _
            _ (λ h. well)
            λ known. record {
              manned =
                  All-map
                    (λ t h.
                      seat-IsManned team user db.members t h
                        λ hit. (let e : t.id ≡ team = ground arith in rw e room))
                    db.teams well.manned;
              apart = well.apart;
              homed = (ground arith, well.homed);
              keys = (new_seat, well.keys);
            }

  -- A change of a team that leaves its identifier and its captain alone.
  redraw-IsWellManned :
      (team : ℕ) (f : TeamRow → TeamRow)
      → ((t : TeamRow) → (f t).id ≡ t.id)
      → ((t : TeamRow) → (f t).captain_id ≡ t.captain_id)
      → IsWellManned (record db { teams = update_where (is_team team) f db.teams })
  redraw-IsWellManned team f same_id same_captain = record {
    manned =
        All-update_where (is_team team) f (IsManned db.members)
          (λ t p h. IsManned-alike (f t) t (same_id t) (same_captain t) h) db.teams well.manned;
    apart =
        AllPairs-update_where (is_team team) f same_team (λ t u p e. rw (same_id t) e)
          (λ t u p e. rw (same_id u) e) db.teams well.apart;
    homed =
        All-map
          (λ m h.
            any-update_where_same (is_team team) f (is_team m.team_id)
              (λ t p. ap (λ x. x == m.team_id) (same_id t)) db.teams
            ∙ h)
          db.members well.homed;
    keys = well.keys;
  }

  pub remove_member-IsWellManned :
      (team user : ℕ) {r : TeamRow}
      → find (is_team team) db.teams ≡ some r
      → (r.captain_id == user) ≡ false
      → IsWellMannedAfter (remove_member team user db)
  unfolding remove_member
  remove_member-IsWellManned team user {r} found other =
      if-intro IsWellMannedAfter (not (any (is_seat team user) db.members)) _ _ (λ h. well)
        λ h. record {
          manned =
              All-map
                (λ t (h, place). remove-IsManned team user db.members t h (elim place [
                  | inl miss ↦ inl miss
                  | inr e ↦ inr (ap (λ x. x.captain_id == user) e ∙ other)
                ]))
                db.teams
                (All-zip _ _ db.teams well.manned (All-found team db.teams well.apart found));
          apart = well.apart;
          homed =
              All-filter_kept (λ m. not (is_seat team user m)) (λ m k e. e) db.members well.homed;
          keys = AllPairs-filter same_seat _ db.members well.keys;
        }

  pub disband-IsWellManned : (team : ℕ) → IsWellMannedAfter (disband team db)
  unfolding disband
  disband-IsWellManned team =
      if-intro IsWellMannedAfter (not (any (is_team team) db.teams)) _ _ (λ h. well)
        λ h. record {
          manned =
              All-filter_kept (λ t. not (is_team team t))
                (λ t k h. clear-IsManned team db.members t h (ground arith)) db.teams well.manned;
          apart = AllPairs-filter same_team _ db.teams well.apart;
          homed =
              All-filter_kept (λ m. not (is_on team m))
                (λ m k h.
                  any-filter_kept (is_team m.team_id) (λ t. not (is_team team t))
                    (λ t e. ground arith) db.teams h)
                db.members well.homed;
          keys = AllPairs-filter same_seat _ db.members well.keys;
        }

  pub update_team-IsWellManned :
      (team : ℕ) (name tag : Text) → IsWellMannedAfter (update_team team name tag db)
  unfolding update_team
  update_team-IsWellManned team name tag =
      if-intro IsWellMannedAfter (not (any (is_team team) db.teams)) _ _ (λ h. well)
        λ h.
          if-intro IsWellMannedAfter (any (takes_name team name tag) db.teams) _ _ (λ k. well)
            λ k. redraw-IsWellManned team (renamed name tag) (λ t. refl) (λ t. refl)

  pub rotate_join_code-IsWellManned :
      (team : ℕ) (code : Text) → IsWellMannedAfter (rotate_join_code team code db)
  unfolding rotate_join_code
  rotate_join_code-IsWellManned team code =
      if-intro IsWellMannedAfter (not (any (is_team team) db.teams)) _ _ (λ h. well)
        λ h.
          if-intro IsWellMannedAfter (any (takes_code team code) db.teams) _ _ (λ k. well)
            λ k. redraw-IsWellManned team _ (λ t. refl) (λ t. refl)

  new_captain :
      (team to : ℕ) (t r : TeamRow)
      → IsManned db.members t
      → is_team team t ≡ true
      → ((t.id == team) ≡ false) ⊎ (t ≡ r)
      → any (is_seat team to) db.members ≡ true
      → IsManned (handed_over team r.captain_id to db.members) (with_captain to t)
  new_captain team to t r h hit place taken =
      let same : t.id ≡ team = ground arith in
      let e : t ≡ r = elim place [ inl miss ↦ cc | inr e ↦ e ] in
      subst (λ x. IsManned (handed_over x r.captain_id to db.members) (with_captain to t)) same
        (subst (λ x. IsManned (handed_over t.id x.captain_id to db.members) (with_captain to t)) e
          (hand_over-IsManned to db.members t h (rw same taken)))

  promote-IsWellManned :
      (team to : ℕ) {r : TeamRow}
      → find (is_team team) db.teams ≡ some r
      → IsWellMannedAfter (
          promote team to
            (update_where (is_seat team r.captain_id) (with_role TeamRole.player) db.members)
            db)
  unfolding promote
  promote-IsWellManned team to {r} found =
      let demoted =
        update_where (is_seat team r.captain_id) (with_role TeamRole.player) db.members in
      if-intro IsWellMannedAfter
        (any (is_seat team to) demoted && any (leads_besides team to) demoted) _ _ (λ h. well)
        λ h.
          if-intro IsWellMannedAfter (not (any (is_seat team to) demoted)) _ _ (λ k. well)
            λ k. record {
              manned =
                  All-update_where_cases (is_team team) (with_captain to)
                    (λ t p (h, place). new_captain team to t r h p place (
                      sym (
                        any-update_where_same (is_seat team r.captain_id)
                          (with_role TeamRole.player) (is_seat team to) (λ m p. refl) db.members)
                      ∙ ground arith))
                    (λ t p (h, place). hand_over-others team r.captain_id to db.members t h p)
                    db.teams
                    (All-zip _ _ db.teams well.manned (All-found team db.teams well.apart found));
              apart =
                  AllPairs-update_where (is_team team) (with_captain to) same_team (λ t u p e. e)
                    (λ t u p e. e) db.teams well.apart;
              homed =
                  All-update_where (is_seat team to) (with_role TeamRole.captain) _ (λ m p h. h)
                    demoted
                    (All-update_where (is_seat team r.captain_id) (with_role TeamRole.player) _
                      (λ m p h. h) db.members
                      (All-map
                        (λ m h.
                          any-update_where_same (is_team team) (with_captain to) (is_team m.team_id)
                            (λ t p. refl) db.teams
                          ∙ h)
                        db.members well.homed));
              keys =
                  AllPairs-update_where (is_seat team to) (with_role TeamRole.captain) same_seat
                    (λ m n p e. e) (λ m n p e. e) demoted
                    (AllPairs-update_where (is_seat team r.captain_id) (with_role TeamRole.player)
                      same_seat (λ m n p e. e) (λ m n p e. e) db.members well.keys);
            }

  pub transfer_captaincy-IsWellManned :
      (team to : ℕ) {r : TeamRow}
      → find (is_team team) db.teams ≡ some r
      → IsWellMannedAfter (transfer_captaincy team r.captain_id to db)
  unfolding transfer_captaincy transfer_captaincy_tx
  transfer_captaincy-IsWellManned team to {r} found =
      commit-IsWellManned db (transfer_captaincy_tx team r.captain_id to db) well
        (promote-IsWellManned team to found)
