-- ===== src/Store/Squads/Manned.antt =====
-- A team is manned if its captain, and nobody else, leads it on the roster, and it has at most as many
-- members as a squad may have.
use khel_arena.Prelude.{
  ℕ, ◌≤◌, ◌<◌, ◌≡◌, refl, Bool, true, false, ◌&&◌, not, some, List, [], ◌∷◌, arith, ◌==◌, inl, inr,
  any, find, filter, any-filter, any-filter_kept, ◌∙◌, All, AllPairs, All-map, Bool-cases, some-eq,
  any-weaken, any-All, ◌⊎◌,
}
use khel_arena.Domain.Match.{max_squad_size}
use khel_arena.Store.Tables.{update_where}
use khel_arena.Store.Updates.{any-update_where_same, any-update_where_from, any-update_where_hit}
use khel_arena.Store.Squads.{
  TeamRow, TeamRole, Member, is_team, is_on, is_seat, leads, leads_besides, count_members,
  with_role,
}

-- The captain's own row.
abbrev pub is_armband : ℕ → ℕ → Member → Bool
is_armband team user m = is_seat team user m && leads m.role

pub record IsManned (ms : List Member) (t : TeamRow) : Type 0 where
  pub armband : any (is_armband t.id t.captain_id) ms ≡ true
  pub alone : any (leads_besides t.id t.captain_id) ms ≡ false
  pub fits : count_members t.id ms ≤ max_squad_size

abbrev pub same_seat : Member → Member → Bool
same_seat m n = is_seat m.team_id m.user_id n

abbrev pub same_team : TeamRow → TeamRow → Bool
same_team t u = is_team t.id u

-- The one row that has the identifier of a row that is found is that row.
pub All-found :
    (team : ℕ) (ts : List TeamRow) {r : TeamRow}
    → AllPairs same_team ts
    → find (is_team team) ts ≡ some r
    → All (λ t. (t.id == team) ≡ false ⊎ (t ≡ r)) ts
All-found team [] unique found = tt
All-found team (t ∷ ts) {r} unique found = elim (Bool-cases (is_team team t)) [
  | inl hit ↦
      let e : t ≡ r = some-eq (rw hit at found) in
      let alone : any (is_team team) ts ≡ false =
        any-weaken (same_team t) (is_team team) (λ u h. ground arith) ts unique.0 in
      (inr e, All-map (λ u h. inl h) ts (any-All (is_team team) ts alone))
  | inr miss ↦ (inl miss, All-found team ts unique.1 (rw miss at found))
]

count_members-filter :
    (team : ℕ) (keep : Member → Bool) (ms : List Member)
    → count_members team (filter keep ms) ≤ count_members team ms
count_members-filter team keep [] = omega arith
count_members-filter team keep (m ∷ ms) =
    let rest = count_members-filter team keep ms in ground arith

count_members-update_where :
    (team : ℕ) (p : Member → Bool) (role : TeamRole) (ms : List Member)
    → count_members team (update_where p (with_role role) ms) ≡ count_members team ms
count_members-update_where team p role [] = refl
count_members-update_where team p role (m ∷ ms) =
    let rest = count_members-update_where team p role ms in ground arith

-- Seating a player.
pub seat-IsManned :
    (team user : ℕ) (ms : List Member) (t : TeamRow)
    → IsManned ms t
    → ((t.id == team) ≡ true → count_members t.id ms < max_squad_size)
    → IsManned (record { team_id = team; user_id = user; role = TeamRole.player } ∷ ms) t
seat-IsManned team user ms t h room =
    let armband = h.armband in
    let alone = h.alone in
    let fits = h.fits in
    record { armband = ground arith; alone = ground arith; fits = ground arith }

-- Removing one who is not the captain.
pub remove-IsManned :
    (team user : ℕ) (ms : List Member) (t : TeamRow)
    → IsManned ms t
    → ((t.id == team) ≡ false) ⊎ ((t.captain_id == user) ≡ false)
    → IsManned (filter (λ m. not (is_seat team user m)) ms) t
remove-IsManned team user ms t h other = record {
  armband =
      any-filter_kept (is_armband t.id t.captain_id) (λ m. not (is_seat team user m))
        (λ m k. ground arith) ms h.armband;
  alone = any-filter (leads_besides t.id t.captain_id) _ ms h.alone;
  fits = omega (arith, h.fits, count_members-filter t.id (λ m. not (is_seat team user m)) ms);
}

-- Removing the members of another team.
pub clear-IsManned :
    (team : ℕ) (ms : List Member) (t : TeamRow)
    → IsManned ms t
    → (t.id == team) ≡ false
    → IsManned (filter (λ m. not (is_on team m)) ms) t
clear-IsManned team ms t h other = record {
  armband =
      any-filter_kept (is_armband t.id t.captain_id) (λ m. not (is_on team m)) (λ m k. ground arith)
        ms h.armband;
  alone = any-filter (leads_besides t.id t.captain_id) _ ms h.alone;
  fits = omega (arith, h.fits, count_members-filter t.id (λ m. not (is_on team m)) ms);
}

-- The armband of a team is handed over on the roster.
abbrev pub handed_over : ℕ → ℕ → ℕ → List Member → List Member
handed_over team from to ms =
    update_where (is_seat team to) (with_role TeamRole.captain)
      (update_where (is_seat team from) (with_role TeamRole.player) ms)

-- A change of the role of a member of one team leaves the others manned.
with_role-others :
    (team user : ℕ) (role : TeamRole) (ms : List Member) (t : TeamRow)
    → IsManned ms t
    → (t.id == team) ≡ false
    → IsManned (update_where (is_seat team user) (with_role role) ms) t
with_role-others team user role ms t h other = record {
  armband =
      any-update_where_same (is_seat team user) (with_role role) (is_armband t.id t.captain_id)
        (λ m k. ground arith) ms
      ∙ h.armband;
  alone =
      any-update_where_same (is_seat team user) (with_role role) (leads_besides t.id t.captain_id)
        (λ m k. ground arith) ms
      ∙ h.alone;
  fits = omega (arith, h.fits, count_members-update_where t.id (is_seat team user) role ms);
}

pub hand_over-others :
    (team from to : ℕ) (ms : List Member) (t : TeamRow)
    → IsManned ms t
    → (t.id == team) ≡ false
    → IsManned (handed_over team from to ms) t
hand_over-others team from to ms t h other =
    with_role-others team to TeamRole.captain _ t
      (with_role-others team from TeamRole.player ms t h other) other

pub hand_over-IsManned :
    (to : ℕ) (ms : List Member) (t : TeamRow)
    → IsManned ms t
    → any (is_seat t.id to) ms ≡ true
    → IsManned (handed_over t.id t.captain_id to ms) (record t { captain_id = to })
hand_over-IsManned to ms t h seated =
    let demoted = update_where (is_seat t.id t.captain_id) (with_role TeamRole.player) ms in
    let unled : any (λ m. is_on t.id m && leads m.role) demoted ≡ false =
      any-update_where_from (is_seat t.id t.captain_id) (with_role TeamRole.player)
        (leads_besides t.id t.captain_id) (λ m. is_on t.id m && leads m.role)
        (λ m p q. ground arith) (λ m p q. ground arith) ms h.alone in
    let still : any (is_seat t.id to) demoted ≡ true =
      any-update_where_same (is_seat t.id t.captain_id) (with_role TeamRole.player)
        (is_seat t.id to) (λ m p. refl) ms
      ∙ seated in
    record {
      armband =
          any-update_where_hit (is_seat t.id to) (with_role TeamRole.captain) (is_armband t.id to)
            (λ m p. ground arith) demoted still;
      alone =
          any-update_where_from (is_seat t.id to) (with_role TeamRole.captain)
            (λ m. is_on t.id m && leads m.role) (leads_besides t.id to) (λ m p q. ground arith)
            (λ m p q. ground arith) demoted unled;
      fits = omega (
        arith,
        h.fits,
        count_members-update_where t.id (is_seat t.id to) TeamRole.captain demoted,
        count_members-update_where t.id (is_seat t.id t.captain_id) TeamRole.player ms,
      );
    }
