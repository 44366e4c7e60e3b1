-- ===== src/Tests/Squads.antt =====
-- A team that is started, joined by its code, and handed over.
use khel_arena.Prelude.{◌≡◌, refl, [], ◌∷◌}
use khel_arena.Domain.Errors.{validation_err, check}
use khel_arena.Domain.Text.{Text, text_eq}
use khel_arena.Domain.Match.{can_add_member, can_transfer_captaincy}
use khel_arena.Domain.Team.{TeamNames, clean_names, validate_names, validate_join_code}
use khel_arena.Store.Squads.{
  TeamRole, Squads, team_row, by_join_code, create_team, add_member, is_member,
}
use khel_arena.Store.Squads as Stored
use khel_arena.Store.Squads.Roster.{IsWellManned}
use khel_arena.Service.Squads.{create, join, transfer_captaincy}
use khel_arena.Service.Squads.Runs.{
  at_once, then_step, starts, joins, hands_over, SquadReach-IsWellManned,
}

abbrev nobody_yet : Squads
nobody_yet = record { teams = []; members = []; users = 5 ∷ 6 ∷ [] }

-- "yeti", with the tag " ye1".
abbrev yeti : TeamNames
yeti = record { name = 121 ∷ 101 ∷ 116 ∷ 105 ∷ []; tag = 32 ∷ 121 ∷ 101 ∷ 49 ∷ [] }

-- "ABCDEFGH", and as somebody types it: "abcd-efgh".
abbrev code : Text
code = 65 ∷ 66 ∷ 67 ∷ 68 ∷ 69 ∷ 70 ∷ 71 ∷ 72 ∷ []

abbrev typed : Text
typed = 97 ∷ 98 ∷ 99 ∷ 100 ∷ 45 ∷ 101 ∷ 102 ∷ 103 ∷ 104 ∷ []

abbrev started : Squads
started = (create 5 yeti 1 code nobody_yet).1

abbrev joined : Squads
joined = (join 6 typed started).1

abbrev handed : Squads
handed = (transfer_captaincy 1 5 6 joined).1

nobody_yet-IsWellManned : IsWellManned nobody_yet
nobody_yet-IsWellManned = record { manned = tt; apart = tt; homed = tt; keys = tt }

SquadReach-IsWellManned_example : IsWellManned handed
SquadReach-IsWellManned_example =
    SquadReach-IsWellManned
      (then_step
        (then_step (then_step at_once (starts {db = nobody_yet} 5 yeti 1 code))
          (joins {db = started} 6 typed))
        (hands_over {db = joined} 1 5 6))
      nobody_yet-IsWellManned

-- The armband has changed hands.
handed_members :
    handed.members
    ≡ record { team_id = 1; user_id = 6; role = TeamRole.captain }
      ∷ record { team_id = 1; user_id = 5; role = TeamRole.player }
      ∷ []
unfolding create transfer_captaincy team_row join validate_join_code by_join_code validate_names
    validation_err check clean_names create_team text_eq can_add_member add_member
    can_transfer_captaincy is_member Stored.transfer_captaincy
handed_members = refl
