-- ===== src/Domain/Tournament/Entries.antt =====
-- When a tournament takes one more team, by its status, its last day and its places.
use khel_arena.Prelude.{ℕ, ◌+◌, ◌<◌, ◌≡◌, ◌↔◌, true, none, arith, pos, ◌-ℤ◌, ◌<ℤ◌}
use khel_arena.Domain.Enums.{accepts_registrations}
use khel_arena.Domain.Slot.Clock.{day}
use khel_arena.Domain.Tournament.{
  Tournament, slots_remaining, status_refusal, can_accept_registration,
}

slots-room : (t : Tournament) → pos 0 <ℤ slots_remaining t → t.team_count <ℤ t.max_teams
unfolding slots_remaining ◌-ℤ◌
slots-room t h = ground arith

room-slots : (t : Tournament) → t.team_count <ℤ t.max_teams → pos 0 <ℤ slots_remaining t
unfolding slots_remaining ◌-ℤ◌
room-slots t h = ground arith

accepts-entry :
    (t : Tournament) (now : ℕ)
    → can_accept_registration t now ≡ none
    → (accepts_registrations t.status ≡ true)
      × (now < t.register_by + day)
      × (t.team_count <ℤ t.max_teams)
unfolding can_accept_registration accepts_registrations status_refusal
accepts-entry t now h = ground arith

entry-accepts :
    (t : Tournament) (now : ℕ)
    → accepts_registrations t.status ≡ true
    → now < t.register_by + day
    → t.team_count <ℤ t.max_teams
    → can_accept_registration t now ≡ none
unfolding can_accept_registration accepts_registrations status_refusal
entry-accepts t now entries early room = ground arith

-- `CanAcceptRegistration` has nothing against an entry exactly if the status accepts registrations,
-- the day `RegisterBy` is not over, and `SlotsRemaining` is more than zero.
pub can_accept_registration_iff :
    (t : Tournament) (now : ℕ)
    → (can_accept_registration t now ≡ none) ↔ (
        (accepts_registrations t.status ≡ true)
        × (now < t.register_by + day)
        × (pos 0 <ℤ slots_remaining t))
can_accept_registration_iff t now = (
  λ h. (let (entries, early, room) = accepts-entry t now h in (entries, early, room-slots t room)),
  λ (entries, early, slots). entry-accepts t now entries early (slots-room t slots),
)
