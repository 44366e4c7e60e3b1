-- ===== src/Store/Brackets/Founding.antt =====
-- Create of internal/postgres/tournament.go, up to the read of the tournament that it answers with,
-- under the constraints of migrations/0006_tournaments.sql. `id` is what gen_random_uuid() returns.
use khel_arena.Prelude.{
  ℕ, ◌≡◌, refl, Bool, true, false, ◌&&◌, not, List, [], ◌∷◌, ℤ, pos, ◌+ℤ◌, leb_ℤ, eq_ℤ, leb, arith,
  ◌==◌, if◌then◌else◌, if-intro, any, length, map,
}
use khel_arena.Domain.Errors.{ok, err, conflict, internal}
use khel_arena.Domain.Enums.{TournamentStatus}
use khel_arena.Domain.Text.{text_eq}
use khel_arena.Domain.Slug.{matches_slug}
use khel_arena.Domain.Tournament.Founding.{Draft}
use khel_arena.Domain.Word.{wrap32}
use khel_arena.Store.Brackets.{TournamentRow, Entry, Brackets, BracketsTx}
use khel_arena.Store.Brackets.Count.{IsCounted, IsCountedAfter, entrants}

-- `int_array_sum`
abbrev pub sum : List ℤ → ℤ
sum [] = pos 0
sum (x ∷ xs) = x +ℤ sum xs

-- `int32Slice`
abbrev pub int32_slice : List ℤ → List ℤ
int32_slice xs = map wrap32 xs

-- What a parameter of type `int` takes.
abbrev fits_int : ℤ → Bool
fits_int z = leb_ℤ z (pos 2147483647)

unfoldable pub passes_draft : Draft → Bool
unfolding matches_slug
passes_draft t =
    leb 4 (length t.name)
    && leb (length t.name) 80
    && matches_slug true t.slug
    && leb_ℤ (pos 4) t.side_count
    && leb_ℤ t.side_count (pos 7)
    && leb_ℤ (pos 5) t.squad_cap
    && leb_ℤ t.squad_cap (pos 15)
    && leb_ℤ (pos 4) t.max_teams
    && leb_ℤ t.max_teams (pos 32)
    && leb_ℤ (pos 0) t.entry_fee_npr
    && fits_int t.entry_fee_npr
    && leb_ℤ (pos 0) t.prize_pool_npr
    && fits_int t.prize_pool_npr
    && eq_ℤ (sum (int32_slice t.prize_split)) (pos 100)
    && leb (length t.description) 500
    && leb (length t.rules) 2000
    && leb t.register_by t.starts_on

-- A tournament as it is inserted: open, without teams.
abbrev pub new_tournament : ℕ → ℕ → Draft → TournamentRow
new_tournament id organizer t = record {
  tournament = record {
    max_teams = t.max_teams;
    team_count = pos 0;
    prize_pool_npr = t.prize_pool_npr;
    prize_split = int32_slice t.prize_split;
    register_by = t.register_by;
    status = TournamentStatus.open_entry;
  };
  id = id;
  organizer_id = organizer;
  slug = t.slug;
}

-- Create
unfoldable pub create_tournament : ℕ → ℕ → Draft → BracketsTx (Unit {0})
unfolding passes_draft
create_tournament id organizer t db =
    if not (passes_draft t)
    then (err internal, db)
    else if any (λ row. text_eq row.slug t.slug) db.tournaments
    then (err (conflict "A tournament already uses that web address."), db)
    else (ok tt, record db { tournaments = new_tournament id organizer t ∷ db.tournaments })

entrants-none :
    (id : ℕ) (es : List Entry) → any (λ e. e.tournament_id == id) es ≡ false → entrants id es ≡ 0
entrants-none id [] h = refl
entrants-none id (e ∷ es) h = let rest = entrants-none id es (ground arith) in ground arith

pub create_tournament-IsCounted :
    (id organizer : ℕ) (t : Draft) (db : Brackets)
    → any (λ e. e.tournament_id == id) db.entries ≡ false
    → IsCounted db
    → IsCounted (create_tournament id organizer t db).1
unfolding create_tournament passes_draft
create_tournament-IsCounted id organizer t db fresh counted =
    if-intro IsCountedAfter (not (passes_draft t)) _ _ (λ h. counted)
      λ fits.
        if-intro IsCountedAfter (any (λ row. text_eq row.slug t.slug) db.tournaments) _ _
          (λ h. counted)
          λ new.
            let none_in = entrants-none id db.entries fresh in
            record {
              exact = (rw none_in refl, counted.exact);
              fits = (ground arith, counted.fits);
              keys = counted.keys;
            }
