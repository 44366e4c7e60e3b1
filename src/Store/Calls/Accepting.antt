-- ===== src/Store/Calls/Accepting.antt =====
-- What Accept does with the last places of a game.
use khel_arena.Prelude.{
  ℕ, ◌≡◌, refl, inl, inr, Bool, true, false, not, some, List, [], ◌∷◌, arith, pos, ◌+ℤ◌, leb_ℤ, any,
  find, find-some, some-eq, All, AllPairs, any-weaken, Bool-cases, if◌then◌else◌,
}
use khel_arena.Domain.Errors.{ok}
use khel_arena.Domain.Call.{Call, Response, is_open, is_filled}
use khel_arena.Store.Tables.{update_where}
use khel_arena.Store.Updates.{find-update_where}
use khel_arena.Store.Calls.{
  Board, is_call, is_waiting, admit, gain, synced, sync, is_miscounted, admit_player, accept,
}
use khel_arena.Store.Calls.Tally.{IsTallied, IsCounted}

abbrev pub same_call : Call → Call → Bool
same_call c d = is_call c.id d

-- Posts that are not moved stay within their bounds.
fits-others :
    (call : ℕ) (rs : List Response) (posts : List Call)
    → any (is_call call) posts ≡ false
    → All (IsCounted rs) posts
    → any is_miscounted (update_where (is_call call) gain posts) ≡ false
fits-others call rs [] none_hit h = refl
fits-others call rs (c ∷ cs) none_hit h =
    let rest = fits-others call rs cs (ground arith) h.1 in
    let miss : is_call call c ≡ false = ground arith in
    let exact = h.0.0 in let fits = h.0.1 in rw (miss, rest) (ground arith)

-- One player more fits where there is room.
gain-fits :
    (rs : List Response) (c : Call)
    → IsCounted rs c
    → leb_ℤ c.needed_players c.filled_players ≡ false
    → is_miscounted (gain c) ≡ false
unfolding gain ◌+ℤ◌
gain-fits rs c h room = let exact = h.0 in ground arith

fits-gain :
    (call : ℕ) (rs : List Response) (posts : List Call) {c : Call}
    → AllPairs same_call posts
    → All (IsCounted rs) posts
    → find (is_call call) posts ≡ some c
    → leb_ℤ c.needed_players c.filled_players ≡ false
    → any is_miscounted (update_where (is_call call) gain posts) ≡ false
fits-gain call rs [] unique h found room = refl
fits-gain call rs (x ∷ xs) {c} unique h found room = elim (Bool-cases (is_call call x)) [
  | inl hit ↦
      let e : x ≡ c = some-eq (rw hit at found) in
      let alone : any (is_call call) xs ≡ false =
        any-weaken (same_call x) (is_call call) (λ d h. ground arith) xs unique.0 in
      let first : is_miscounted (gain x) ≡ false = gain-fits rs x h.0 (rw e room) in
      rw (hit, first, fits-others call rs xs alone h.1) refl
  | inr miss ↦
      let rest = fits-gain call rs xs unique.1 h.1 (rw miss at found) room in
      let exact = h.0.0 in let fits = h.0.1 in rw (miss, rest) (ground arith)
]

-- The game after one player more: the count has risen by one, and it is full exactly if nobody else is
-- needed.
abbrev pub IsGained : Call → Call → Type 0
IsGained c d =
    (d.id ≡ c.id)
    × (d.filled_players ≡ c.filled_players +ℤ pos 1)
    × (is_filled d.status ≡ leb_ℤ d.needed_players d.filled_players)
    × (is_open d.status ≡ not (is_filled d.status))

gain-IsGained : (c : Call) → is_open c.status ≡ true → IsGained c (gain c)
unfolding gain synced
gain-IsGained c open_call = ground arith

gain-is_call : (call : ℕ) (c : Call) → is_call call (gain c) ≡ is_call call c
unfolding gain
gain-is_call call c = refl

-- On a board that counts right and has one post under an id, a player who waits for an answer on an
-- open game with room is let in: Accept succeeds, no constraint stands against it, the response is
-- accepted, the count rises by one, and the game closes exactly if nobody else is needed.
pub accept-IsGained :
    (call user : ℕ) (board : Board) {c : Call}
    → IsTallied board
    → AllPairs same_call board.posts
    → find (is_call call) board.posts ≡ some c
    → is_open c.status ≡ true
    → leb_ℤ c.needed_players c.filled_players ≡ false
    → any (is_waiting call user) board.responses ≡ true
    → (d : Call) × (board' : Board) × (accept call user board ≡ (ok tt, board'))
      × (board'.responses ≡ update_where (is_waiting call user) admit board.responses)
      × (find (is_call call) board'.posts ≡ some d)
      × IsGained c d
unfolding accept admit_player sync
accept-IsGained call user board {c} tallied unique found open_call room waits =
    let fits = fits-gain call board.responses board.posts unique tallied.counted found room in
    let hit : is_call call c ≡ true = (find-some (is_call call) board.posts found).0 in
    let after : find (is_call call) (update_where (is_call call) gain board.posts)
        ≡ some (if is_call call c then gain c else c) =
      find-update_where (is_call call) gain (is_call call) (gain-is_call call) board.posts found in
    (
      gain c,
      record {
        posts = update_where (is_call call) gain board.posts;
        responses = update_where (is_waiting call user) admit board.responses;
      },
      rw (accept, found, open_call, room, admit_player, waits, sync, fits) refl,
      refl,
      rw hit at after,
      gain-IsGained c open_call,
    )
