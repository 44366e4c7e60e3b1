-- ===== src/Service/Calls/Places.antt =====
-- Who gives a place in a game, and when.
use khel_arena.Prelude.{ℕ, ◌<◌, ◌≡◌, refl, true, none, some, arith, ◌<ℤ◌, ◌-ℤ◌, find, any, AllPairs}
use khel_arena.Domain.Errors.{Result, ok, err, refuse, >>=-eq-ok}
use khel_arena.Domain.Call.{Call, authored_by, is_open, can_accept_response, spots_remaining}
use khel_arena.Store.Tables.{update_where}
use khel_arena.Store.Calls.{Board, BoardTx, is_call, is_waiting, admit}
use khel_arena.Store.Calls.Tally.{IsTallied}
use khel_arena.Store.Calls.Accepting.{IsGained, same_call}
use khel_arena.Store.Calls.Accepting
use khel_arena.Store.Calls
use khel_arena.Service.Calls.{call_by_id, load, then_write, may_accept, accept}

-- The actor's own post, which takes players.
abbrev pub IsOffered : ℕ → ℕ → ℕ → Board → Call → Type 0
IsOffered call actor now board c =
    (find (is_call call) board.posts ≡ some c)
    × (c.author_id ≡ actor)
    × (now < c.starts_at)
    × (is_open c.status ≡ true)
    × (c.filled_players <ℤ c.needed_players)

pub load-find :
    (call actor : ℕ) (board : Board) {c : Call}
    → load call actor board ≡ ok c
    → find (is_call call) board.posts ≡ some c
unfolding load call_by_id
load-find call actor board h = ground arith

may_accept-author :
    (call actor now : ℕ) (board : Board)
    → may_accept call actor now board ≡ ok tt
    → (c : Call) × (find (is_call call) board.posts ≡ some c)
      × (c.author_id ≡ actor)
      × (now < c.starts_at)
unfolding may_accept can_accept_response authored_by
may_accept-author call actor now board h =
    let (c, loaded, passed) =
      >>=-eq-ok (load call actor board) (λ c. refuse (can_accept_response c actor now)) h in
    (c, load-find call actor board loaded, ground arith, ground arith)

accept-room :
    (call user : ℕ) (board : Board) {c : Call} {board' : Board}
    → find (is_call call) board.posts ≡ some c
    → Calls.accept call user board ≡ (ok tt, board')
    → (is_open c.status ≡ true) × (c.filled_players <ℤ c.needed_players)
unfolding Calls.accept
accept-room call user board found h =
    let accepted = rw (Calls.accept, found) at h in (ground arith, ground arith)

then_write-ok :
    (checks : Result (Unit {0})) (write : BoardTx) (board : Board) {board' : Board}
    → then_write checks write board ≡ (ok tt, board')
    → (checks ≡ ok tt) × (write board ≡ (ok tt, board'))
then_write-ok (ok u) write board h = (refl, h)
then_write-ok (err e) write board h = cc

-- `Accept` returns without an error only for the author of a game that is open, has room, and has
-- not kicked off.
pub accept-IsOffered :
    (call actor user now : ℕ) (board : Board) {board' : Board}
    → accept call actor user now board ≡ (ok tt, board')
    → (c : Call) × IsOffered call actor now board c
unfolding accept
accept-IsOffered call actor user now board h =
    let (checked, written) =
      then_write-ok (may_accept call actor now board) (Calls.accept call user) board h in
    let (c, found, author, early) = may_accept-author call actor now board checked in
    let (open_call, room) = accept-room call user board found written in
    (c, (found, author, early, open_call, room))

find-load :
    (call actor : ℕ) (board : Board) {c : Call}
    → 0 < actor
    → find (is_call call) board.posts ≡ some c
    → load call actor board ≡ ok c
unfolding load call_by_id
find-load call actor board signed_in found = ground arith

offered-may_accept :
    (call actor now : ℕ) (board : Board) {c : Call}
    → 0 < actor
    → IsOffered call actor now board c
    → may_accept call actor now board ≡ ok tt
unfolding may_accept can_accept_response authored_by spots_remaining ◌-ℤ◌
offered-may_accept call actor now board {c} signed_in (found, author, early, open_call, room) =
    let fine : can_accept_response c actor now ≡ none = ground arith in
    rw (find-load call actor board signed_in found, fine) refl

-- On a board that counts right and has one post under an id, the signed-in author of a game on offer
-- who accepts a player that waits gives them a place: their request is accepted, no other request
-- changes, and the game has one player more, and is full exactly if nobody else is needed.
pub offered_accept-IsGained :
    (call actor user now : ℕ) (board : Board) {c : Call}
    → IsTallied board
    → AllPairs same_call board.posts
    → 0 < actor
    → IsOffered call actor now board c
    → any (is_waiting call user) board.responses ≡ true
    → (d : Call) × (board' : Board) × (accept call actor user now board ≡ (ok tt, board'))
      × (board'.responses ≡ update_where (is_waiting call user) admit board.responses)
      × (find (is_call call) board'.posts ≡ some d)
      × IsGained c d
unfolding accept
offered_accept-IsGained call actor user now board tallied unique signed_in offer waits =
    let (found, author, early, open_call, room) = offer in
    let (d, board', written, others, kept, gained) =
      Accepting.accept-IsGained call user board tallied unique found open_call (ground arith)
        waits in
    (
      d,
      board',
      rw (offered-may_accept call actor now board signed_in offer) written,
      others,
      kept,
      gained,
    )
