-- ===== src/Store/Calls/Tally.antt =====
-- The count on a post is the number of players that were accepted.
mod Places
mod Posting
use khel_arena.Prelude.{
  ℕ, suc, ◌≡◌, refl, ap, inl, inr, Bool, true, false, ◌&&◌, not, some, List, [], ◌∷◌, arith, pos,
  pos-add, ◌≤ℤ◌, leb_ℤ, ◌==◌, any, find, filter, some-eq, All, AllPairs, leb, length, any-weaken,
  any-All, All-map, AllPairs-filter, Bool-cases, if-intro, option-intro, if◌then◌else◌,
}
use khel_arena.Domain.Errors.{Result}
use khel_arena.Domain.Call.{Call, Response, is_open}
use khel_arena.Domain.Enums.{MatchmakingStatus}
use khel_arena.Domain.Text.{Text}
use khel_arena.Store.Tables.{update_where}
use khel_arena.Store.Updates.{All-update_where, AllPairs-update_where}
use khel_arena.Store.Calls.{
  Board, is_call, is_response, is_waiting, admit, gain, lose, sync, is_miscounted, respond,
  admit_player, accept, withdraw, is_kept, update_call, set_status, edited, is_refused,
  passes_post_checks,
}
use khel_arena.Store.Calls.Posting.{create_call, delete_call, is_answer_to}
use khel_arena.Store.Calls.Tally.Posting.{create_call-IsTallied, delete_call-IsTallied}
pub use khel_arena.Store.Calls.Tally.Places.{IsCounted, IsTallied}
use khel_arena.Store.Calls.Tally.Places.{
  places, same_key, places-admit_none, others-not_waiting, places-admit, places-kept_all,
  places-kept,
}

All-both : (P Q : Call → Type 0) (xs : List Call) → All P xs → All Q xs → All (λ c. P c × Q c) xs
All-both P Q [] h k = tt
All-both P Q (x ∷ xs) h k = ((h.0, k.0), All-both P Q xs h.1 k.1)

-- The posts after the trigger, where each that it moves counts right for the new responses.
abbrev Exact : List Response → Call → Type 0
Exact responses c = c.filled_players ≡ pos (places c.id responses)

Exact-update_where :
    (call : ℕ) (move : Call → Call) (old new : List Response) (posts : List Call)
    → ((c : Call) → is_call call c ≡ true → Exact old c → Exact new (move c))
    → ((c : Call) → is_call call c ≡ false → Exact old c → Exact new c)
    → All (IsCounted old) posts
    → All (Exact new) (update_where (is_call call) move posts)
Exact-update_where call move old new [] moved kept h = tt
Exact-update_where call move old new (c ∷ cs) moved kept h =
    let rest = Exact-update_where call move old new cs moved kept h.1 in
    elim (Bool-cases (is_call call c)) [
      | inl hit ↦ (rw hit (moved c hit h.0.0), rest)
      | inr miss ↦ (rw miss (kept c miss h.0.0), rest)
    ]

IsTallied-posts :
    (responses : List Response) (posts : List Call)
    → AllPairs same_key responses
    → All (Exact responses) posts
    → any is_miscounted posts ≡ false
    → IsTallied (record { posts = posts; responses = responses })
IsTallied-posts responses posts keys exact fits = record {
  counted =
      All-map (λ c h. (h.0, ground arith)) posts
        (All-both (Exact responses) (λ c. is_miscounted c ≡ false) posts exact
          (any-All is_miscounted posts fits));
  keys = keys;
}

-- The board that an operation leaves.
abbrev IsTalliedAfter : Result (Unit {0}) × Board → Type 0
IsTalliedAfter x = IsTallied x.1

module _ (call : ℕ) (board : Board) (tallied : IsTallied board) where
  sync-IsTallied :
      (move : Call → Call) (responses : List Response)
      → AllPairs same_key responses
      → ((c : Call) → is_call call c ≡ true → Exact board.responses c → Exact responses (move c))
      → ((c : Call) → is_call call c ≡ false → Exact board.responses c → Exact responses c)
      → IsTallied (sync call move responses board).1
  unfolding sync
  sync-IsTallied move responses keys moved kept =
      if-intro IsTalliedAfter (any is_miscounted (update_where (is_call call) move board.posts)) _ _
        (λ h. tallied)
        λ fits.
          IsTallied-posts responses (update_where (is_call call) move board.posts) keys
            (Exact-update_where call move board.responses responses board.posts moved kept
              tallied.counted)
            fits

  admit_player-IsTallied : (user : ℕ) → IsTallied (admit_player call user board).1
  unfolding admit_player gain
  admit_player-IsTallied user =
      if-intro IsTalliedAfter (any (is_waiting call user) board.responses) _ _
        (λ waits.
          sync-IsTallied gain (update_where (is_waiting call user) admit board.responses)
            (AllPairs-update_where (is_waiting call user) admit same_key (λ r s h e. e)
              (λ r s h e. e) board.responses tallied.keys)
            (λ c hit exact.
              let more = places-admit call user c.id board.responses tallied.keys waits in
              rw (more, hit, exact, pos-add) (ap pos (omega arith)))
            (λ c miss exact.
              let same = places-admit call user c.id board.responses tallied.keys waits in
              rw (same, miss) exact))
        λ nobody. tallied

  withdraw-IsTallied : (user : ℕ) → IsTallied (withdraw call user board).1
  unfolding withdraw lose
  withdraw-IsTallied user =
      option-intro IsTalliedAfter (find (is_response call user) board.responses) _ _ tallied
        λ r found.
          if-intro IsTalliedAfter r.accepted _ _
            (λ was_in.
              sync-IsTallied lose (filter (is_kept call user) board.responses)
                (AllPairs-filter same_key (is_kept call user) board.responses tallied.keys)
                (λ c hit exact.
                  let less = places-kept call user c.id board.responses tallied.keys found in
                  rw exact (ground (arith, less)))
                (λ c miss exact.
                  let same = places-kept call user c.id board.responses tallied.keys found in
                  rw exact (ground (arith, same))))
            λ was_out. record {
              counted =
                  All-map
                    (λ c (exact, fits).
                      let same = places-kept call user c.id board.responses tallied.keys found in
                      (rw exact (ground (arith, same)), fits))
                    board.posts tallied.counted;
              keys = AllPairs-filter same_key (is_kept call user) board.responses tallied.keys;
            }

  respond-IsTallied : (user : ℕ) (message : Text) → IsTallied (respond call user message board).1
  unfolding respond
  respond-IsTallied user message =
      if-intro IsTalliedAfter (not (leb (length message) 200)) _ _ (λ h. tallied)
        λ short.
          if-intro IsTalliedAfter (any (is_response call user) board.responses) _ _ (λ h. tallied)
            λ new.
              if-intro IsTalliedAfter (not (any (is_call call) board.posts)) _ _ (λ h. tallied)
                λ exists_call. record {
                  counted = All-map (λ c h. ground arith) board.posts tallied.counted;
                  keys = (new, tallied.keys);
                }

  accept-IsTallied : (user : ℕ) → IsTallied (accept call user board).1
  unfolding accept
  accept-IsTallied user =
      option-intro IsTalliedAfter (find (is_call call) board.posts) _ _ tallied λ c found.
        if-intro IsTalliedAfter (not (is_open c.status)) _ _ (λ h. tallied)
          λ is_open_call.
            if-intro IsTalliedAfter (leb_ℤ c.needed_players c.filled_players) _ _ (λ h. tallied)
              λ room. admit_player-IsTallied user

edited-IsCounted :
    (call : ℕ) (input : Call) (responses : List Response) (posts : List Call)
    → any (is_refused call input) posts ≡ false
    → All (IsCounted responses) posts
    → All (IsCounted responses) (update_where (is_call call) (edited input) posts)
unfolding passes_post_checks
edited-IsCounted call input responses [] h counted = tt
edited-IsCounted call input responses (c ∷ cs) h counted =
    let rest = edited-IsCounted call input responses cs (ground arith) counted.1 in
    elim (Bool-cases (is_call call c)) [
      | inl hit ↦ (rw hit (counted.0.0, ground arith), rest)
      | inr miss ↦ (rw miss counted.0, rest)
    ]

update_call-IsTallied :
    (call : ℕ) (input : Call) (board : Board)
    → IsTallied board
    → IsTallied (update_call call input board).1
unfolding update_call
update_call-IsTallied call input board tallied =
    if-intro IsTalliedAfter (any (is_refused call input) board.posts) _ _ (λ h. tallied)
      λ passes.
        if-intro IsTalliedAfter (not (any (is_call call) board.posts)) _ _ (λ h. tallied)
          λ found. record {
            counted =
                edited-IsCounted call input board.responses board.posts passes tallied.counted;
            keys = tallied.keys;
          }

set_status-IsTallied :
    (call : ℕ) (status : MatchmakingStatus) (board : Board)
    → IsTallied board
    → IsTallied (set_status call status board).1
unfolding set_status
set_status-IsTallied call status board tallied =
    if-intro IsTalliedAfter (not (any (is_call call) board.posts)) _ _ (λ h. tallied)
      λ found. record {
        counted =
            All-update_where (is_call call) (λ c. record c { status = status })
              (IsCounted board.responses) (λ c hit counted. counted) board.posts tallied.counted;
        keys = tallied.keys;
      }

-- One operation on the board.
pub data BoardStep : Board → Board → Type 0 where
  ask :
      {board : Board} (call user : ℕ) (message : Text)
      → BoardStep board (respond call user message board).1
  take : {board : Board} (call user : ℕ) → BoardStep board (accept call user board).1
  leave : {board : Board} (call user : ℕ) → BoardStep board (withdraw call user board).1
  edit :
      {board : Board} (call : ℕ) (input : Call) → BoardStep board (update_call call input board).1
  restate :
      {board : Board} (call : ℕ) (status : MatchmakingStatus)
      → BoardStep board (set_status call status board).1
  announce :
      {board : Board} (id : ℕ) (c : Call)
      → any (is_answer_to id) board.responses ≡ false
      → BoardStep board (create_call id c board).1
  drop_post : {board : Board} (id : ℕ) → BoardStep board (delete_call id board).1

pub data BoardReach (board : Board) : Board → Type 0 where
  at_once : BoardReach board board
  then_step :
      {mid after : Board} → BoardReach board mid → BoardStep mid after → BoardReach board after

BoardStep-IsTallied :
    {board after : Board} → BoardStep board after → IsTallied board → IsTallied after
BoardStep-IsTallied (ask {board} call user message) tallied =
    respond-IsTallied call board tallied user message
BoardStep-IsTallied (take {board} call user) tallied = accept-IsTallied call board tallied user
BoardStep-IsTallied (leave {board} call user) tallied = withdraw-IsTallied call board tallied user
BoardStep-IsTallied (edit {board} call input) tallied =
    update_call-IsTallied call input board tallied
BoardStep-IsTallied (restate {board} call status) tallied =
    set_status-IsTallied call status board tallied
BoardStep-IsTallied (announce {board} id c fresh) tallied =
    create_call-IsTallied board tallied id c fresh
BoardStep-IsTallied (drop_post {board} id) tallied = delete_call-IsTallied board tallied id

-- However players ask, are accepted and withdraw, and authors post games, edit them, set their status
-- and delete them, every post counts exactly its accepted responses, never more than the players that
-- it needs, and nobody answers one call twice.
pub BoardReach-IsTallied :
    {board after : Board} → BoardReach board after → IsTallied board → IsTallied after
BoardReach-IsTallied at_once tallied = tallied
BoardReach-IsTallied (then_step run step) tallied =
    BoardStep-IsTallied step (BoardReach-IsTallied run tallied)
