-- ===== src/Store/Calls/Tally/Posting.antt =====
-- A post that is created or deleted, and the counts on the board.
use khel_arena.Prelude.{
  ℕ, ◌≡◌, refl, inl, inr, false, not, List, [], ◌∷◌, arith, ◌==◌, any, filter, All-filter_kept,
  AllPairs-filter, Bool-cases, if-intro,
}
use khel_arena.Domain.Errors.{Result}
use khel_arena.Domain.Call.{Call, Response}
use khel_arena.Store.Calls.{Board, is_call, passes_post_checks}
use khel_arena.Store.Calls.Posting.{is_for, new_post, create_call, delete_call, is_answer_to}
use khel_arena.Store.Calls.Tally.Places.{IsTallied, places, same_key}

places-none : (id : ℕ) (rs : List Response) → any (is_answer_to id) rs ≡ false → places id rs ≡ 0
places-none id [] h = refl
places-none id (r ∷ rs) h = let rest = places-none id rs (ground arith) in ground arith

places-others :
    (id k : ℕ) (rs : List Response)
    → (k == id) ≡ false
    → places k (filter (λ r. not (is_answer_to id r)) rs) ≡ places k rs
places-others id k [] h = refl
places-others id k (r ∷ rs) h =
    let rest = places-others id k rs h in
    elim (Bool-cases (is_answer_to id r)) [
      | inl gone ↦ let not_k : (r.call_id == k) ≡ false = ground arith in rw (gone, not_k) rest
      | inr stays ↦ rw (stays, rest) refl
    ]

abbrev IsTalliedAfter : Result (Unit {0}) × Board → Type 0
IsTalliedAfter x = IsTallied x.1

module _ (board : Board) (tallied : IsTallied board) where
  pub create_call-IsTallied :
      (id : ℕ) (c : Call)
      → any (is_answer_to id) board.responses ≡ false
      → IsTallied (create_call id c board).1
  unfolding create_call passes_post_checks
  create_call-IsTallied id c fresh =
      if-intro IsTalliedAfter (not (passes_post_checks (new_post id c))) _ _ (λ h. tallied)
        λ fits.
          if-intro IsTalliedAfter (any (is_for c.booking_id) board.posts) _ _ (λ h. tallied)
            λ new.
              let none_in = places-none id board.responses fresh in
              record {
                counted = ((rw none_in refl, ground arith), tallied.counted);
                keys = tallied.keys;
              }

  pub delete_call-IsTallied : (id : ℕ) → IsTallied (delete_call id board).1
  unfolding delete_call
  delete_call-IsTallied id =
      if-intro IsTalliedAfter (not (any (is_call id) board.posts)) _ _ (λ h. tallied)
        λ found. record {
          counted =
              All-filter_kept (λ c. not (is_call id c))
                (λ c stays h.
                  let other : (c.id == id) ≡ false = ground arith in
                  (rw (places-others id c.id board.responses other) h.0, h.1))
                board.posts tallied.counted;
          keys =
              AllPairs-filter same_key (λ r. not (is_answer_to id r)) board.responses tallied.keys;
        }
