-- ===== src/Store/Calls/Tally/Places.antt =====
-- How the accepted responses of a call are counted, and how a change of them is.
use khel_arena.Prelude.{
  ℕ, suc, ◌≡◌, refl, inl, inr, Bool, true, false, ◌&&◌, some, List, [], ◌∷◌, arith, pos, ◌≤ℤ◌, ◌==◌,
  any, find, filter, some-eq, All, AllPairs, any-weaken, Bool-cases, if◌then◌else◌,
}
use khel_arena.Domain.Call.{Call, Response}
use khel_arena.Store.Tables.{update_where}
use khel_arena.Store.Calls.{Board, is_response, is_waiting, admit, is_kept}

-- The accepted responses to a call.
abbrev pub places : ℕ → List Response → ℕ
places call [] = 0
places call (r ∷ rs) =
    let rest = places call rs in if r.call_id == call && r.accepted then suc rest else rest

abbrev pub same_key : Response → Response → Bool
same_key r s = is_response r.call_id r.user_id s

-- A post counts its accepted responses, and has not more of them than it needs.
abbrev pub IsCounted : List Response → Call → Type 0
IsCounted responses c =
    (c.filled_players ≡ pos (places c.id responses)) × (c.filled_players ≤ℤ c.needed_players)

-- Every post counts right, and nobody answers one call twice.
pub record IsTallied (board : Board) : Type 0 where
  pub counted : All (IsCounted board.responses) board.posts
  pub keys : AllPairs same_key board.responses

-- Nothing waits under a key that is not in the list.
pub places-admit_none :
    (call user id : ℕ) (rs : List Response)
    → any (is_waiting call user) rs ≡ false
    → places id (update_where (is_waiting call user) admit rs) ≡ places id rs
places-admit_none call user id [] h = refl
places-admit_none call user id (r ∷ rs) h =
    let miss : is_waiting call user r ≡ false = ground arith in
    let rest = places-admit_none call user id rs (ground arith) in rw (miss, rest) refl

pub others-not_waiting :
    (call user : ℕ) (r : Response) (rs : List Response)
    → is_waiting call user r ≡ true
    → any (same_key r) rs ≡ false
    → any (is_waiting call user) rs ≡ false
others-not_waiting call user r rs hit =
    any-weaken (same_key r) (is_waiting call user) (λ s h. ground arith) rs

-- One player more, on the call that was answered.
pub places-admit :
    (call user id : ℕ) (rs : List Response)
    → AllPairs same_key rs
    → any (is_waiting call user) rs ≡ true
    → places id (update_where (is_waiting call user) admit rs)
      ≡ (if id == call then suc (places id rs) else places id rs)
places-admit call user id [] keys h = ground arith
places-admit call user id (r ∷ rs) keys h = elim (Bool-cases (is_waiting call user r)) [
  | inl hit ↦
      let rest = places-admit_none call user id rs (others-not_waiting call user r rs hit keys.0) in
      rw (hit, rest) (ground arith)
  | inr miss ↦
      let rest = places-admit call user id rs keys.1 (ground arith) in
      rw (miss, rest) (ground arith)
]

pub places-kept_all :
    (call user id : ℕ) (rs : List Response)
    → any (is_response call user) rs ≡ false
    → places id (filter (is_kept call user) rs) ≡ places id rs
places-kept_all call user id [] h = refl
places-kept_all call user id (r ∷ rs) h =
    let kept : is_kept call user r ≡ true = ground arith in
    let rest = places-kept_all call user id rs (ground arith) in rw (kept, rest) refl

-- One player less if the response that goes was accepted.
pub places-kept :
    (call user id : ℕ) (rs : List Response) {x : Response}
    → AllPairs same_key rs
    → find (is_response call user) rs ≡ some x
    → places id rs ≡ (
        if id == call && x.accepted
        then suc (places id (filter (is_kept call user) rs))
        else places id (filter (is_kept call user) rs))
places-kept call user id [] keys h = cc
places-kept call user id (r ∷ rs) {x} keys h = elim (Bool-cases (is_response call user r)) [
  | inl hit ↦
      let e : r ≡ x = some-eq (rw hit at h) in
      let alone : any (is_response call user) rs ≡ false =
        any-weaken (same_key r) (is_response call user) (λ s h. ground arith) rs keys.0 in
      let rest = places-kept_all call user id rs alone in rw (hit, rest, ← e) (ground arith)
  | inr miss ↦
      let rest = places-kept call user id rs keys.1 (rw miss at h) in rw (miss) (ground arith)
]
