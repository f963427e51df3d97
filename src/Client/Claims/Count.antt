-- ===== src/Client/Claims/Count.antt =====
-- A session counts as claimed once while its entry is in the phase `running`.
use cakemaster.Base.{
  ℕ, ◌+◌, ◌≡◌, ◌≢◌, refl, sym, ap, ◌∙◌, inl, inr, false, Option, some, none, List, [], ◌∷◌, ◌++◌,
  arith, Bool-cases, if◌then◌else◌, ◌==◌,
}
use cakemaster.Base.Table.{Table, get, insert, remove, get-insert, get-remove}
use cakemaster.Identity.{ClientId, uuid_eq, uuid_beq_iff}
use cakemaster.Client.Types.{Session, session_eq, session_beq_iff, ClientEntry, Cleanup}
use cakemaster.Client.Registry.{cleanup_is_running}

abbrev pub one : Session → Session → ℕ
one a b = if a == b then 1 else 0

abbrev pub count : Session → List Cleanup → ℕ
count s [] = 0
count s (c ∷ cs) = one c.session s + count s cs

pub count-append :
    (s : Session) (xs ys : List Cleanup) → count s (xs ++ ys) ≡ count s xs + count s ys
count-append s [] ys = omega arith
count-append s (c ∷ xs) ys = omega (arith, count-append s xs ys)

-- What a claim that may have been refused hands out.
abbrev pub handed : Session → Option Cleanup → ℕ
handed s none = 0
handed s (some c) = one c.session s

unfoldable pub running_one : Session → ClientEntry → ℕ
running_one s e = if cleanup_is_running e.phase then one e.session s else 0

abbrev pub running_entry : Session → Option ClientEntry → ℕ
running_entry s none = 0
running_entry s (some e) = running_one s e

unfoldable pub running_in : Table ClientId ClientEntry → Session → ℕ
running_in m s = running_entry s (get s.client_id m)

running_one-elsewhere :
    (s : Session) (e : ClientEntry) → e.session.client_id ≢ s.client_id → running_one s e ≡ 0
unfolding running_one
running_one-elsewhere s e n = elim (Bool-cases (e.session == s)) [
  | inl own ↦ absurd (n (ap (λ (x : Session). x.client_id) ((session_beq_iff e.session s).0 own)))
  | inr other ↦ ground arith
]

-- One entry changes its phase and keeps its session, or is taken out.
module _ (m : Table ClientId ClientEntry) (k : ClientId) (e : ClientEntry)
    (there : get k m ≡ some e) (keyed : e.session.client_id ≡ k) (s : Session) where
  pub running_in-put :
      (e' : ClientEntry)
      → e'.session.client_id ≡ k
      → running_in (insert k e' m) s + running_one s e ≡ running_in m s + running_one s e'
  unfolding running_in
  running_in-put e' keyed' = elim (Bool-cases (k == s.client_id)) [
    | inl hit ↦
        let here : k ≡ s.client_id = (uuid_beq_iff k s.client_id).0 hit in
        ground (arith, get-insert k s.client_id e' m)
    | inr miss ↦
        let away : k ≢ s.client_id = λ q. ground (arith, (uuid_beq_iff k s.client_id).1 q) in
        ground (
          arith,
          get-insert k s.client_id e' m,
          running_one-elsewhere s e (λ q. away (sym keyed ∙ q)),
          running_one-elsewhere s e' (λ q. away (sym keyed' ∙ q)),
        )
  ]

  pub running_in-remove : running_in (remove k m) s + running_one s e ≡ running_in m s
  unfolding running_in
  running_in-remove = elim (Bool-cases (k == s.client_id)) [
    | inl hit ↦
        let here : k ≡ s.client_id = (uuid_beq_iff k s.client_id).0 hit in
        ground (arith, get-remove k s.client_id m)
    | inr miss ↦
        let away : k ≢ s.client_id = λ q. ground (arith, (uuid_beq_iff k s.client_id).1 q) in
        ground
          (arith, get-remove k s.client_id m, running_one-elsewhere s e (λ q. away (sym keyed ∙ q)))
  ]

-- An entry that is not running comes in.
pub running_in-admit :
    (m : Table ClientId ClientEntry) (k : ClientId) (e' : ClientEntry) (s : Session)
    → get k m ≡ none
    → cleanup_is_running e'.phase ≡ false
    → running_in (insert k e' m) s ≡ running_in m s
unfolding running_in running_one
running_in-admit m k e' s absent idle = elim (Bool-cases (k == s.client_id)) [
  | inl hit ↦
      let here : k ≡ s.client_id = (uuid_beq_iff k s.client_id).0 hit in
      ground (arith, get-insert k s.client_id e' m)
  | inr miss ↦ ground (arith, get-insert k s.client_id e' m)
]

pub running_in-empty : (s : Session) → running_in [] s ≡ 0
unfolding running_in get
running_in-empty s = refl
