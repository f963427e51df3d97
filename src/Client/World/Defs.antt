-- ===== src/Client/World/Defs.antt =====
-- Histories: each command is one call under the registry's mutex. A claim is finished or dropped by
-- whoever holds it, in any order; times are arbitrary.
use cakemaster.Base.{ℕ, zero, suc, ◌≡◌, Option, some, none, List, [], ◌∷◌, ◌++◌}
use cakemaster.Identity.{ClientId}
use cakemaster.Client.Types.{Session, CleanupReason, Cleanup, Registry}
use cakemaster.Client.Registry.{
  activate, heartbeat, rollback_activation, begin_drain, release_cleanup, finish,
}
use cakemaster.Client.Scan.{claim_due_cleanups}
use cakemaster.Client.Invariant.Defs.{Inv}
use cakemaster.Client.Claims.Count.{count, running_in}
use cakemaster.Client.Claims.Operations.{claim_of}

pub record World : Type 0 where
  pub registry : Registry
  pub claims : List Cleanup

-- `finishes` and `drops` name an outstanding claim by its place in the list.
pub data Command : Type 0 where
  activates beats : ClientId → ℕ → Command
  rolls_back : Session → Command
  drains : Session → CleanupReason → Command
  scans : ℕ → ℕ → Command
  finishes drops : ℕ → Command

unfoldable pub take_nth : ℕ → List Cleanup → Option (Cleanup × List Cleanup)
take_nth n [] = none
take_nth zero (c ∷ cs) = some (c, cs)
take_nth (suc n) (c ∷ cs) = elim (take_nth n cs) [
  | none ↦ none
  | some (d, rest) ↦ some (d, c ∷ rest)
]

abbrev pub with_claim : List Cleanup → Option Cleanup → List Cleanup
with_claim cs none = cs
with_claim cs (some c) = c ∷ cs

unfoldable pub step : World → Command → World
unfolding take_nth
step w (activates k now) = record w { registry = (activate w.registry k now).0 }
step w (beats k now) = record w { registry = (heartbeat w.registry k now).0 }
step w (rolls_back s) = record w { registry = (rollback_activation w.registry s).0 }
step w (drains s reason) =
    let (r, result) = begin_drain w.registry s reason in
    record { registry = r; claims = with_claim w.claims (claim_of result) }
step w (scans now budget) =
    let (r, cleanups) = claim_due_cleanups w.registry now budget in
    record { registry = r; claims = w.claims ++ cleanups }
step w (finishes n) = elim (take_nth n w.claims) [
  | none ↦ w
  | some (c, rest) ↦ record { registry = (finish w.registry c).0; claims = rest }
]
step w (drops n) = elim (take_nth n w.claims) [
  | none ↦ w
  | some (c, rest) ↦ record { registry = release_cleanup w.registry c.session; claims = rest }
]

unfoldable pub run : World → List Command → World
run w [] = w
run w (c ∷ cs) = run (step w c) cs

-- The registry is well formed, and a session is in the phase `running` exactly while one worker
-- holds its claim.
pub record WorldInv (w : World) : Type 0 where
  pub registry_inv : Inv w.registry
  pub held : (s : Session) → count s w.claims ≡ running_in w.registry.entries s
