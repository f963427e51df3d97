-- ===== src/Client/World/Reachable.antt =====
-- What holds of a registry after any history of calls.
use cakemaster.Base.{
  ℕ, zero, suc, ◌+◌, ◌≤◌, ◌≡◌, sym, ap, ◌∙◌, inl, inr, Option, some, none, List, [], ◌∷◌, arith,
  Option-cases, ok,
}
use cakemaster.Identity.{uuid_eq}
use cakemaster.Client.Types.{ClientLifecycleConfig, Session, Cleanup, Registry}
use cakemaster.Client.Registry.{with_config, begin_drain, release_cleanup, finish}
use cakemaster.Client.Scan.{claim_due_cleanups}
use cakemaster.Client.Invariant.Operations.{
  with_config-Inv, activate-Inv, heartbeat-Inv, rollback_activation-Inv, begin_drain-Inv,
  release_cleanup-Inv, finish-Inv,
}
use cakemaster.Client.Invariant.Scan.{claim_due_cleanups-Inv}
use cakemaster.Client.Claims.Count.{one, count, count-append, handed, running_in, running_in-empty}
use cakemaster.Client.Claims.Operations.{
  claim_of, activate-running, heartbeat-running, rollback_activation-running, begin_drain-running,
  running_in-le_one, finish_claimed, finish-running, release_cleanup-running,
}
use cakemaster.Client.Claims.Scan.{claim_due_cleanups-running}
use cakemaster.Client.World.Defs.{
  World, Command, activates, beats, rolls_back, drains, scans, finishes, drops, take_nth,
  with_claim, step, run, WorldInv,
}

count-with_claim :
    (s : Session) (cs : List Cleanup) (o : Option Cleanup)
    → count s (with_claim cs o) ≡ count s cs + handed s o
count-with_claim s cs none = omega arith
count-with_claim s cs (some c) = omega arith

count-take_nth :
    (s : Session) (n : ℕ) (cs : List Cleanup) (c : Cleanup) (rest : List Cleanup)
    → take_nth n cs ≡ some (c, rest)
    → count s cs ≡ one c.session s + count s rest
unfolding take_nth
count-take_nth s n [] c rest h = cc
count-take_nth s zero (d ∷ cs) c rest h = ground arith
count-take_nth s (suc n) (d ∷ cs) c rest h = elim (Option-cases (take_nth n cs)) [
  | inl out ↦ ground arith
  | inr ((x, others), found) ↦ ground (arith, count-take_nth s n cs x others found)
]

one_self : (s : Session) → one s s ≡ 1
one_self s = ground arith

module _ {w : World} (v : WorldInv w) (n : ℕ) (c : Cleanup) (rest : List Cleanup)
    (taken : take_nth n w.claims ≡ some (c, rest)) where
  -- An outstanding claim is the claim of a running session.
  pub taken_running : (m : ℕ) × (running_in w.registry.entries c.session ≡ suc m)
  taken_running = (
    count c.session rest,
    omega (
      arith,
      v.held c.session,
      count-take_nth c.session n w.claims c rest taken,
      one_self c.session,
    ),
  )

  finishes-WorldInv : WorldInv (record { registry = (finish w.registry c).0; claims = rest })
  finishes-WorldInv = record {
    registry_inv = finish-Inv c v.registry_inv;
    held = λ s. omega (
      arith,
      v.held s,
      count-take_nth s n w.claims c rest taken,
      finish-running v.registry_inv c taken_running.0 taken_running.1 s,
    );
  }

  drops-WorldInv :
      WorldInv (record { registry = release_cleanup w.registry c.session; claims = rest })
  drops-WorldInv = record {
    registry_inv = release_cleanup-Inv c.session v.registry_inv;
    held = λ s. omega (
      arith,
      v.held s,
      count-take_nth s n w.claims c rest taken,
      release_cleanup-running v.registry_inv c taken_running.0 taken_running.1 s,
    );
  }

pub step-WorldInv : (w : World) (c : Command) → WorldInv w → WorldInv (step w c)
unfolding step
step-WorldInv w (activates k now) v = record {
  registry_inv = activate-Inv k now v.registry_inv;
  held = λ s. v.held s ∙ sym (activate-running v.registry_inv s k now);
}
step-WorldInv w (beats k now) v = record {
  registry_inv = heartbeat-Inv k now v.registry_inv;
  held = λ s. v.held s ∙ sym (heartbeat-running v.registry_inv s k now);
}
step-WorldInv w (rolls_back t) v = record {
  registry_inv = rollback_activation-Inv t v.registry_inv;
  held = λ s. v.held s ∙ sym (rollback_activation-running v.registry_inv s t);
}
step-WorldInv w (drains t reason) v = record {
  registry_inv = begin_drain-Inv t reason v.registry_inv;
  held = λ s. omega (
    arith,
    v.held s,
    begin_drain-running v.registry_inv s t reason,
    count-with_claim s w.claims (claim_of (begin_drain w.registry t reason).1),
  );
}
step-WorldInv w (scans now budget) v = record {
  registry_inv = claim_due_cleanups-Inv now budget v.registry_inv;
  held = λ s. omega (
    arith,
    v.held s,
    claim_due_cleanups-running v.registry_inv s now budget,
    count-append s w.claims (claim_due_cleanups w.registry now budget).1,
  );
}
step-WorldInv w (finishes n) v = elim (Option-cases (take_nth n w.claims)) [
  | inl none_there ↦ rw (none_there, step) v
  | inr ((c, rest), taken) ↦ rw (taken, step) (finishes-WorldInv v n c rest taken)
]
step-WorldInv w (drops n) v = elim (Option-cases (take_nth n w.claims)) [
  | inl none_there ↦ rw (none_there, step) v
  | inr ((c, rest), taken) ↦ rw (taken, step) (drops-WorldInv v n c rest taken)
]

pub run_from-WorldInv : (w : World) (cs : List Command) → WorldInv w → WorldInv (run w cs)
unfolding run
run_from-WorldInv w [] v = v
run_from-WorldInv w (c ∷ cs) v = run_from-WorldInv (step w c) cs (step-WorldInv w c v)

abbrev pub fresh_world : Registry → World
fresh_world r = record { registry = r; claims = [] }

-- For every configuration that `with_config` accepts and every history of activations, heartbeats,
-- rollbacks, drains, maintenance scans, and claims finished or dropped in any order, at any times:
-- the registry has at most `max_clients` entries, each under its own client ID, with a generation
-- already issued and a guard flag of its own that is up exactly while the entry is active; every
-- active entry, and every expired one not yet claimed, has a deadline record in the heap that comes
-- due no later than the entry, and every cleanup to be retried stands in the queue, so that no
-- cleanup is lost; and the entries in the phase `running` are those whose claim is outstanding.
pub run-WorldInv :
    (config : ClientLifecycleConfig) (r : Registry)
    → with_config config ≡ ok r
    → (cs : List Command) → WorldInv (run (fresh_world r) cs)
unfolding with_config
run-WorldInv config r made cs =
    run_from-WorldInv (fresh_world r) cs
      (record { registry_inv = with_config-Inv config made; held = λ s. nobody s })
  where
    nobody : (s : Session) → 0 ≡ running_in r.entries s
    nobody s =
        let empty : r.entries ≡ [] = ground arith in
        sym (ap (λ m. running_in m s) empty ∙ running_in-empty s)

-- After any history from an accepted configuration no session has two outstanding claims: at most
-- one worker at a time may clean it.
pub claims_exclusive :
    (config : ClientLifecycleConfig) (r : Registry)
    → with_config config ≡ ok r
    → (cs : List Command) (s : Session) → count s (run (fresh_world r) cs).claims ≤ 1
claims_exclusive config r made cs s =
    let w = run (fresh_world r) cs in
    omega (arith, (run-WorldInv config r made cs).held s, running_in-le_one w.registry.entries s)

-- After any history from an accepted configuration `finish` succeeds on every outstanding claim,
-- whatever happened to its client since the claim was handed out.
pub outstanding_finishes :
    (config : ClientLifecycleConfig) (r : Registry)
    → with_config config ≡ ok r
    → (cs : List Command) (n : ℕ) (c : Cleanup) (rest : List Cleanup)
    → take_nth n (run (fresh_world r) cs).claims ≡ some (c, rest)
    → (finish (run (fresh_world r) cs).registry c).1 ≡ ok tt
outstanding_finishes config r made cs n c rest taken =
    let v = run-WorldInv config r made cs in
    let (m, claimed) = taken_running v n c rest taken in finish_claimed v.registry_inv c m claimed
