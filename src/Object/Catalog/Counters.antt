-- ===== src/Object/Catalog/Counters.antt =====
-- src/object/catalog.rs: `LifecycleCounters`, with the wrap-around of the atomic additions and the
-- saturation of `atomic_saturating_sub`.
use cakemaster.Base.{ℕ, ◌+◌, ◌-◌, ◌%◌, Bool, if◌then◌else◌, wrapping_add}

pub record Counters : Type 0 where
  pub claims : ℕ
  pub pending_objects : ℕ
  pub published_objects : ℕ
  pub pending_bytes : ℕ
  pub live_bytes : ℕ
  pub retired_bytes : ℕ
  pub retired_memory_bytes : ℕ

abbrev pub no_objects : Counters
no_objects = record {
  claims = 0;
  pending_objects = 0;
  published_objects = 0;
  pending_bytes = 0;
  live_bytes = 0;
  retired_bytes = 0;
  retired_memory_bytes = 0;
}

-- What `fetch_sub(1)` stores.
abbrev pub less_one : ℕ → ℕ
less_one n = (n + 18446744073709551615) % 18446744073709551616

unfoldable pub on_claim : Counters → Counters
on_claim c = record c { claims = wrapping_add c.claims 1 }

unfoldable pub on_claim_dropped : Counters → Counters
on_claim_dropped c = record c { claims = less_one c.claims }

unfoldable pub on_stage : ℕ → Counters → Counters
on_stage bytes c = record c {
  claims = less_one c.claims;
  pending_objects = wrapping_add c.pending_objects 1;
  pending_bytes = wrapping_add c.pending_bytes bytes;
}

-- `on_commit` of a first version, and of one that replaces `replaced` bytes.
unfoldable pub on_commit_new : ℕ → Counters → Counters
on_commit_new bytes c = record c {
  pending_objects = less_one c.pending_objects;
  pending_bytes = c.pending_bytes - bytes;
  live_bytes = wrapping_add c.live_bytes bytes;
  published_objects = wrapping_add c.published_objects 1;
}

unfoldable pub on_commit_replacing : ℕ → ℕ → ℕ → Counters → Counters
on_commit_replacing bytes replaced replaced_memory c = record c {
  pending_objects = less_one c.pending_objects;
  pending_bytes = c.pending_bytes - bytes;
  live_bytes = wrapping_add c.live_bytes bytes - replaced;
  retired_bytes = wrapping_add c.retired_bytes replaced;
  retired_memory_bytes = wrapping_add c.retired_memory_bytes replaced_memory;
}

unfoldable pub on_abort_pending : ℕ → Bool → Counters → Counters
on_abort_pending bytes memory c = record c {
  pending_objects = less_one c.pending_objects;
  pending_bytes = c.pending_bytes - bytes;
  retired_bytes = wrapping_add c.retired_bytes bytes;
  retired_memory_bytes =
      if memory then wrapping_add c.retired_memory_bytes bytes else c.retired_memory_bytes;
}

unfoldable pub on_retire_published : ℕ → Bool → Counters → Counters
on_retire_published bytes memory c = record c {
  published_objects = less_one c.published_objects;
  live_bytes = c.live_bytes - bytes;
  retired_bytes = wrapping_add c.retired_bytes bytes;
  retired_memory_bytes =
      if memory then wrapping_add c.retired_memory_bytes bytes else c.retired_memory_bytes;
}

-- Replicas that a published version loses.
unfoldable pub on_prune_published : ℕ → Counters → Counters
on_prune_published bytes c = record c { live_bytes = c.live_bytes - bytes }

unfoldable pub on_reclaim : ℕ → Bool → Counters → Counters
on_reclaim bytes memory c = record c {
  retired_bytes = c.retired_bytes - bytes;
  retired_memory_bytes = if memory then c.retired_memory_bytes - bytes else c.retired_memory_bytes;
}
