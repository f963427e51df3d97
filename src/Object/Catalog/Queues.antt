-- ===== src/Object/Catalog/Queues.antt =====
-- src/object/catalog/collector.rs: the two queues that the eviction and the sweep go through, by the
-- flag `from_protected`.
use cakemaster.Base.{ℕ, Bool, true, false, List}
use cakemaster.Object.Catalog.Defs.{GcCandidate, Catalog}

abbrev pub queue_of : Bool → Catalog → List GcCandidate
queue_of true s = s.protected
queue_of false s = s.young

abbrev pub with_queue : Bool → List GcCandidate → Catalog → Catalog
with_queue true q s = record s { protected = q }
with_queue false q s = record s { young = q }

-- How many candidates of a queue the sweep has still to look at.
abbrev pub remaining_of : Bool → Catalog → ℕ
remaining_of true s = s.protected_remaining
remaining_of false s = s.young_remaining

abbrev pub with_remaining : Bool → ℕ → Catalog → Catalog
with_remaining true n s = record s { protected_remaining = n }
with_remaining false n s = record s { young_remaining = n }
