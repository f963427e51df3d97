-- ===== src/Object/Ledger/Totals.antt =====
-- The lifecycle counters against the versions that are there, over a history of calls.
use cakemaster.Base.{ℕ, none, some, List, [], ◌∷◌, ◌≡◌, inl, inr, arith, subst, sym}
use mathlib.Core.Option.{some_inj}
use cakemaster.Base.Lists.{All}
use cakemaster.Object.Access.{ObjectCatalogConfig}
use cakemaster.Object.Catalog.Defs.{Catalog, new_catalog}
use cakemaster.Object.Ledger.Moves.{Collects, Moved}
use cakemaster.Object.Ledger.Defs.{
  Books, books, Move, Step, Trace, Numbered, stay, claim, unclaim, stage, stage_lost, publish,
  replace, abort, retire, prune, reclaim,
}
use cakemaster.Object.Ledger.History.{
  CatalogCall, command_step, catalog_run, catalog_run-inv, command_step-Moved,
  command_step-Numbered, new-Numbered,
}
use cakemaster.Object.Ledger.Counting.{each, plain, Matches, Fits, Exact, Step-Exact, Step-Matches}

-- A round of the collector stays within what fitted before it.
collected-Fits : (b b' : Books) (m : Move) → Collects m → Step b m b' → Fits b → Fits b'
collected-Fits b b' stay _ step fits = omega (arith, step.balanced each, step.balanced plain, fits)
collected-Fits b b' unclaim moves step fits = absurd moves
collected-Fits b b' (publish v) moves step fits = absurd moves
collected-Fits b b' (replace v old) moves step fits = absurd moves
collected-Fits b b' (abort v) _ step fits =
    omega (arith, step.balanced each, step.balanced plain, fits)
collected-Fits b b' (retire v) _ step fits =
    omega (arith, step.balanced each, step.balanced plain, fits)
collected-Fits b b' (prune gone old v) _ step fits =
    omega (arith, step.balanced each, step.balanced plain, step.addressed.1, fits)
collected-Fits b b' (reclaim v) _ step fits =
    omega (arith, step.balanced each, step.balanced plain, fits)
collected-Fits b b' claim adds step fits = absurd adds
collected-Fits b b' (stage v) adds step fits = absurd adds
collected-Fits b b' (stage_lost v) adds step fits = absurd adds

-- Every version counts its bytes, and the counters say what is there.
abbrev Right : Books → Type 0
Right b = Exact b × Matches b

Step-Right : (b b' : Books) → Fits b → Fits b' → Right b → (m : Move) → Step b m b' → Right b'
Step-Right b b' fits fits' (exact, says) m step =
    (Step-Exact b b' fits fits' exact m step, Step-Matches b b' fits fits' exact says m step)

Trace-Right :
    (b b' : Books) (ms : List Move) → Trace b ms b' → All Collects ms → Fits b → Right b → Right b'
Trace-Right b b' [] same fine fits right = subst Right (sym same) right
Trace-Right b b' (m ∷ ms) (c, step, rest) (fine, later) fits right =
    let fits' = collected-Fits b c m fine step fits in
    Trace-Right c b' ms rest later fits' (Step-Right b c fits fits' right m step)

Moved-Right :
    (s s' : Catalog)
    → Moved s s'
    → Fits (books s)
    → Fits (books s')
    → Right (books s)
    → Right (books s')
Moved-Right s s' (inl (m, step)) fits fits' right =
    Step-Right (books s) (books s') fits fits' right m step
Moved-Right s s' (inr (ms, trace, fine)) fits fits' right =
    Trace-Right (books s) (books s') ms trace fine fits right

-- What is there fits before each call and at the end.
unfoldable pub AllFit : List CatalogCall → Catalog → Type 0
AllFit [] s = Fits (books s)
AllFit (c ∷ cs) s =
    Fits (books s) × elim (command_step c s) [ none ↦ Unit | some s' ↦ AllFit cs s' ]

AllFit-start : (cs : List CatalogCall) (s : Catalog) → AllFit cs s → Fits (books s)
unfolding AllFit
AllFit-start [] s fits = fits
AllFit-start (c ∷ cs) s fits = fits.0

AllFit-next :
    (c : CatalogCall) (cs : List CatalogCall) (s : Catalog) {t : Catalog}
    → command_step c s ≡ some t
    → AllFit (c ∷ cs) s
    → AllFit cs t
unfolding AllFit
AllFit-next c cs s first fits =
    subst (λ o. elim o [ none ↦ Unit | some s' ↦ AllFit cs s' ]) first fits.1

run-Right :
    (cs : List CatalogCall) (s : Catalog) {s' : Catalog}
    → Numbered (books s)
    → Right (books s)
    → AllFit cs s
    → catalog_run cs s ≡ some s'
    → Right (books s')
unfolding catalog_run
run-Right [] s num right fits done = subst (λ t. Right (books t)) (some_inj.0 done) right
run-Right (c ∷ cs) s num right fits done =
    let (t, first, rest) = catalog_run-inv c cs s done in
    let later = AllFit-next c cs s first fits in
    run-Right cs t (command_step-Numbered c s num first)
      (Moved-Right s t (command_step-Moved c s num first) (AllFit-start (c ∷ cs) s fits)
        (AllFit-start cs t later) right)
      later rest

-- Whatever calls a new catalog gets, in any order and until one panics, the seven lifecycle counters say
-- what is there: the claimed and the staged writes, the published objects, and the bytes of the staged, the
-- committed and the retired versions, and of the retired ones in memory; if after each call the writes and
-- objects, and the reserved bytes of all their replicas, are at most 2^64 - 1. None of the wrapping or saturating updates goes wrong.
pub catalog_run-Matches :
    (id : ℕ) (config : ObjectCatalogConfig) (cs : List CatalogCall) {s : Catalog}
    → AllFit cs (new_catalog id config)
    → catalog_run cs (new_catalog id config) ≡ some s
    → Matches (books s)
catalog_run-Matches id config cs fits done =
    let new : Right (books (new_catalog id config)) = omega arith in
    (run-Right cs (new_catalog id config) (new-Numbered id config) new fits done).1
