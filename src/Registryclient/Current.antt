-- ===== src/Registryclient/Current.antt =====
-- internal/registryclient/cache.go: what the cache holds after any sequence of refreshes.
use mathlib.Core.Path.{subst}
use fikua_lab_issuer.Prelude.{
  Bool, List, Option, String, String-eq, [], arith, false, if◌then◌else◌, none, refl, some, true,
  ◌==◌, ◌∙◌, ◌∷◌, ◌≡◌,
}
use fikua_lab_issuer.Prelude.Dict.{Dict, get, get-put, put}
use fikua_lab_issuer.Registryclient.Cache.{Cache, all, get_definition, index, stale}
use fikua_lab_issuer.Registryclient.Types.{Definition}
use fikua_lab_issuer.Result.Exec.{Result, err, ok}
use fikua_lab_issuer.Prelude.{ap}
use fikua_lab_issuer.Registryclient.Cache.{mark_stale, new_cache, refresh, start, tick, ticks}

-- The last definition with an id
pub last_with : String → List Definition → Option Definition
last_with id [] = none
last_with id (d ∷ defs) =
    let rest = last_with id defs in
    elim rest [ some e ↦ some e | none ↦ if d.scheme.id == id then some d else none ]

-- The last good one of a first answer and those after it
pub last_good : List Definition → List (Result (List Definition)) → List Definition
last_good defs [] = defs
last_good defs (err e ∷ answers) = last_good defs answers
last_good defs (ok defs' ∷ answers) = last_good defs' answers

pub last_failed : Bool → List (Result (List Definition)) → Bool
last_failed failed [] = failed
last_failed failed (err e ∷ answers) = last_failed true answers
last_failed failed (ok defs' ∷ answers) = last_failed false answers

-- A snapshot of the catalogue, and whether the refresh after it failed.
pub record IsSnapshot (defs : List Definition) (failed : Bool) (c : Cache) : Type 0 where
  pub catalogue : all c ≡ defs
  pub lookup : (id : String) → get_definition id c ≡ last_with id defs
  pub health : stale c ≡ failed

get-index :
    (id : String) (defs : List Definition) (m : Dict String Definition)
    → get id (index defs m) ≡ elim (last_with id defs) [ some d ↦ some d | none ↦ get id m ]
unfolding index last_with
get-index id [] m = refl
get-index id (d ∷ defs) m =
    ground (arith, get-index id defs (put d.scheme.id d m), get-put d.scheme.id id d m)

or_none :
    (o : Option Definition)
    → elim o as (λ _. Option Definition) [ some d ↦ some d | none ↦ none ] ≡ o
or_none none = refl
or_none (some d) = refl

good-IsSnapshot :
    (defs : List Definition)
    → IsSnapshot defs false (record { defs = defs; by_id = index defs []; is_stale = false })
unfolding all get_definition stale get
good-IsSnapshot defs = record {
  catalogue = refl;
  lookup = λ id. get-index id defs [] ∙ or_none (last_with id defs);
  health = refl;
}

tick-IsSnapshot :
    (answer : Result (List Definition)) (defs : List Definition) (failed : Bool) (c : Cache)
    → IsSnapshot defs failed c
    → IsSnapshot (last_good defs (answer ∷ [])) (last_failed failed (answer ∷ [])) (tick answer c)
unfolding tick refresh mark_stale last_good last_failed all get_definition stale
tick-IsSnapshot (err e) defs failed c h = record {
  catalogue = h.catalogue;
  lookup = h.lookup;
  health = refl;
}
tick-IsSnapshot (ok defs') defs failed c h = good-IsSnapshot defs'

ticks_from :
    (answers : List (Result (List Definition))) (defs : List Definition) (failed : Bool) (c : Cache)
    → IsSnapshot defs failed c
    → IsSnapshot (last_good defs answers) (last_failed failed answers) (ticks answers c)
unfolding ticks last_good last_failed
ticks_from [] defs failed c h = h
ticks_from (err e ∷ answers) defs failed c h =
    ticks_from answers defs true (tick (err e) c) (tick-IsSnapshot (err e) defs failed c h)
ticks_from (ok defs' ∷ answers) defs failed c h =
    ticks_from answers defs' false (tick (ok defs') c) (tick-IsSnapshot (ok defs') defs failed c h)

-- After a first fetch that succeeded and any sequence of background refreshes, whichever of them fail,
-- the cache holds the last catalogue that the registry sent; a lookup finds the last definition with
-- the id in it; and it is stale exactly if the last refresh failed.
pub ticks-IsSnapshot :
    (answers : List (Result (List Definition))) (defs : List Definition) (c : Cache)
    → start (ok defs) new_cache ≡ (ok tt, c)
    → IsSnapshot (last_good defs answers) (last_failed false answers) (ticks answers c)
unfolding start refresh
ticks-IsSnapshot answers defs c h =
    ticks_from answers defs false c
      (subst (IsSnapshot defs false) (ap (λ run. run.1) h) (good-IsSnapshot defs))
