-- ===== src/Registryclient/Cache.antt =====
-- internal/registryclient/cache.go: the last good answer of the registry. What a call of ListSchemes
-- would answer is an argument; each section under the mutex is one step.
use fikua_lab_issuer.Prelude.{Bool, List, Option, String, String-eq, [], false, true, ◌∷◌}
use fikua_lab_issuer.Prelude.Dict.{Dict, get, put}
use fikua_lab_issuer.Registryclient.Types.{Definition}
use fikua_lab_issuer.Result.Exec.{Exec, Result, err, ok}

pub record Cache : Type 0 where
  pub defs : List Definition
  pub by_id : Dict String Definition
  pub is_stale : Bool

unfoldable pub new_cache : Cache
new_cache = record { defs = []; by_id = []; is_stale = false }

-- `for _, d := range defs { byID[d.Scheme.ID] = d }`
unfoldable pub index : List Definition → Dict String Definition → Dict String Definition
index [] m = m
index (d ∷ defs) m = index defs (put d.scheme.id d m)

unfoldable pub refresh : Result (List Definition) → Exec Cache (Unit {0})
unfolding index
refresh (err e) c = (err e, c)
refresh (ok defs) c = (ok tt, record { defs = defs; by_id = index defs []; is_stale = false })

-- Start up to the ticker: the error of a first fetch is the caller's.
unfoldable pub start : Result (List Definition) → Exec Cache (Unit {0})
unfolding refresh
start answer c = refresh answer c

unfoldable pub mark_stale : Result (Unit {0}) × Cache → Cache
mark_stale (ok _, c) = c
mark_stale (err _, c) = record c { is_stale = true }

-- One round of the background goroutine
unfoldable pub tick : Result (List Definition) → Cache → Cache
unfolding refresh mark_stale
tick answer c = mark_stale (refresh answer c)

-- The rounds so far, in their order
unfoldable pub ticks : List (Result (List Definition)) → Cache → Cache
unfolding tick
ticks [] c = c
ticks (answer ∷ answers) c = ticks answers (tick answer c)

unfoldable pub stale : Cache → Bool
stale c = c.is_stale

unfoldable pub all : Cache → List Definition
all c = c.defs

unfoldable pub get_definition : String → Cache → Option Definition
get_definition id c = get id c.by_id
