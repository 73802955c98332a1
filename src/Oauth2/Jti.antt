-- ===== src/Oauth2/Jti.antt =====
-- JTIStore of internal/oauth2/dpop.go: the bounded set of DPoP proof ids that refuses replays. The
-- order in which the eviction ranges over the Go map is an argument.
pub mod Laws
use fikua_lab_issuer.Prelude.{
  Bool, List, String, String-eq, [], false, if◌then◌else◌, leb, length, true, ℕ, ◌+◌, ◌∷◌,
}
use fikua_lab_issuer.Prelude.Dict.{Dict, delete, has, put}

abbrev pub JtiStore : Type 0
JtiStore = Dict String (Unit {0})

abbrev pub jti_store_max_size : ℕ
jti_store_max_size = 10000

abbrev pub jti_store_evict_count : ℕ
jti_store_evict_count = 1000

unfoldable pub keys : JtiStore → List String
keys [] = []
keys ((k, _) ∷ s) = k ∷ keys s

-- The eviction loop, at `evicted` keys deleted so far.
unfoldable pub evict : ℕ → List String → JtiStore → JtiStore
evict evicted [] s = s
evict evicted (k ∷ ks) s =
    let rest = evict (evicted + 1) ks (delete k s) in
    if leb jti_store_evict_count (evicted + 1) then delete k s else rest

unfoldable pub accept : (List String → List String) → String → JtiStore → Bool × JtiStore
unfolding evict
accept order jti s = if has jti s then (false, s) else (
  true,
  put jti tt (if leb jti_store_max_size (length s) then evict 0 (order (keys s)) s else s),
)
