-- ===== src/Accesstoken/Caches.antt =====
-- The caches of internal/accesstoken/verifier.go: the keys, and the list of revoked tokens.
use mathlib.Core.List.{Memᴰ}
use fikua_lab_issuer.Accesstoken.{
  Upstream, Verifier, is_revoked, key_set, revoked_cache_ttl, refreshed_revoked,
}
use fikua_lab_issuer.Oauth2.Jti.{keys}
use fikua_lab_issuer.Platform.{Time}
use fikua_lab_issuer.Prelude.{
  Bool, List, String, String-eq, arith, if◌then◌else◌, ltb, some, ◌+◌, ◌<◌, ◌∷◌, ◌≡◌, ◌≤◌, ◌⊎◌,
  Bool-cases, inl, inr, refl, ap,
}
use fikua_lab_issuer.Prelude.Dict.{Dict, has}
use fikua_lab_issuer.Result.Exec.{Result, err, ok, GoError}
use fikua_lab_issuer.Prelude.{[]}

-- A list that the authorization server answered with, and when the fetch was done.
pub record Answer : Type 0 where
  pub fetched_at : Time
  pub listed : Dict String (Unit {0})

abbrev pub record_answer : Time → Result (Dict String (Unit {0})) → List Answer → List Answer
record_answer now (ok listed) history = record { fetched_at = now; listed = listed } ∷ history
record_answer now (err e) history = history

-- One call of keySet, and what a fetch would answer in it.
pub record KeyCall (KeySet : Type 0) : Type 0 where
  pub called_at : Time
  pub upstream : Upstream KeySet

module _ {KeySet : Type 0} where
  -- Each of a sequence of calls answers a key set: the one that the calls before left in the cache, or
  -- one that it has fetched, at a time at which the cache has expired; and this is then in the cache.
  pub IsAvailable : KeySet → List (KeyCall KeySet) → Verifier KeySet → Type 0
  IsAvailable keys [] v = v.keys ≡ some keys
  IsAvailable keys (c ∷ calls) v =
      (next : KeySet) × ((key_set c.called_at c.upstream v).0 ≡ ok next)
      × ((next ≡ keys) ⊎ ((c.upstream.fetch_keys ≡ ok next) × (v.keys_exp ≤ c.called_at)))
      × IsAvailable next calls (key_set c.called_at c.upstream v).1

  -- What the cache holds is an answer of the history, and it expires two seconds after its fetch; or
  -- nothing has been fetched yet.
  abbrev pub IsBacked : List Answer → Verifier KeySet → Type 0
  IsBacked history v =
      (v.revoked_exp ≡ 0)
      ⊎ ((a : Answer) × Memᴰ a history
          × (v.revoked ≡ a.listed)
          × (v.revoked_exp ≡ a.fetched_at + revoked_cache_ttl))

  -- The history after a check: with the answer of the fetch, if one was due and succeeded.
  abbrev pub recorded : Time → Upstream KeySet → Verifier KeySet → List Answer → List Answer
  recorded now up v history =
      if ltb v.revoked_exp now
      then record_answer up.revoked_at up.fetch_revoked history
      else history

  module _ (now : Time) (up : Upstream KeySet) (jti : String) where
    -- The list that the check has fetched itself.
    pub IsFetched : Answer → Type 0
    IsFetched a = (up.fetch_revoked ≡ ok a.listed) × (a.fetched_at ≡ up.revoked_at)

    refreshed_recent :
        (v v' : Verifier KeySet) (found : Bool) (r : Result (Dict String (Unit {0})))
        → up.fetch_revoked ≡ r
        → refreshed_revoked up.revoked_at jti r v ≡ (ok found, v')
        → (a : Answer) × IsFetched a × (found ≡ has jti a.listed)
    unfolding refreshed_revoked IsFetched
    refreshed_recent v v' found (ok listed) e h =
        (record { fetched_at = up.revoked_at; listed = listed }, (e, refl), ground arith)
    refreshed_recent v v' found (err e) _ h = cc

    -- A check that succeeds at a time after Go's zero time, if the cache held an answer of the server or
    -- none, answers by a list that it has fetched itself, or, without a fetch, by a list of the
    -- history whose fetch was done at most two seconds before the check began.
    pub is_revoked_recent :
        (v v' : Verifier KeySet) (history : List Answer) (found : Bool)
        → 0 < now
        → IsBacked history v
        → is_revoked now up jti v ≡ (ok found, v')
        → (a : Answer) × (found ≡ has jti a.listed)
          × (IsFetched a ⊎ (Memᴰ a history × (now ≤ a.fetched_at + revoked_cache_ttl)))
    unfolding is_revoked
    is_revoked_recent v v' history found later backed h =
        elim (Bool-cases (ltb v.revoked_exp now)) [
          | inl due ↦
              let (a, own, same) =
                refreshed_recent v v' found up.fetch_revoked refl (rw due at h) in
              (a, same, inl own)
          | inr fresh ↦ elim backed [
            | inl never ↦ absurd (ground arith)
            | inr (a, mem, same, exp) ↦
                (a, ground (arith, ap (has jti) same), inr (mem, ground arith))
          ]
        ]

    refreshed-IsBacked :
        (r : Result (Dict String (Unit {0}))) (v : Verifier KeySet) (history : List Answer)
        → IsBacked history v
        → IsBacked
            (record_answer up.revoked_at r history)
            (refreshed_revoked up.revoked_at jti r v).1
    unfolding refreshed_revoked
    refreshed-IsBacked (ok listed) v history backed =
        inr (record { fetched_at = up.revoked_at; listed = listed }, Memᴰ.head refl, refl, refl)
    refreshed-IsBacked (err e) v history backed = backed

    -- The cache holds an answer of the server, or none, after a check too.
    pub is_revoked-IsBacked :
        (v : Verifier KeySet) (history : List Answer)
        → IsBacked history v
        → IsBacked (recorded now up v history) (is_revoked now up jti v).1
    unfolding is_revoked
    is_revoked-IsBacked v history backed = elim (Bool-cases (ltb v.revoked_exp now)) [
      | inl due ↦ rw due (refreshed-IsBacked up.fetch_revoked v history backed)
      | inr fresh ↦ rw fresh backed
    ]

  -- An expired list that cannot be fetched anew fails the check: no token passes on a stale list.
  pub is_revoked_fails_closed :
      (now : Time) (up : Upstream KeySet) (jti : String) (v : Verifier KeySet) (e : GoError)
      → v.revoked_exp < now
      → up.fetch_revoked ≡ err e
      → is_revoked now up jti v ≡ (err e, v)
  unfolding is_revoked
  is_revoked_fails_closed now up jti v e h f = ground (arith, f)
