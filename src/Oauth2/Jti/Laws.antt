-- ===== src/Oauth2/Jti/Laws.antt =====
-- Accept of the JTIStore of internal/oauth2/dpop.go: its answers, and the size of the set.
use mathlib.Core.Logic.Or
use mathlib.Core.Bool.{Bool-set}
use mathlib.Core.List.{not-mem-nil, mem-cons, Mem}
use mathlib.Core.List
use mathlib.Core.List.Perm
use fikua_lab_issuer.Oauth2.Jti.{JtiStore, accept, evict, jti_store_max_size, keys}
use fikua_lab_issuer.Prelude.{
  String, String-eq, [], arith, eq_iff, false, if◌then◌else◌, length, not, refl, suc, true, ℕ, ◌+◌,
  ◌<◌, ◌==◌, ◌∷◌, ◌≡◌, ◌≤◌, List,
}
use fikua_lab_issuer.Prelude.Dict.{
  delete, get, has, has-put, has-put_self, length-delete-le, length-put-le,
}

-- The order of a range over a map is some order of its keys.
abbrev pub IsRangeOrder : (List String → List String) → Type 0
IsRangeOrder order = (ks : List String) → List.Perm (order ks) ks

delete-length-lt : (k : String) (s : JtiStore) → has k s ≡ true → length (delete k s) < length s
unfolding has get delete
delete-length-lt k [] h = cc
delete-length-lt k ((j, _) ∷ s) h = ground (arith, delete-length-lt k s, length-delete-le k s)

evict-length-le : (n : ℕ) (ks : List String) (s : JtiStore) → length (evict n ks s) ≤ length s
unfolding evict
evict-length-le n [] s = omega arith
evict-length-le n (k ∷ ks) s =
    ground (arith, evict-length-le (n + 1) ks (delete k s), length-delete-le k s)

-- An eviction that begins with a key of the set makes room.
evict-length-lt :
    (n : ℕ) (k : String) (ks : List String) (s : JtiStore)
    → has k s ≡ true
    → length (evict n (k ∷ ks) s) < length s
unfolding evict
evict-length-lt n k ks s h =
    ground (arith, evict-length-le (n + 1) ks (delete k s), delete-length-lt k s)

has_of_mem : (k : String) (s : JtiStore) → Mem k (keys s) → has k s ≡ true
unfolding keys has get
has_of_mem k [] m = absurd (not-mem-nil m)
has_of_mem k ((j, _) ∷ s) m =
    Or.elim (Bool-set _ _) (mem-cons.0 m) (λ e. ground (arith, eq_iff j k))
      (λ r. ground (arith, has_of_mem k s r))

-- The order of a range over a set that is not empty begins with a key of it.
range_first :
    (order : List String → List String)
    → IsRangeOrder order
    → (j : String) (v : Unit {0}) (s : JtiStore)
    → length (evict 0 (order (keys ((j, v) ∷ s))) ((j, v) ∷ s)) < suc (length s)
unfolding keys
range_first order h j v s = go (order (j ∷ keys s)) (h (j ∷ keys s))
  where
    go :
        (ks : List String)
        → List.Perm ks (j ∷ keys s)
        → length (evict 0 ks ((j, v) ∷ s)) < suc (length s)
    go [] p = cc (Perm.nil-eq p)
    go (k ∷ ks) p =
        evict-length-lt 0 k ks ((j, v) ∷ s)
          (has_of_mem k ((j, v) ∷ s) ((Perm.mem_iff p).0 (mem-cons.1 (Or.inl refl))))

-- However the map is ranged over, a set within the bound stays within it, and what is accepted is
-- in the set.
pub accept_bounded :
    (order : List String → List String) (jti : String) (s : JtiStore)
    → IsRangeOrder order
    → length s ≤ jti_store_max_size
    → (length (accept order jti s).1 ≤ jti_store_max_size) × (has jti (accept order jti s).1 ≡ true)
unfolding accept
accept_bounded order jti [] h bound =
    ground (arith, length-put-le jti tt [], has-put_self jti tt [])
accept_bounded order jti ((j, v) ∷ s) h bound = ground (
  arith,
  range_first order h j v s,
  length-put-le jti tt (evict 0 (order (keys ((j, v) ∷ s))) ((j, v) ∷ s)),
  length-put-le jti tt ((j, v) ∷ s),
  has-put_self jti tt (evict 0 (order (keys ((j, v) ∷ s))) ((j, v) ∷ s)),
  has-put_self jti tt ((j, v) ∷ s),
)

-- Below the bound, a proof id is accepted exactly if it is not in the set, and afterwards the set
-- holds that id and the ids that it held, and no others.
pub accept_lem :
    (order : List String → List String) (jti other : String) (s : JtiStore)
    → length s < jti_store_max_size
    → ((accept order jti s).0 ≡ not (has jti s))
      × (has other (accept order jti s).1 ≡ (if jti == other then true else has other s))
unfolding accept
accept_lem order jti other s h = ground (arith, has-put jti other tt s, eq_iff jti other)

-- Whatever the set holds, an id that it holds is refused, and the refusal leaves the set alone.
pub accept_seen :
    (order : List String → List String) (jti : String) (s : JtiStore)
    → has jti s ≡ true
    → accept order jti s ≡ (false, s)
unfolding accept
accept_seen order jti s h = rw h

-- What is accepted was new, and is in the set afterwards.
pub accept-true :
    (order : List String → List String) (jti : String) (s : JtiStore)
    → (accept order jti s).0 ≡ true
    → (has jti s ≡ false) × (has jti (accept order jti s).1 ≡ true)
unfolding accept
accept-true order jti s h =
    ground (arith, has-put_self jti tt s, has-put_self jti tt (evict 0 (order (keys s)) s))
