-- ===== src/Mdoc/Digests.antt =====
-- buildNamespaceItems of internal/mdoc/item.go: the digests that the security object signs are those
-- of the items that the holder gets.
use mathlib.Core.Option
use fikua_lab_issuer.Prelude.{Nat-eq}
use mathlib.Core.Path.{subst}
use mathlib.Core.List.{append-nil, append_assoc}
use fikua_lab_issuer.Mdoc.Item.{Element, NamespaceDigest, add_item, build_issuer_signed_item}
use fikua_lab_issuer.Platform.{Platform, byte_string, tagged}
use fikua_lab_issuer.Prelude.{
  List, Option, String-eq, [], get_elem?, if◌then◌else◌, length, refl, some, suc, zero, ℕ, ◌++◌,
  ◌==◌, ◌∷◌, ◌≡◌,
}
use fikua_lab_issuer.Prelude.Dict.{get}
use fikua_lab_issuer.Result.Exec.{Result, ok}
use fikua_lab_issuer.Mdoc.Item.{add_items, build_namespace_items}
use fikua_lab_issuer.Prelude.{Bool, ap, arith, false, length-append, sym, true, ◌∙◌}
use fikua_lab_issuer.Prelude.Dict.{get-put, put}
use fikua_lab_issuer.Result.Exec.{and_then-ok, ok_injective}
use fikua_lab_issuer.Mdoc.Layout.{issuer_signed_item-lem, item_layout}

-- `bytes` is the tag-24 encoding of the item for an element.
pub IsItemOf : {Key KeySet : Type 0} → Platform Key KeySet → ℕ → Element → List ℕ → Type 0
IsItemOf p i elem tagged_item =
    (random inner : List ℕ) × (p.marshal_cbor (item_layout i random elem) ≡ ok inner)
    × (p.marshal_cbor (tagged 24 (byte_string inner)) ≡ ok tagged_item)

-- One item for each element from a digest id on, in order.
abbrev pub AreItemsOf :
    {Key KeySet : Type 0} → Platform Key KeySet → ℕ → List Element → List (List ℕ) → Type 0
AreItemsOf p i [] [] = Unit {0}
AreItemsOf p i [] (t ∷ ts) = ⊥
AreItemsOf p i (e ∷ es) [] = ⊥
AreItemsOf p i (e ∷ es) (t ∷ ts) = IsItemOf p i e t × AreItemsOf p (suc i) es ts

module _ {Key KeySet : Type 0} (p : Platform Key KeySet) where
  -- The digests at the ids below the number of items are those of the items, and there are no others.
  pub Matches : NamespaceDigest → Type 0
  Matches nd = (j : ℕ) → get j nd.digests ≡ Option.map p.sha256 (get_elem? nd.tagged_items j)

  get_elem?-append :
      (xs : List (List ℕ)) (x : List ℕ) (j : ℕ)
      → get_elem? (xs ++ x ∷ []) j ≡ (if length xs == j then some x else get_elem? xs j)
  get_elem?-append [] x zero = refl
  get_elem?-append [] x (suc j) = ground arith
  get_elem?-append (y ∷ ys) x zero = ground arith
  get_elem?-append (y ∷ ys) x (suc j) = ground (arith, get_elem?-append ys x j)

  if_map :
      (b : Bool) (t : List ℕ) (o : Option (List ℕ))
      → (if b then some (p.sha256 t) else Option.map p.sha256 o)
        ≡ Option.map p.sha256 (if b then some t else o)
  if_map true t o = refl
  if_map false t o = refl

  put-Matches :
      (nd : NamespaceDigest) (t : List ℕ)
      → Matches nd
      → (j : ℕ)
      → get j (put (length nd.tagged_items) (p.sha256 t) nd.digests)
        ≡ Option.map p.sha256 (get_elem? (nd.tagged_items ++ t ∷ []) j)
  unfolding Matches
  put-Matches nd t m j =
      get-put (length nd.tagged_items) j (p.sha256 t) nd.digests
      ∙ ap (λ o. if length nd.tagged_items == j then some (p.sha256 t) else o) (m j)
      ∙ if_map (length nd.tagged_items == j) t (get_elem? nd.tagged_items j)
      ∙ ap (Option.map p.sha256) (sym (get_elem?-append nd.tagged_items t j))

  add_item-Matches :
      (random : ℕ → Result (List ℕ)) (elem : Element) (nd next : NamespaceDigest)
      → Matches nd
      → add_item p random (length nd.tagged_items) elem nd ≡ ok next
      → Matches next
        × (length next.tagged_items ≡ suc (length nd.tagged_items))
        × (t : List ℕ) × IsItemOf p (length nd.tagged_items) elem t
        × (next.tagged_items ≡ nd.tagged_items ++ t ∷ [])
  unfolding add_item build_issuer_signed_item IsItemOf Matches
  add_item-Matches random elem nd next m h =
      let (inner, made, h1) = and_then-ok _ _ next h in
      let (random_bytes, drawn, made') = and_then-ok _ _ inner made in
      let (t, wrapped, h2) = and_then-ok _ _ next h1 in
      subst
        (λ nx.
          Matches nx
          × (length nx.tagged_items ≡ suc (length nd.tagged_items))
          × (t : List ℕ) × IsItemOf p (length nd.tagged_items) elem t
          × (nx.tagged_items ≡ nd.tagged_items ++ t ∷ []))
        (ok_injective _ _ h2)
        (
          (λ j. put-Matches nd t m j),
          omega (arith, length-append nd.tagged_items (t ∷ [])),
          t,
          (
            random_bytes,
            inner,
            ap p.marshal_cbor
                  (sym (issuer_signed_item-lem (length nd.tagged_items) random_bytes elem))
                ∙ made',
            wrapped,
          ),
          refl,
        )

  add_items-AreItemsOf :
      (random : ℕ → Result (List ℕ)) (i : ℕ) (elems : List Element) (nd last : NamespaceDigest)
      → i ≡ length nd.tagged_items
      → Matches nd
      → add_items p random i elems nd ≡ ok last
      → Matches last
        × (ts : List (List ℕ)) × AreItemsOf p i elems ts
        × (last.tagged_items ≡ nd.tagged_items ++ ts)
  unfolding add_items
  add_items-AreItemsOf random i [] nd last e m h =
      subst
        (λ l.
          Matches l
          × (ts : List (List ℕ)) × AreItemsOf p i [] ts
          × (l.tagged_items ≡ nd.tagged_items ++ ts))
        (ok_injective _ _ h) (m, [], tt, sym (append-nil nd.tagged_items))
  add_items-AreItemsOf random i (elem ∷ elems) nd last e m h =
      let (next, h1, h2) = and_then-ok _ _ last h in
      let (m', count, t, made, e') =
        add_item-Matches random elem nd next m
          (subst (λ k. add_item p random k elem nd ≡ ok next) e h1) in
      let (m'', ts, made', e'') =
        add_items-AreItemsOf random (suc i) elems next last (ap suc e ∙ sym count) m' h2 in
      (
        m'',
        t ∷ ts,
        (subst (λ k. IsItemOf p k elem t) (sym e) made, made'),
        e'' ∙ ap (λ l. l ++ ts) e' ∙ append_assoc nd.tagged_items (t ∷ []) ts,
      )

  none_yet : Matches (record { tagged_items = []; digests = [] })
  unfolding Matches get
  none_yet j = refl

  -- The digests are those of the items, which are the encodings of the elements in their order.
  pub build_namespace_items-AreItemsOf :
      (random : ℕ → Result (List ℕ)) (elems : List Element) (nd : NamespaceDigest)
      → build_namespace_items p random elems ≡ ok nd
      → Matches nd × AreItemsOf p 0 elems nd.tagged_items
  unfolding build_namespace_items
  build_namespace_items-AreItemsOf random elems nd h =
      let (m, ts, made, e) =
        add_items-AreItemsOf random 0 elems (record { tagged_items = []; digests = [] }) nd refl
          none_yet h in
      (m, subst (λ l. AreItemsOf p 0 elems l) (sym e) made)
