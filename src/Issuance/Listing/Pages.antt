-- ===== src/Issuance/Listing/Pages.antt =====
-- ListIssuanceRecords of internal/issuance/list.go with FindAll of store.go: pages and their bounds.
use fikua_lab_issuer.Issuance.Store.{Store, page_of, slice, find_all, sorted_records}
use fikua_lab_issuer.Issuance.Record.{Record}
use fikua_lab_issuer.Prelude.{
  Bool-cases, List, ap, arith, drop, drop_all, inl, inr, length, length-drop, ltb, some, sym, take,
  take_all, take_nil, ℕ, ◌+◌, ◌-◌, ◌<◌, ◌∙◌, ◌≡◌, ◌≤◌, Bool, String, String-eq, none, ◌*◌, ◌^◌,
}
use fikua_lab_issuer.Prelude.Int.{
  +ℤ-pos, half_range, pos, wrap64, wrap64_small, ◌+ℤ◌, ◌<ℤ◌, *ℤ-pos, negsuc, ℤ, ℤ-eq, ◌*ℤ◌, ◌-ℤ◌,
  wrap64_negative,
}
use fikua_lab_issuer.Issuance.Listing.{
  list_issuance_records, listed_page, page_or_default, size_or_default, views,
}
use fikua_lab_issuer.Issuance.Memory.{in_memory}
use fikua_lab_issuer.Platform.{Platform, Time}
use fikua_lab_issuer.Result.Exec.{err, ok, panic}

module _ (all : List Record) (n k : ℕ) where
  -- The bounds of a page that do not overflow give a part of the list.
  page_of_lem :
      n + k < half_range
      → 1 ≤ k
      → page_of all (pos n) (pos k) ≡ some (take k (drop n all), pos (length all))
  unfolding page_of slice ◌<ℤ◌
  page_of_lem fits positive =
      let sum : wrap64 (pos n +ℤ pos k) ≡ pos (n + k) =
        ap wrap64 (+ℤ-pos n k) ∙ wrap64_small (n + k) fits in
      elim (Bool-cases (ltb n (length all))) [
        | inl inside ↦ elim (Bool-cases (ltb (length all) (n + k))) [
          | inl short ↦
              let whole : take (length all - n) (drop n all) ≡ take k (drop n all) =
                take_all _ (drop n all) (rw (length-drop n all) (omega arith))
                ∙ sym (take_all k (drop n all) (rw (length-drop n all) (ground arith))) in
              ground (arith, sum, whole)
          | inr long ↦ ground (arith, sum)
        ]
        | inr outside ↦ ground (arith, drop_all n all, take_nil {A = Record} k)
      ]

-- An offset that has wrapped to a negative number is a panic.
page_of-negative : (all : List Record) (n : ℕ) (limit : ℤ) → page_of all (negsuc n) limit ≡ none
unfolding page_of slice ◌<ℤ◌
page_of-negative all n limit = ground arith

module _ (page size : ℕ) (positive : 1 ≤ page) (some_rows : 1 ≤ size)
    (page_fits : page < half_range) (size_fits : size < half_range) where
  page_as_given : page_or_default (pos page) ≡ pos page
  unfolding ◌<ℤ◌
  page_as_given = ground arith

  size_as_given : size_or_default (pos size) ≡ pos size
  unfolding ◌<ℤ◌
  size_as_given = ground arith

  page_before : wrap64 (pos page -ℤ pos 1) ≡ pos (page - 1)
  unfolding ◌-ℤ◌
  page_before = ap wrap64 (ground arith) ∙ wrap64_small (page - 1) (omega arith)

  offset_fits :
      (page - 1) * size < half_range
      → wrap64 (wrap64 (pos page -ℤ pos 1) *ℤ pos size) ≡ pos ((page - 1) * size)
  offset_fits h =
      rw page_before (ap wrap64 (*ℤ-pos (page - 1) size) ∙ wrap64_small ((page - 1) * size) h)

  offset_wraps :
      half_range ≤ (page - 1) * size
      → (page - 1) * size < 2 * half_range
      → wrap64 (wrap64 (pos page -ℤ pos 1) *ℤ pos size) ≡ negsuc (2 ^ 64 - (page - 1) * size - 1)
  offset_wraps h k =
      rw page_before (ap wrap64 (*ℤ-pos (page - 1) size) ∙ wrap64_negative ((page - 1) * size) h k)

  module _ {Key KeySet : Type 0} (p : Platform Key KeySet) (range : List Record → List Record)
      (sort_slice : (Record → Record → Bool) → List Record → List Record) (format : Time → String)
      (sort_field sort_order : String) (s : Store) where
    -- Over the in-memory store a page with a positive number and size is the part of the sorted records from (page - 1) * size
    -- on, with up to size rows, as long as the end of the page does not overflow an int.
    pub list_issuance_records-page :
        (page - 1) * size + size < half_range
        → list_issuance_records p
            (in_memory range sort_slice)
            format
            (pos page)
            (pos size)
            sort_field
            sort_order
            s
          ≡ ok (record {
            records = views p (in_memory range sort_slice) format s (
                take size (
                  drop
                    ((page - 1) * size)
                    (sorted_records range sort_slice sort_field sort_order s)));
            total = pos (length (sorted_records range sort_slice sort_field sort_order s));
            page = pos page;
            size = pos size;
          })
    unfolding list_issuance_records listed_page find_all page_of
    list_issuance_records-page fits =
        rw (size_as_given, page_as_given, offset_fits (omega arith))
          (ap (listed_page p (in_memory range sort_slice) format s (pos page) (pos size)) (
            page_of_lem (sorted_records range sort_slice sort_field sort_order s)
              ((page - 1) * size) size fits some_rows))

    -- A page whose offset overflows an int, but not twice, is a panic over the in-memory store, whatever
    -- the store holds.
    pub list_issuance_records-overflow :
        half_range ≤ (page - 1) * size
        → (page - 1) * size < 2 * half_range
        → (text : String) × (list_issuance_records p
              (in_memory range sort_slice)
              format
              (pos page)
              (pos size)
              sort_field
              sort_order
              s
            ≡ err (panic text))
    unfolding list_issuance_records listed_page find_all page_of
    list_issuance_records-overflow h k = (
      "slice bounds out of range",
      rw (size_as_given, page_as_given, offset_wraps h k)
          (ap (listed_page p (in_memory range sort_slice) format s (pos page) (pos size)) (
            page_of-negative (sorted_records range sort_slice sort_field sort_order s) _
              (pos size))),
    )
