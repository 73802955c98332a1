-- ===== src/Statuslist/Readback.antt =====
-- packBitstring of internal/statuslist/bitstring.go, with a reader of the list.
use mathlib.Core.Path.{subst}
use mathlib.Core.Bool.{false≢true}
use Prim.Native.Nat.{bit_and}
use fikua_lab_issuer.Prelude.{
  Bool-cases, List, arith, get_or, if◌then◌else◌, inl, inr, length, nat_eq, some, ℕ, ◌%◌, ◌*◌, ◌+◌,
  ◌/◌, ◌<◌, ◌^◌, ◌≡◌, ap, false, ltb, lt→ltb, not, sym, true, ◌||◌, ◌∙◌, Bool, none, refl, ◌∷◌, All,
  String-eq, [], length-set, ◌==◌, get_or-replicate, length-replicate, replicate,
}
use fikua_lab_issuer.Prelude.Int.{
  half_range, pos, ◌<ℤ◌, *ℤ-pos, wrap64, wrap64_small, ◌*ℤ◌, negsuc, ℤ, ℤ-eq, +ℤ-pos, ◌+ℤ◌,
}
use fikua_lab_issuer.Statuslist.{
  pack_entry, read_status, shift_byte, width, pack_loop, pack_bitstring,
}
use fikua_lab_issuer.Statuslist.Bits.{bit_and_three, shift_pair}
use fikua_lab_issuer.Prelude.Dict.{Dict, get, IsMap}
use fikua_lab_issuer.Statuslist.Slots.{AreBytes, read-written, status_or, written, written-AreBytes}

module _ (n : ℕ) (fits : n * 2 + 7 < half_range) where
  doubled : (j : ℕ) → j < n → wrap64 (pos j *ℤ width) ≡ pos (j * 2)
  doubled j lt = ap wrap64 (*ℤ-pos j 2) ∙ wrap64_small (j * 2) (omega arith)

  mask_of :
      (j status : ℕ)
      → status < 256
      → shift_byte (bit_and status 3) (j * 2 % 8) ≡ status % 4 * 2 ^ (j % 4 * 2)
  mask_of j status small =
      let offset : j * 2 % 8 ≡ j % 4 * 2 = omega arith in
      let below : ltb (j % 4 * 2) 8 ≡ true = ground arith in
      rw (offset, below, bit_and_three status small)
        (shift_pair (status % 4) (j % 4) (omega arith) (omega arith))

  pack_entry_lem :
      (j status : ℕ) (out : List ℕ)
      → j < n
      → status < 256
      → length out ≡ (n * 2 + 7) / 8
      → pack_entry (pos n) (pos j) status out ≡ some (written j (status % 4) out)
  unfolding pack_entry ◌<ℤ◌
  pack_entry_lem j status out lt small len =
      let inside : (ltb (j + 0) 0 || not (ltb (j + 0) (n + 0))) ≡ false = ground arith in
      let byte : j * 2 / 8 ≡ j / 4 = omega arith in
      let room : ltb (j / 4) (length out) ≡ true = lt→ltb _ _ (omega (arith, len)) in
      rw (inside, doubled j lt, mask_of j status small, byte, room)

  -- An index outside of the list is skipped.
  outside : ℤ → Bool
  outside idx = idx <ℤ pos 0 || not (idx <ℤ pos n)

  pack_entry-outside :
      (idx : ℤ) (status : ℕ) (out : List ℕ)
      → outside idx ≡ true
      → pack_entry (pos n) idx status out ≡ some out
  unfolding pack_entry outside
  pack_entry-outside idx status out h = rw h

  inside_pos : (idx : ℤ) → outside idx ≡ false → (j : ℕ) × (idx ≡ pos j) × (j < n)
  unfolding outside ◌<ℤ◌
  inside_pos (pos j) h = (j, refl, ground arith)
  inside_pos (negsuc j) h = absurd (ground arith)

  inside_lt : (i : ℕ) → i < n → outside (pos i) ≡ false
  unfolding outside ◌<ℤ◌
  inside_lt i lt = ground arith

  -- What the loop leaves, from a list whose slots for the entries still to come are empty.
  record IsPacked (entries : Dict ℤ ℕ) (out : List ℕ) : Type 0 where
    result : List ℕ
    packed : pack_loop (pos n) entries out ≡ some result
    size : length result ≡ (n * 2 + 7) / 8
    byte_sized : AreBytes result
    slots :
        (i : ℕ) → i < n → read_status result i ≡ status_or (get (pos i) entries) (read_status out i)

  abbrev HasRoom : Dict ℤ ℕ → List ℕ → Type 0
  HasRoom entries out =
      (length out ≡ (n * 2 + 7) / 8)
      × AreBytes out
      × ((i v : ℕ) → i < n → get (pos i) entries ≡ some v → read_status out i ≡ 0)

  module _ (status : ℕ) (entries : Dict ℤ ℕ) (out : List ℕ) where
    skipped_slots :
        (idx : ℤ) (i : ℕ)
        → outside idx ≡ true
        → i < n
        → get (pos i) ((idx, status) ∷ entries) ≡ get (pos i) entries
    unfolding get
    skipped_slots idx i h lt = elim (Bool-cases (idx == pos i)) [
      | inl same ↦
          let q = (ℤ-eq.beq_iff idx (pos i)).0 same in
          absurd (false≢true (sym (inside_lt i lt) ∙ ap outside (sym q) ∙ h))
      | inr other ↦ rw other
    ]

    module _ (j : ℕ) (lt : j < n) (small : status < 256)
        (room : HasRoom ((pos j, status) ∷ entries) out) where
      free : read_status out j ≡ 0
      unfolding get
      free = room.2 j status lt (ground arith)

      in_list : j / 4 < length out
      in_list = omega (arith, room.0)

      slot_after :
          (i : ℕ)
          → read_status (written j (status % 4) out) i
            ≡ (if nat_eq j i then status % 4 else read_status out i)
      slot_after i = read-written j (status % 4) out (omega arith) in_list room.1 i free

      room_after : get (pos j) entries ≡ none → HasRoom entries (written j (status % 4) out)
      unfolding get
      room_after new = (
        length-set out (j / 4) _ ∙ room.0,
        written-AreBytes j (status % 4) out (omega arith) in_list room.1,
        λ i v below found. elim (Bool-cases (nat_eq j i)) [
          | inl same ↦
              let q : j ≡ i = ground arith in cc (ap (λ t. get (pos t) entries) q, new, found)
          | inr other ↦ slot_after i ∙ rw other (room.2 i v below (rw other found))
        ],
      )

      slots_after :
          (i : ℕ)
          → get (pos j) entries ≡ none
          → status_or (get (pos i) entries) (read_status (written j (status % 4) out) i)
            ≡ status_or (get (pos i) ((pos j, status) ∷ entries)) (read_status out i)
      unfolding get
      slots_after i new = elim (Bool-cases (nat_eq j i)) [
        | inl same ↦
            let q : j ≡ i = ground arith in
            let absent : get (pos i) entries ≡ none = ap (λ t. get (pos t) entries) (sym q) ∙ new in
            rw (same, absent) (slot_after i ∙ rw same)
        | inr other ↦ rw other (ap (status_or (get (pos i) entries)) (slot_after i ∙ rw other))
      ]

  IsPacked-step :
      (idx : ℤ) (status : ℕ) (entries : Dict ℤ ℕ) (out out' : List ℕ)
      → pack_entry (pos n) idx status out ≡ some out'
      → ((i : ℕ)
          → i < n
          → status_or (get (pos i) entries) (read_status out' i)
            ≡ status_or (get (pos i) ((idx, status) ∷ entries)) (read_status out i))
      → IsPacked entries out'
      → IsPacked ((idx, status) ∷ entries) out
  unfolding pack_loop
  IsPacked-step idx status entries out out' entered keeps rest = record {
    result = rest.result;
    packed = rw (entered, pack_loop) rest.packed;
    size = rest.size;
    byte_sized = rest.byte_sized;
    slots = λ i lt. rest.slots i lt ∙ keeps i lt;
  }

  abbrev AreSmall : Dict ℤ ℕ → Type 0
  AreSmall entries = All (λ e. e.1 < 256) entries

  pack_loop_lem :
      (entries : Dict ℤ ℕ) (out : List ℕ)
      → IsMap entries
      → AreSmall entries
      → HasRoom entries out
      → IsPacked entries out
  unfolding pack_loop get
  pack_loop_lem [] out unique small room = record {
    result = out;
    packed = refl;
    size = room.0;
    byte_sized = room.1;
    slots = λ i lt. refl;
  }
  pack_loop_lem ((idx, status) ∷ entries) out (new, unique) (small, smalls) room =
      elim (Bool-cases (outside idx)) [
        | inl skip ↦
            IsPacked-step idx status entries out out (pack_entry-outside idx status out skip)
              (λ i lt.
                ap (λ o. status_or o (read_status out i))
                  (sym (skipped_slots status entries out idx i skip lt)))
              (pack_loop_lem entries out unique smalls (
                room.0,
                room.1,
                λ i v lt h. room.2 i v lt (skipped_slots status entries out idx i skip lt ∙ h),
              ))
        | inr kept ↦
            let (j, at, lt) = inside_pos idx kept in
            let room' : HasRoom ((pos j, status) ∷ entries) out =
              subst (λ t. HasRoom ((t, status) ∷ entries) out) at room in
            let new' : get (pos j) entries ≡ none = subst (λ t. get t entries ≡ none) at new in
            subst (λ t. IsPacked ((t, status) ∷ entries) out) (sym at)
              (IsPacked-step (pos j) status entries out (written j (status % 4) out)
                (pack_entry_lem j status out lt small room.0)
                (λ i _. slots_after status entries out j lt small room' i new')
                (pack_loop_lem entries (written j (status % 4) out) unique smalls
                  (room_after status entries out j lt small room' new')))
      ]

  not_negative : (pos n <ℤ pos 0) ≡ false
  unfolding ◌<ℤ◌
  not_negative = ground arith

  byte_count : wrap64 (wrap64 (pos n *ℤ width) +ℤ pos 7) ≡ pos (n * 2 + 7)
  byte_count =
      ap (λ t. wrap64 (wrap64 t +ℤ pos 7)) (*ℤ-pos n 2)
      ∙ ap (λ t. wrap64 (t +ℤ pos 7)) (wrap64_small (n * 2) (omega arith))
      ∙ ap wrap64 (+ℤ-pos (n * 2) 7)
      ∙ wrap64_small (n * 2 + 7) fits

  pack_bitstring_lem :
      (entries : Dict ℤ ℕ)
      → pack_bitstring entries (pos n) ≡ pack_loop (pos n) entries (replicate ((n * 2 + 7) / 8) 0)
  unfolding pack_bitstring
  pack_bitstring_lem entries = rw (not_negative, byte_count)

  empty_slot : (m i : ℕ) → read_status (replicate m 0) i ≡ 0
  unfolding read_status
  empty_slot m i = rw (get_or-replicate {A = ℕ} m (i * 2 / 8) 0) (omega arith)

-- Packing a list of n entries, small enough that the bit count of the list is no overflow, does not
-- panic, makes ⌈n / 4⌉ bytes, and a reader finds at each index below n the status of that index, or
-- 0 (valid) where the index has no entry.
pub read_status-pack_bitstring :
    (entries : Dict ℤ ℕ) (n : ℕ)
    → n * 2 + 7 < half_range
    → IsMap entries
    → All (λ e. e.1 < 256) entries
    → (out : List ℕ) × (pack_bitstring entries (pos n) ≡ some out)
      × (length out ≡ (n + 3) / 4)
      × ((k : ℕ) → get_or out k 0 < 256)
      × ((i : ℕ) → i < n → read_status out i ≡ status_or (get (pos i) entries) 0)
read_status-pack_bitstring entries n fits unique small =
    let empty : List ℕ = replicate ((n * 2 + 7) / 8) 0 in
    let p = pack_loop_lem n fits entries empty unique small (
      length-replicate _ 0,
      λ k. subst (λ t. t < 256) (sym (get_or-replicate {A = ℕ} _ k 0)) (omega arith),
      λ i v _ _. empty_slot n fits _ i,
    ) in
    (
      p.result,
      pack_bitstring_lem n fits entries ∙ p.packed,
      p.size ∙ omega arith,
      p.byte_sized,
      λ i lt. p.slots i lt ∙ ap (status_or (get (pos i) entries)) (empty_slot n fits _ i),
    )
