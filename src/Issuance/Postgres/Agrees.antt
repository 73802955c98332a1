-- ===== src/Issuance/Postgres/Agrees.antt =====
-- internal/issuance: the two stores of the status list answer alike.
use fikua_lab_issuer.Issuance.Store.{Store, allocate_idx, set_status}
use fikua_lab_issuer.Issuance.Interface.{Stores}
use fikua_lab_issuer.Issuance.Memory.{in_memory}
use fikua_lab_issuer.Issuance.Postgres.{Database, Statement, Tables}
use fikua_lab_issuer.Issuance.Postgres.Changing.{changing-IsSame}
use fikua_lab_issuer.Issuance.Postgres.Entries.{allocate_row, set_entry_status}
use fikua_lab_issuer.Issuance.Postgres.Records.{postgres}
use fikua_lab_issuer.Issuance.Postgres.Same.{IsSame, allocating-IsSame, entry_by_record-same}
use fikua_lab_issuer.Issuance.Record.{Record}
use fikua_lab_issuer.Prelude.{
  All, Bool, List, Option, String, String-eq, [], ap, arith, length, none, refl, suc, true, ℕ, ◌+◌,
  ◌<◌, ◌∙◌, ◌∷◌, ◌≡◌, ◌≤◌,
}
use fikua_lab_issuer.Prelude.Dict.{Dict, has}
use fikua_lab_issuer.Prelude.Int.{half_range, ℤ, ℤ-eq}
use fikua_lab_issuer.Result.Exec.{Result}

-- A call of the StatusListStore
pub data StatusCall : Type 0 where
  allocating : (id : String) → StatusCall
  changing : (id : String) → (value : ℕ) → StatusCall
  finding : (id : String) → StatusCall

pub data Answer : Type 0 where
  index_given : Result ℤ → Answer
  index_changed : Option ℤ → Answer
  entry_found : Option (ℤ × ℕ) → Answer

unfoldable pub call : {S : Type 0} → Stores S → StatusCall → S → Answer × S
call st (allocating id) s = (index_given (st.allocate_idx id s).0, (st.allocate_idx id s).1)
call st (changing id value) s =
    (index_changed (st.set_status id value s).0, (st.set_status id value s).1)
call st (finding id) s = (entry_found (st.find_by_record_id id s), s)

unfoldable pub calls : {S : Type 0} → Stores S → List StatusCall → S → List Answer
unfolding call
calls st [] s = []
calls st (c ∷ cs) s = (call st c s).0 ∷ calls st cs (call st c s).1

-- An index is only allocated to a record that is there, and a status is a byte.
abbrev pub IsAdmissible : Dict String Record → StatusCall → Type 0
IsAdmissible recs (allocating id) = has id recs ≡ true
IsAdmissible recs (changing id value) = value < 256
IsAdmissible recs (finding id) = Unit {0}

smaller : (n k : ℕ) → n + suc k < half_range → n + 1 < half_range
smaller n k h = omega arith

shorter : (m n k : ℕ) → m ≤ n + 1 → n + suc k < half_range → m + k < half_range
shorter m n k h r = omega arith

joined : {a b : Answer} {xs ys : List Answer} → a ≡ b → xs ≡ ys → a ∷ xs ≡ b ∷ ys
joined {a} {b} {xs} {ys} h k = ap (λ x. x ∷ xs) h ∙ ap (λ zs. b ∷ zs) k

module _ (db : Database) (never : (t : Tables) (stmt : Statement) → db.fails t stmt ≡ none)
    (recs : Dict String Record) where
  module _ (range : List Record → List Record)
      (sort_slice : (Record → Record → Bool) → List Record → List Record) where
    -- As long as no statement fails, the two stores of the status list give the same answers to any
    -- sequence of allocations, changes and lookups, if they hold the same entries at first, each
    -- allocation is for a record of the table, each status is a byte, and the counter stays below 2^63.
    pub calls-agree :
        (cs : List StatusCall) (s : Store) (t : Tables) (same : IsSame recs s t)
        → All (IsAdmissible recs) cs
        → same.well.next + length cs < half_range
        → calls (in_memory range sort_slice) cs s ≡ calls (postgres db) cs t
    unfolding calls call
    calls-agree [] s t same h room = refl
    calls-agree (allocating id ∷ cs) s t same (known, h) room =
        let (answer, after, le) =
          allocating-IsSame db never recs s t same id known (smaller _ _ room) in
        joined (ap index_given answer) (
          calls-agree cs (allocate_idx id s).1 (allocate_row db id t).1 after h
            (shorter _ _ _ le room))
    calls-agree (changing id value ∷ cs) s t same (small, h) room =
        let (answer, after, le) = changing-IsSame db never recs s t same id value small in
        joined (ap index_changed answer) (
          calls-agree cs (set_status id value s).1 (set_entry_status db id value t).1 after h
            (shorter _ _ _ le room))
    calls-agree (finding id ∷ cs) s t same (u, h) room =
        joined (ap entry_found (entry_by_record-same db never recs s t same id))
          (calls-agree cs s t same h (omega arith))
