-- ===== src/Tests/Databases.antt =====
-- The theorem about the two stores, at concrete inputs.
use fikua_lab_issuer.Issuance.Store.{new_store, find_by_record_id}
use fikua_lab_issuer.Prelude.{String-eq}
use fikua_lab_issuer.Issuance.Memory.{in_memory}
use fikua_lab_issuer.Issuance.Postgres.{Database, Tables}
use fikua_lab_issuer.Issuance.Postgres.Agrees.{allocating, calls, calls-agree, changing, finding}
use fikua_lab_issuer.Issuance.Postgres.Entries.{used_idx}
use fikua_lab_issuer.Issuance.Postgres.Records.{postgres}
use fikua_lab_issuer.Issuance.Postgres.Same.{IsSame}
use fikua_lab_issuer.Issuance.Record.{Record}
use fikua_lab_issuer.Issuance.Store.Status.{new_store-IsWellFormed}
use fikua_lab_issuer.Prelude.{String, [], arith, none, refl, ◌∷◌, ◌≡◌}
use fikua_lab_issuer.Prelude.Dict.{Dict, get, has}
use fikua_lab_issuer.Prelude.Int.{pos}
use fikua_lab_issuer.Result.Exec.{ok}
use fikua_lab_issuer.Tests.StatusLists.{issued_record}
use fikua_lab_issuer.Tests.World.{as_given, in_order}

abbrev database : Database
database = record {
  fails = λ t stmt. none;
  jsonb = λ text. ok text;
  order_by = λ sort_field sort_order recs. recs;
}

abbrev rows : Dict String Record
rows = ("record-1", issued_record) ∷ []

abbrev tables : Tables
tables = record { records = rows; entries = []; next_idx = pos 0 }

tables-IsSame : IsSame rows new_store tables
unfolding new_store new_store-IsWellFormed get find_by_record_id used_idx
tables-IsSame = record {
  well = new_store-IsWellFormed;
  records = refl;
  next = refl;
  entry = λ id. refl;
  unused = λ n le. refl;
}

calls-agree_example :
    calls
      (in_memory in_order as_given)
      (allocating "record-1" ∷ changing "record-1" 1 ∷ finding "record-1" ∷ [])
      new_store
    ≡ calls
        (postgres database)
        (allocating "record-1" ∷ changing "record-1" 1 ∷ finding "record-1" ∷ [])
        tables
unfolding tables-IsSame new_store-IsWellFormed has get
calls-agree_example =
    calls-agree database (λ t stmt. refl) rows in_order as_given
      (allocating "record-1" ∷ changing "record-1" 1 ∷ finding "record-1" ∷ []) new_store tables
      tables-IsSame (refl, (omega arith, (tt, tt))) (omega arith)
