-- ===== src/Service/Rollback.antt =====
-- A data source on a state in memory: it shows that the interface can be met, and the tests run
-- on it.
use kigali_pack.Base.{ap}
use kigali_pack.Service.{Result, ok, err, DataSource}

module _ {S : Type 0} where
  abbrev pub keep_or_undo : {A : Type 0} → S → Result A × S → Result A × S
  keep_or_undo s (ok a, s') = (ok a, s')
  keep_or_undo s (err e, s') = (err e, s)

  abbrev pub rollback : DataSource S
  rollback = record {
    transaction = λ m s. keep_or_undo s (m s);
    transaction-ok = λ m s h. ap (keep_or_undo s) h;
    transaction-err = λ m s h. ap (keep_or_undo s) h;
  }
