-- ===== src/Store/Write.antt =====
-- `deliveryWrite` of packages/core/src/store.ts: a transaction, and what the disk does with it.
use agent_phonon.Base.{Result, ok, err}

-- `fails`: the transaction is rolled back and the error is thrown. `fails_late`: it is committed, and
-- the snapshot that `deliveryWrite` takes behind it throws.
pub data Disk : Type 0 where
  works fails fails_late : Disk

pub data StoreError : Type 0 where
  io_error identity_changed : StoreError

-- The database after a transaction with this result, and what the caller is given.
unfoldable pub settle {ℓ} :
    {D : Type 0} {A : Type ℓ} → Disk → D → Result StoreError (D × A) → D × Result StoreError A
settle works db (err e) = (db, err e)
settle works db (ok (db', a)) = (db', ok a)
settle fails_late db (err e) = (db, err e)
settle fails_late db (ok (db', a)) = (db', err io_error)
settle fails db _ = (db, err io_error)

unfoldable pub delivery_write {ℓ} :
    {D : Type 0} {A : Type ℓ} → Disk → (D → Result StoreError (D × A)) → D → D × Result StoreError A
unfolding settle
delivery_write disk transaction db = settle disk db (transaction db)
