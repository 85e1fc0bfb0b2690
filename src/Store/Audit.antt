-- ===== src/Store/Audit.antt =====
-- What a page of the audit of a key is, on the versions and the events.
use truthmetal.Base.{
  ◌≡◌, String, Bool, some, List, [], ◌∷◌, ◌++◌, ◌==◌, ◌&&◌, if◌then◌else◌, leb, length,
}
use truthmetal.Base.Int.{ℤ, pos}
use truthmetal.Base.Sorting.{Reorders, IsSorted}
use truthmetal.Model.{Parameter, LedgerEvent}
use truthmetal.Store.Db.{Db}
use truthmetal.Store.Sql.Meaning.{windowed}

module _ (namespace key : String) where
  abbrev pub is_version_of : LedgerEvent → Parameter → Bool
  is_version_of e p = p.id == e.parameter_id && (p.namespace == namespace && p.key == key)

  -- The event, once for each version of the key that it belongs to.
  abbrev pub belonging : LedgerEvent → List Parameter → List LedgerEvent
  belonging e [] = []
  belonging e (p ∷ ps) = if is_version_of e p then e ∷ belonging e ps else belonging e ps

  abbrev pub audited : List LedgerEvent → List Parameter → List LedgerEvent
  audited [] ps = []
  audited (e ∷ es) ps = belonging e ps ++ audited es ps

abbrev pub newest_first : LedgerEvent → LedgerEvent → Bool
newest_first e f = leb f.occurred_at e.occurred_at

-- The page with the limit and the offset, newest first, and the number of all events of the key.
pub record IsPage (namespace key : String) (limit offset : ℤ) (db : Db) (page : List LedgerEvent)
    (total : ℤ) : Type 0 where
  pub arranged : List LedgerEvent
  pub reorders : Reorders arranged (audited namespace key db.events db.parameters)
  pub sorted : IsSorted newest_first arranged
  pub shown : windowed (some (record { limit = limit; offset = offset })) arranged ≡ some page
  pub counted : total ≡ pos (length (audited namespace key db.events db.parameters))
