-- ===== src/Store/Settings.antt =====
-- db/repository.py: `get_setting` and `set_setting`.
use llopster.Base.{◌≡◌, some, List, [], ◌∷◌, if◌then◌else◌, arith, Text, text_eq, text_eq_iff}
use llopster.Alerts.{get}
use llopster.Store.{Db, get_setting, set_setting, put_setting}

get-put_setting :
    (i j value : Text) (settings : List (Text × Text))
    → get j (put_setting i value settings) ≡ (if text_eq i j then some value else get j settings)
unfolding get put_setting
get-put_setting i j value [] = ground arith
get-put_setting i j value ((k, v) ∷ rest) =
    ground
      (arith, get-put_setting i j value rest, text_eq_iff i j, text_eq_iff k i, text_eq_iff k j)

-- A setting that is stored is read back, and no other setting is touched.
get_setting-set_setting :
    (i j value : Text) (db : Db)
    → get_setting j (set_setting i value db)
      ≡ (if text_eq i j then some value else get_setting j db)
unfolding get_setting set_setting
get_setting-set_setting i j value db = get-put_setting i j value db.settings
