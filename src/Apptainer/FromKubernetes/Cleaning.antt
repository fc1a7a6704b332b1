-- ===== src/Apptainer/FromKubernetes/Cleaning.antt =====
-- `_clean_keys_of_none_values` of natsprovider/apptainer_cmd_builder/from_kubernetes.py.
use interlink_condorce_plugi.Prelude.{◌≡◌, refl, ap, ◌∙◌, Text, Bool, true, false, if◌then◌else◌}

-- a parsed document, with its lists and dicts
mutual
  pub data Json : Type 0 where
    null : Json
    scalar : Text → Json
    list : Items → Json
    dict : Fields → Json

  pub data Items : Type 0 where
    nil : Items
    item : Json → Items → Items

  pub data Fields : Type 0 where
    empty : Fields
    field : Text → Json → Fields → Fields

unfoldable pub is_null : Json → Bool
is_null null = true
is_null _ = false

-- The dicts in a value are cleaned, also those in a list, but not those in a list of lists. A key of a
-- dict with the value None goes.
unfoldable mutual
  unfolding is_null

  pub clean_value : Json → Json
  clean_value (dict fs) = dict (clean fs)
  clean_value (list is) = list (clean_items is)
  clean_value null = null
  clean_value (scalar t) = scalar t

  pub clean_items : Items → Items
  clean_items nil = nil
  clean_items (item (dict fs) is) = item (dict (clean fs)) (clean_items is)
  clean_items (item null is) = item null (clean_items is)
  clean_items (item (scalar t) is) = item (scalar t) (clean_items is)
  clean_items (item (list js) is) = item (list js) (clean_items is)

  pub clean : Fields → Fields
  clean empty = empty
  clean (field k v fs) =
      let rest = clean fs in if is_null v then rest else field k (clean_value v) rest

-- no dict that is reached through dicts and lists has a key with the value None
mutual
  pub IsCleanValue : Json → Type 0
  IsCleanValue (dict fs) = IsClean fs
  IsCleanValue (list is) = AreClean is
  IsCleanValue null = Unit {0}
  IsCleanValue (scalar t) = Unit {0}

  pub AreClean : Items → Type 0
  AreClean nil = Unit {0}
  AreClean (item (dict fs) is) = IsClean fs × AreClean is
  AreClean (item null is) = AreClean is
  AreClean (item (scalar t) is) = AreClean is
  AreClean (item (list js) is) = AreClean is

  pub IsClean : Fields → Type 0
  IsClean empty = Unit {0}
  IsClean (field k v fs) = (is_null v ≡ false) × IsCleanValue v × IsClean fs

is_null-clean_value : (v : Json) → is_null (clean_value v) ≡ is_null v
unfolding is_null clean_value
is_null-clean_value null = refl
is_null-clean_value (scalar t) = refl
is_null-clean_value (list is) = refl
is_null-clean_value (dict fs) = refl

field-IsClean :
    (k : Text) (v : Json) (fs : Fields) (b : Bool)
    → is_null v ≡ b
    → IsCleanValue (clean_value v)
    → IsClean fs
    → IsClean (if b then fs else field k (clean_value v) fs)
unfolding IsCleanValue
field-IsClean k v fs true e cleaned rest = rest
field-IsClean k v fs false e cleaned rest = (is_null-clean_value v ∙ e, cleaned, rest)

mutual
  unfolding is_null clean_value clean_items clean IsCleanValue

  clean_value-IsCleanValue : (v : Json) → IsCleanValue (clean_value v)
  clean_value-IsCleanValue null = tt
  clean_value-IsCleanValue (scalar t) = tt
  clean_value-IsCleanValue (list is) = clean_items-AreClean is
  clean_value-IsCleanValue (dict fs) = fields-IsClean fs

  clean_items-AreClean : (is : Items) → AreClean (clean_items is)
  clean_items-AreClean nil = tt
  clean_items-AreClean (item null is) = clean_items-AreClean is
  clean_items-AreClean (item (scalar t) is) = clean_items-AreClean is
  clean_items-AreClean (item (list js) is) = clean_items-AreClean is
  clean_items-AreClean (item (dict fs) is) = (fields-IsClean fs, clean_items-AreClean is)

  fields-IsClean : (fs : Fields) → IsClean (clean fs)
  fields-IsClean empty = tt
  fields-IsClean (field k v fs) =
      field-IsClean k v (clean fs) (is_null v) refl (clean_value-IsCleanValue v) (fields-IsClean fs)

mutual
  unfolding is_null clean_value clean_items clean IsCleanValue

  clean_value-fixed : (v : Json) → IsCleanValue v → clean_value v ≡ v
  clean_value-fixed null h = refl
  clean_value-fixed (scalar t) h = refl
  clean_value-fixed (list is) h = ap list (clean_items-fixed is h)
  clean_value-fixed (dict fs) h = ap dict (clean-fixed fs h)

  clean_items-fixed : (is : Items) → AreClean is → clean_items is ≡ is
  clean_items-fixed nil h = refl
  clean_items-fixed (item null is) h = ap (item null) (clean_items-fixed is h)
  clean_items-fixed (item (scalar t) is) h = ap (item (scalar t)) (clean_items-fixed is h)
  clean_items-fixed (item (list js) is) h = ap (item (list js)) (clean_items-fixed is h)
  clean_items-fixed (item (dict fs) is) (h, hs) =
      rw (clean-fixed fs h, clean_items-fixed is hs) refl

  clean-fixed : (fs : Fields) → IsClean fs → clean fs ≡ fs
  clean-fixed empty h = refl
  clean-fixed (field k v fs) (e, h, hs) = rw (e, clean_value-fixed v h, clean-fixed fs hs) refl

-- Whatever a document holds, no dict that the cleaning reaches has a key with the value None
-- afterwards, on any level, and a document in which there is none is left as it is, so that to clean
-- twice is to clean once.
pub clean-IsClean :
    (fs : Fields)
    → IsClean (clean fs) × (IsClean fs → clean fs ≡ fs) × (clean (clean fs) ≡ clean fs)
clean-IsClean fs = (fields-IsClean fs, clean-fixed fs, clean-fixed (clean fs) (fields-IsClean fs))
