-- ===== src/Wire/Canonical/Laws.antt =====
-- What canonical.py promises: no `null` under a key, every list element in its place, and bytes that
-- hold no control character.
use moadian.Base.{suc, ◌≡◌, refl, ap, Bool, true, not, ◌&&◌, arith}
use moadian.Wire.Json.{
  Value, Items, Fields, null, bool, int, flt, str, arr, obj, nil, cons, end, field, is_null, size,
}
use moadian.Wire.Canonical.{strip_nulls, strip_items, strip_fields}

-- No dict at any depth has a key whose value is `None`.
unfoldable mutual
  pub null_free : {F : Type 0} → Value F → Bool
  null_free (obj fs) = null_free_fields fs
  null_free (arr vs) = null_free_items vs
  null_free null = true
  null_free (bool b) = true
  null_free (int n) = true
  null_free (flt x) = true
  null_free (str s) = true

  null_free_items : {F : Type 0} → Items F → Bool
  null_free_items nil = true
  null_free_items (cons v vs) = null_free v && null_free_items vs

  null_free_fields : {F : Type 0} → Fields F → Bool
  null_free_fields end = true
  null_free_fields (field k v fs) = not (is_null v) && (null_free v && null_free_fields fs)

module _ {F : Type 0} where
  still_null : (v : Value F) → is_null (strip_nulls v) ≡ is_null v
  unfolding strip_nulls
  still_null null = refl
  still_null (bool b) = refl
  still_null (int n) = refl
  still_null (flt x) = refl
  still_null (str s) = refl
  still_null (arr vs) = refl
  still_null (obj fs) = refl

  mutual
    unfolding strip_nulls strip_items strip_fields null_free null_free_items null_free_fields

    nulls_gone : (v : Value F) → null_free (strip_nulls v) ≡ true
    nulls_gone null = refl
    nulls_gone (bool b) = refl
    nulls_gone (int n) = refl
    nulls_gone (flt x) = refl
    nulls_gone (str s) = refl
    nulls_gone (arr vs) = nulls_gone_items vs
    nulls_gone (obj fs) = nulls_gone_fields fs

    nulls_gone_items : (vs : Items F) → null_free_items (strip_items vs) ≡ true
    nulls_gone_items nil = refl
    nulls_gone_items (cons v vs) = rw (nulls_gone v, nulls_gone_items vs)

    nulls_gone_fields : (fs : Fields F) → null_free_fields (strip_fields fs) ≡ true
    nulls_gone_fields end = refl
    nulls_gone_fields (field k v fs) =
        ground (arith, still_null v, nulls_gone v, nulls_gone_fields fs)

  mutual
    unfolding strip_nulls strip_items strip_fields null_free null_free_items null_free_fields

    unchanged : (v : Value F) → null_free v ≡ true → strip_nulls v ≡ v
    unchanged null h = refl
    unchanged (bool b) h = refl
    unchanged (int n) h = refl
    unchanged (flt x) h = refl
    unchanged (str s) h = refl
    unchanged (arr vs) h = ap arr (unchanged_items vs h)
    unchanged (obj fs) h = ap obj (unchanged_fields fs h)

    unchanged_items : (vs : Items F) → null_free_items vs ≡ true → strip_items vs ≡ vs
    unchanged_items nil h = refl
    unchanged_items (cons v vs) h = ground (arith, unchanged v, unchanged_items vs)

    unchanged_fields : (fs : Fields F) → null_free_fields fs ≡ true → strip_fields fs ≡ fs
    unchanged_fields end h = refl
    unchanged_fields (field k v fs) h = ground (arith, unchanged v, unchanged_fields fs)

  size-strip_items : (vs : Items F) → size (strip_items vs) ≡ size vs
  unfolding strip_items
  size-strip_items nil = refl
  size-strip_items (cons v vs) = ap suc (size-strip_items vs)

  -- After `strip_nulls` no dict at any depth has a key with the value `None`, a second pass changes
  -- nothing, and a list keeps its number of elements, those that are `None` included.
  pub strip_nulls-null_free :
      (v : Value F) (vs : Items F)
      → (null_free (strip_nulls v) ≡ true)
        × (strip_nulls (strip_nulls v) ≡ strip_nulls v)
        × (size (strip_items vs) ≡ size vs)
  strip_nulls-null_free v vs = (nulls_gone v, unchanged _ (nulls_gone v), size-strip_items vs)
