-- ===== src/Convert/Transformations.antt =====
-- api/seclang/v1beta1/convert/transformations.go: transformations of the API as those of crslang.
pub mod Agree
use kubewaf.Prelude.{
  ℕ, suc, String, ◌≡◌, Bool, true, false, ◌||◌, List, [], ◌∷◌, Option, none, some, if◌then◌else◌,
  str_eq,
}
use kubewaf.Prelude.Bytes.{Bytes, codes, bytes_eq, trim_space}
use kubewaf.Prelude.Result.{Result, ok, err, ◌>>=◌}
use kubewaf.Convert.Crslang.{
  Crslang, ConvertError, empty_transformation, unknown_transformation, unsupported_transformation,
  at_index,
}

-- The switch on the trimmed text.
unfoldable pub is_one_of : Bytes → String → String → Bool
unfolding bytes_eq
is_one_of s a b = bytes_eq s (codes a) || bytes_eq s (codes b)

module _ (crs : Crslang) where
  unfoldable pub supported : String → crs.Transformation → Result ConvertError crs.Transformation
  supported src got =
      if crs.is_unknown got || str_eq (crs.transformation_name got) "unknown"
      then err (unsupported_transformation src)
      else ok got

  unfoldable pub of_trimmed : String → Bytes → Result ConvertError crs.Transformation
  unfolding is_one_of bytes_eq supported
  of_trimmed src s =
      if bytes_eq s []
      then err empty_transformation
      else if is_one_of s "unknownTransformation" "unknown"
      then err unknown_transformation
      else if is_one_of s "normalizePath" "normalisePath"
      then ok crs.normalise_path
      else if is_one_of s "normalizePathWin" "normalisePathWin"
      then ok crs.normalise_path_win
      else supported src (crs.convert_transformation src)

  -- `ToCRSTransformation`
  unfoldable pub to_crs_transformation : String → Result ConvertError crs.Transformation
  unfolding of_trimmed trim_space
  to_crs_transformation src = of_trimmed src (trim_space (codes src))

  unfoldable pub at : ℕ → {A : Type 0} → Result ConvertError A → Result ConvertError A
  at i (ok a) = ok a
  at i (err e) = err (at_index i e)

  unfoldable pub map_from : ℕ → List String → Result ConvertError (List crs.Transformation)
  unfolding at to_crs_transformation
  map_from i [] = ok []
  map_from i (t ∷ ts) = do
    got ← at i (to_crs_transformation t)
    more ← map_from (suc i) ts
    ok (got ∷ more)

  -- `mapAPITransformations`
  unfoldable pub map_api_transformations :
      List String → Result ConvertError (List crs.Transformation)
  unfolding map_from
  map_api_transformations ts = map_from 0 ts

  -- `validateAPITransformation`
  unfoldable pub validate_api_transformation : String → Option ConvertError
  unfolding is_one_of bytes_eq trim_space
  validate_api_transformation t =
      let s = trim_space (codes t) in
      if bytes_eq s []
      then some empty_transformation
      else if is_one_of s "unknownTransformation" "unknown"
      then some unknown_transformation
      else none

  unfoldable pub validate_one :
      Option ConvertError → Result ConvertError crs.Transformation → Option ConvertError
  validate_one (some e) got = some e
  validate_one none (err e) = some e
  validate_one none (ok got) = none

  unfoldable pub validated : ℕ → Option ConvertError → Option ConvertError → Option ConvertError
  validated i (some e) rest = some (at_index i e)
  validated i none rest = rest

  unfoldable pub validate_from : ℕ → List String → Option ConvertError
  unfolding validated validate_one validate_api_transformation to_crs_transformation
  validate_from i [] = none
  validate_from i (t ∷ ts) =
      validated i (validate_one (validate_api_transformation t) (to_crs_transformation t))
        (validate_from (suc i) ts)

  -- `ValidateAPITransformations`
  unfoldable pub validate_api_transformations : List String → Option ConvertError
  unfolding validate_from
  validate_api_transformations ts = validate_from 0 ts
