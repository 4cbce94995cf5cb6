-- ===== src/Convert/Transformations/Agree.antt =====
-- api/seclang/v1beta1/convert/transformations.go: the validation of transformations and their
-- conversion, and what the conversion never emits.
use kubewaf.Prelude.{
  ℕ, suc, String, ◌≡◌, refl, ◌∙◌, ap, Bool, true, false, ◌||◌, List, [], ◌∷◌, Option, none, some,
  if◌then◌else◌, if_ind, if_rec, str_eq, All,
}
use kubewaf.Prelude.Bytes.{codes, bytes_eq, trim_space}
use kubewaf.Prelude.Result.{Result, ok, err, ◌>>=◌, Returns, bind-Returns}
use kubewaf.Convert.Crslang.{Crslang, ConvertError, empty_transformation, unknown_transformation}
use kubewaf.Convert.Transformations.{
  is_one_of, supported, of_trimmed, to_crs_transformation, at, map_from, map_api_transformations,
  validate_api_transformation, validate_one, validated, validate_from, validate_api_transformations,
}

abbrev pub error_of : {A : Type 0} → Result ConvertError A → Option ConvertError
error_of (ok a) = none
error_of (err e) = some e

module _ (crs : Crslang) where
  tests_agree :
      (empty unknown : Bool) (rest : Result ConvertError crs.Transformation)
      → validate_one crs
          (if empty
            then some empty_transformation
            else if unknown
            then some unknown_transformation
            else none)
          (if empty
            then err empty_transformation
            else if unknown
            then err unknown_transformation
            else rest)
        ≡ error_of (
            if empty
            then err empty_transformation
            else if unknown
            then err unknown_transformation
            else rest)
  unfolding validate_one
  tests_agree true unknown rest = refl
  tests_agree false true rest = refl
  tests_agree false false (ok got) = refl
  tests_agree false false (err e) = refl

  one_agrees :
      (t : String)
      → validate_one crs (validate_api_transformation crs t) (to_crs_transformation crs t)
        ≡ error_of (to_crs_transformation crs t)
  unfolding validate_api_transformation to_crs_transformation of_trimmed
  one_agrees t =
      let s = trim_space (codes t) in
      tests_agree (bytes_eq s []) (is_one_of s "unknownTransformation" "unknown") _

  from_agrees : (i : ℕ) (ts : List String) → validate_from crs i ts ≡ error_of (map_from crs i ts)
  unfolding validate_from map_from
  from_agrees i [] = refl
  from_agrees i (t ∷ ts) =
      ap (λ o. validated crs i o (validate_from crs (suc i) ts)) (one_agrees t)
      ∙ ap (validated crs i (error_of (to_crs_transformation crs t))) (from_agrees (suc i) ts)
      ∙ joined (to_crs_transformation crs t) (map_from crs (suc i) ts)
    where
      joined :
          (got : Result ConvertError crs.Transformation)
          (more : Result ConvertError (List crs.Transformation))
          → validated crs i (error_of got) (error_of more)
            ≡ error_of (do g ← at crs i got; m ← more; ok (g ∷ m))
      joined (err e) more = refl
      joined (ok g) (err e) = refl
      joined (ok g) (ok m) = refl

  -- The validation of a list of transformations fails exactly where their conversion does, at the same
  -- index and for the same reason.
  pub validate_agrees :
      (ts : List String)
      → validate_api_transformations crs ts ≡ error_of (map_api_transformations crs ts)
  unfolding validate_api_transformations map_api_transformations
  validate_agrees ts = from_agrees 0 ts

  -- The name of a transformation is not the one that crslang gives to an unknown one.
  abbrev pub IsKnown : crs.Transformation → Type 0
  IsKnown t = str_eq (crs.transformation_name t) "unknown" ≡ false

  module _ (path : IsKnown crs.normalise_path) (path_win : IsKnown crs.normalise_path_win) where
    supported-IsKnown :
        (src : String) (got : crs.Transformation) → Returns IsKnown (supported crs src got)
    unfolding supported
    supported-IsKnown src got =
        if_rec (Returns IsKnown)
          (crs.is_unknown got || str_eq (crs.transformation_name got) "unknown") (λ _. tt)
          (known (crs.is_unknown got))
      where
        known :
            (b : Bool) → (b || str_eq (crs.transformation_name got) "unknown") ≡ false → IsKnown got
        known true h = cc
        known false h = h

    one-IsKnown : (t : String) → Returns IsKnown (to_crs_transformation crs t)
    unfolding to_crs_transformation of_trimmed
    one-IsKnown t =
        let s = trim_space (codes t) in
        if_ind (Returns IsKnown) (bytes_eq s []) tt (
          if_ind (Returns IsKnown) (is_one_of s "unknownTransformation" "unknown") tt (
            if_ind (Returns IsKnown) (is_one_of s "normalizePath" "normalisePath") path (
              if_ind (Returns IsKnown) (is_one_of s "normalizePathWin" "normalisePathWin") path_win
                (supported-IsKnown t (crs.convert_transformation t)))))

    map_from-AreKnown : (i : ℕ) (ts : List String) → Returns (All IsKnown) (map_from crs i ts)
    unfolding map_from at
    map_from-AreKnown i [] = tt
    map_from-AreKnown i (t ∷ ts) =
        bind-Returns IsKnown (All IsKnown) (at crs i (to_crs_transformation crs t)) _
          (at_index (to_crs_transformation crs t) (one-IsKnown t))
          λ got known.
            bind-Returns (All IsKnown) (All IsKnown) (map_from crs (suc i) ts) _
              (map_from-AreKnown (suc i) ts) λ more all_known. (known, all_known)
      where
        at_index :
            (r : Result ConvertError crs.Transformation)
            → Returns IsKnown r
            → Returns IsKnown (at crs i r)
        at_index (ok got) h = h
        at_index (err e) h = tt

    -- Where crslang names its own path normalisations, no transformation that is emitted has the name of
    -- an unknown one.
    pub map_api_transformations-AreKnown :
        (ts : List String) → Returns (All IsKnown) (map_api_transformations crs ts)
    unfolding map_api_transformations
    map_api_transformations-AreKnown ts = map_from-AreKnown 0 ts
