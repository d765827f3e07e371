-- ===== src/Http/Json.antt =====
-- The data of a request as another node reads it with package json, which the nodes of lmd/nodes.go and
-- lmd/http.go use: an int is written as a number, and numbers are read as float64. The texts that
-- package json reads of those that it wrote are a parameter, since it replaces what is not UTF-8.
use lmd.Prelude.{[], ◌∷◌, Bytes, ◌≡◌, refl, ap, ◌∙◌}
use lmd.Prelude.Dict.{Dict}
use lmd.Runtime.{Go}
use lmd.Runtime.Dynamic.{
  Value, Values, Fields, null, bool, float, int, str, list, dict, nil, cons, end, field,
}

-- what is read of texts that are all kept
abbrev pub unchanged : Bytes → Bytes
unchanged s = s

module _ (go : Go) where
  open go use {Float, of_int}

  module _ (json_text : Bytes → Bytes) where
    unfoldable mutual
      pub json_value : Value Float → Value Float
      json_value null = null
      json_value (bool b) = bool b
      json_value (float f) = float f
      json_value (int i) = float (of_int i)
      json_value (str s) = str (json_text s)
      json_value (list vs) = list (json_values vs)
      json_value (dict fs) = dict (json_fields fs)

      pub json_values : Values Float → Values Float
      json_values nil = nil
      json_values (cons v vs) = cons (json_value v) (json_values vs)

      pub json_fields : Fields Float → Fields Float
      json_fields end = end
      json_fields (field key v fs) = field (json_text key) (json_value v) (json_fields fs)

    unfoldable pub through_json : Dict (Value Float) → Dict (Value Float)
    unfolding json_value
    through_json [] = []
    through_json ((key, v) ∷ rest) = (json_text key, json_value v) ∷ through_json rest

    -- package json keeps the texts of a value
    unfoldable mutual
      pub AreTextsKept : Value Float → Type 0
      AreTextsKept (str s) = json_text s ≡ s
      AreTextsKept (list vs) = AreItemsKept vs
      AreTextsKept (dict fs) = AreFieldsKept fs
      AreTextsKept _ = Unit

      pub AreItemsKept : Values Float → Type 0
      AreItemsKept nil = Unit
      AreItemsKept (cons v vs) = AreTextsKept v × AreItemsKept vs

      pub AreFieldsKept : Fields Float → Type 0
      AreFieldsKept end = Unit
      AreFieldsKept (field key v fs) = (json_text key ≡ key) × AreTextsKept v × AreFieldsKept fs

    unfoldable pub IsKept : Dict (Value Float) → Type 0
    unfolding AreTextsKept
    IsKept [] = Unit
    IsKept ((key, v) ∷ rest) = (json_text key ≡ key) × AreTextsKept v × IsKept rest

  module _ (json_text : Bytes → Bytes) where
    mutual
      unfolding json_value AreTextsKept

      json_value-kept :
          (v : Value Float)
          → AreTextsKept json_text v
          → json_value json_text v ≡ json_value unchanged v
      json_value-kept null h = refl
      json_value-kept (bool b) h = refl
      json_value-kept (float f) h = refl
      json_value-kept (int i) h = refl
      json_value-kept (str s) h = ap str h
      json_value-kept (list vs) h = ap list (json_values-kept vs h)
      json_value-kept (dict fs) h = ap dict (json_fields-kept fs h)

      json_values-kept :
          (vs : Values Float)
          → AreItemsKept json_text vs
          → json_values json_text vs ≡ json_values unchanged vs
      json_values-kept nil h = refl
      json_values-kept (cons v vs) h =
          ap (λ w. cons w (json_values json_text vs)) (json_value-kept v h.0)
          ∙ ap (cons (json_value unchanged v)) (json_values-kept vs h.1)

      json_fields-kept :
          (fs : Fields Float)
          → AreFieldsKept json_text fs
          → json_fields json_text fs ≡ json_fields unchanged fs
      json_fields-kept end h = refl
      json_fields-kept (field key v fs) h =
          let kept : (json_text key ≡ key) × AreTextsKept json_text v × AreFieldsKept json_text fs =
            h in
          ap (λ k. field k (json_value json_text v) (json_fields json_text fs)) kept.0
          ∙ ap (λ w. field key w (json_fields json_text fs)) (json_value-kept v kept.1)
          ∙ ap (field key (json_value unchanged v)) (json_fields-kept fs kept.2)

    pub through_json-kept :
        (d : Dict (Value Float))
        → IsKept json_text d
        → through_json json_text d ≡ through_json unchanged d
    unfolding through_json IsKept
    through_json-kept [] h = refl
    through_json-kept ((key, v) ∷ rest) h =
        ap (λ k. (k, json_value json_text v) ∷ through_json json_text rest) h.0
        ∙ ap (λ w. (key, w) ∷ through_json json_text rest) (json_value-kept v h.1)
        ∙ ap (◌∷◌ (key, json_value unchanged v)) (through_json-kept rest h.2)

  mutual
    unfolding AreTextsKept

    unchanged-AreTextsKept : (v : Value Float) → AreTextsKept unchanged v
    unchanged-AreTextsKept null = tt
    unchanged-AreTextsKept (bool b) = tt
    unchanged-AreTextsKept (float f) = tt
    unchanged-AreTextsKept (int i) = tt
    unchanged-AreTextsKept (str s) = refl
    unchanged-AreTextsKept (list vs) = unchanged-AreItemsKept vs
    unchanged-AreTextsKept (dict fs) = unchanged-AreFieldsKept fs

    unchanged-AreItemsKept : (vs : Values Float) → AreItemsKept unchanged vs
    unchanged-AreItemsKept nil = tt
    unchanged-AreItemsKept (cons v vs) = (unchanged-AreTextsKept v, unchanged-AreItemsKept vs)

    unchanged-AreFieldsKept : (fs : Fields Float) → AreFieldsKept unchanged fs
    unchanged-AreFieldsKept end = tt
    unchanged-AreFieldsKept (field key v fs) =
        (refl, unchanged-AreTextsKept v, unchanged-AreFieldsKept fs)

  pub unchanged-IsKept : (d : Dict (Value Float)) → IsKept unchanged d
  unfolding IsKept
  unchanged-IsKept [] = tt
  unchanged-IsKept ((key, v) ∷ rest) = (refl, unchanged-AreTextsKept v, unchanged-IsKept rest)
