-- ===== src/Indexer/Codecs.antt =====
-- `normalizeContractValue` of dike-services/src/contracts/codecs.ts, for the values that have a place in the
-- model: no buffers and no dates. `toString` of a bigint is a parameter.
use dike_monolith.Prelude.{◌≡◌, refl, ap, String}
use dike_monolith.Prelude.Int.{ℤ}
use dike_monolith.Store.Values.{JsValue, Items, Fields, nil, cons, end, field}

module _ (to_text : ℤ → String) where
  unfoldable mutual
    pub normalize_contract_value : JsValue → JsValue
    normalize_contract_value (JsValue.bigint n) = JsValue.string (to_text n)
    normalize_contract_value (JsValue.array vs) = JsValue.array (normalize_items vs)
    normalize_contract_value (JsValue.object fs) = JsValue.object (normalize_fields fs)
    normalize_contract_value v = v

    pub normalize_items : Items → Items
    normalize_items nil = nil
    normalize_items (cons v vs) = cons (normalize_contract_value v) (normalize_items vs)

    pub normalize_fields : Fields → Fields
    normalize_fields end = end
    normalize_fields (field k v fs) = field k (normalize_contract_value v) (normalize_fields fs)

  mutual
    unfolding normalize_contract_value

    again_value :
        (v : JsValue)
        → normalize_contract_value (normalize_contract_value v) ≡ normalize_contract_value v
    again_value JsValue.undefined = refl
    again_value JsValue.null = refl
    again_value (JsValue.boolean b) = refl
    again_value (JsValue.number n) = refl
    again_value (JsValue.bigint n) = refl
    again_value (JsValue.string s) = refl
    again_value (JsValue.array vs) = ap JsValue.array (again_items vs)
    again_value (JsValue.object fs) = ap JsValue.object (again_fields fs)

    again_items : (vs : Items) → normalize_items (normalize_items vs) ≡ normalize_items vs
    again_items nil = refl
    again_items (cons v vs) = rw (again_value v, again_items vs) refl

    again_fields : (fs : Fields) → normalize_fields (normalize_fields fs) ≡ normalize_fields fs
    again_fields end = refl
    again_fields (field k v fs) = rw (again_value v, again_fields fs) refl

  -- A value that is normalized stays as it is when it is normalized again.
  pub normalized_twice :
      (v : JsValue)
      → normalize_contract_value (normalize_contract_value v) ≡ normalize_contract_value v
  normalized_twice v = again_value v
