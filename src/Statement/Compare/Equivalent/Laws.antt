-- ===== src/Statement/Compare/Equivalent/Laws.antt =====
-- A signed statement and what the server stores of it.
use xapi_lrs.Prelude.{
  String, ◌≡◌, refl, subst, Bool, true, false, none, some, ◌==◌, eq_iff, eq_refl, Bool-cases, inl,
  inr,
}
use xapi_lrs.Json.{Json, Items, Fields, null, bool, num, str, arr, obj, nil, cons, end, field, get}
use xapi_lrs.Statement.Compare.Equivalent.{
  same_bool, no_extras, deep_equal, equal_items, equal_fields,
}

-- no key stands twice in an object, at any depth
unfoldable mutual
  pub DeepDistinct : Json → Type 0
  DeepDistinct (arr vs) = DistinctItems vs
  DeepDistinct (obj fs) = DistinctFields fs
  DeepDistinct _ = Unit

  pub DistinctItems : Items → Type 0
  DistinctItems nil = Unit
  DistinctItems (cons v vs) = DeepDistinct v × DistinctItems vs

  pub DistinctFields : Fields → Type 0
  DistinctFields end = Unit
  DistinctFields (field k v fs) = (get k fs ≡ none) × (DeepDistinct v × DistinctFields fs)

-- what an object has, another has
abbrev Included : Fields → Fields → Type 0
Included a b = (k : String) (v : Json) → get k a ≡ some v → get k b ≡ some v

Included-rest :
    (k : String) (v : Json) (rest b : Fields)
    → get k rest ≡ none
    → Included (field k v rest) b
    → Included rest b
unfolding get
Included-rest k v rest b fresh h j w e = elim (Bool-cases (k == j)) [
  | inl same ↦ absurd (cc (subst (λ i. get i rest ≡ none) ((eq_iff k j).0 same) fresh, e))
  | inr apart ↦ h j w (rw apart e)
]

Included-head :
    (k : String) (v : Json) (rest b : Fields) → Included (field k v rest) b → get k b ≡ some v
unfolding get
Included-head k v rest b h = h k v (rw (eq_refl k) refl)

no_extras-Included : (a b : Fields) → DistinctFields b → Included b a → no_extras a b ≡ true
unfolding no_extras DeepDistinct
no_extras-Included a end d h = refl
no_extras-Included a (field k v rest) (fresh, (dv, d)) h =
    rw (Included-head k v rest a h, no_extras-Included a rest d (Included-rest k v rest a fresh h))
      refl

same_bool_refl : (b : Bool) → same_bool b b ≡ true
same_bool_refl true = refl
same_bool_refl false = refl

mutual
  unfolding deep_equal DeepDistinct

  deep_equal_refl : (v : Json) → DeepDistinct v → deep_equal v v ≡ true
  deep_equal_refl null d = refl
  deep_equal_refl (bool b) d = same_bool_refl b
  deep_equal_refl (num t) d = eq_refl t
  deep_equal_refl (str s) d = eq_refl s
  deep_equal_refl (arr vs) d = equal_items_refl vs d
  deep_equal_refl (obj a) d =
      rw (equal_fields_refl a a d (λ k v e. e), no_extras-Included a a d (λ k v e. e)) refl

  equal_items_refl : (vs : Items) → DistinctItems vs → equal_items vs vs ≡ true
  equal_items_refl nil d = refl
  equal_items_refl (cons v vs) (dv, d) = rw (deep_equal_refl v dv, equal_items_refl vs d) refl

  equal_fields_refl : (a b : Fields) → DistinctFields a → Included a b → equal_fields a b ≡ true
  equal_fields_refl end b d h = refl
  equal_fields_refl (field k v rest) b (fresh, (dv, d)) h =
      rw
        (
          Included-head k v rest b h,
          deep_equal_refl v dv,
          equal_fields_refl rest b d (Included-rest k v rest b fresh h),
        )
        refl
