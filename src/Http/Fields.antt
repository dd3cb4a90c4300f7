-- ===== src/Http/Fields.antt =====
-- The fields of a header of src/HttpHeaderBase.cpp, of which the first of a type counts.

use jhcommon.Prelude.{
  ℕ, ◌≡◌, ◌⊎◌, refl, ap, true, false, none, some, List, [], ◌∷◌, ◌++◌, All, Bool-cases, inl, inr,
  ◌==◌,
}
use jhcommon.Http.{Field, Header, get_field, remove_slot, remove_field}

abbrev pub OtherType : ℕ → Field → Type 0
OtherType type f = (f.type == type) ≡ false

-- The first field of the type in a list.
pub record FirstOf (type : ℕ) (fs : List Field) : Type 0 where
  pub before : List Field
  pub field : Field
  pub behind : List Field
  pub split : fs ≡ before ++ field ∷ behind
  pub others : All (OtherType type) before
  pub found : (field.type == type) ≡ true
  pub kept : List Field
  pub kept_is : kept ≡ before ++ behind

slots :
    (type : ℕ) (fs : List Field)
    → (All (OtherType type) fs × (remove_slot type fs ≡ none) × (get_field type fs ≡ none))
      ⊎ ((f : FirstOf type fs) × (remove_slot type fs ≡ some f.kept)
          × (get_field type fs ≡ some f.field.value))
unfolding remove_slot get_field
slots type [] = inl (tt, refl, refl)
slots type (f ∷ fs) = elim (Bool-cases (f.type == type)) [
  | inl e ↦ inr (
    record {
      before = [];
      field = f;
      behind = fs;
      split = refl;
      others = tt;
      found = e;
      kept = fs;
      kept_is = refl;
    },
    rw e refl,
    rw e refl,
  )
  | inr e ↦ elim (slots type fs) [
    | inl (all, r, g) ↦ inl ((e, all), rw (e, r) refl, rw (e, g) refl)
    | inr (first, r, g) ↦ inr (
      record {
        before = f ∷ first.before;
        field = first.field;
        behind = first.behind;
        split = ap (◌∷◌ f) first.split;
        others = (e, first.others);
        found = first.found;
        kept = f ∷ first.kept;
        kept_is = ap (◌∷◌ f) first.kept_is;
      },
      rw (e, r) refl,
      rw (e, g) refl,
    )
  ]
]

-- `getField` gives the value of the first field of the type, and `removeField` takes that field
-- out and keeps the others in their order; with no field of the type, `getField` gives NULL and
-- `removeField` changes nothing and reports that.
pub remove_field_lem :
    (type : ℕ) (h : Header)
    → (All (OtherType type) h.fields
        × (remove_field type h ≡ (false, h))
        × (get_field type h.fields ≡ none))
      ⊎ ((f : FirstOf type h.fields) × (remove_field type h
            ≡ (true, record h { fields = f.before ++ f.behind }))
          × (get_field type h.fields ≡ some f.field.value))
remove_field_lem type h = elim (slots type h.fields) [
  | inl (all, r, g) ↦ inl (all, rw (r, remove_field) refl, g)
  | inr (f, r, g) ↦ inr (f, rw (r, remove_field, f.kept_is) refl, g)
]
