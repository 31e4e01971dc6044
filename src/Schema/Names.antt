-- ===== src/Schema/Names.antt =====
-- The field names and identifiers are inverse tables.
use verifoxx.Base.{ℕ, ◌<◌, ◌≡◌, ap, sym, ◌∙◌, ◌↔◌, some, arith}
use verifoxx.Base.Text.{Text, bytes, ◌=ₜ◌, =ₜ_iff}
use verifoxx.Schema.{lookup_field, field_name}
use verifoxx.Schema.Field

module _ (name : Text) where
  field-of-name :
      (id : ℕ)
      → lookup_field name ≡ some id
      → (0 < id) × (id < Field.count) × (field_name id ≡ name)
  unfolding lookup_field field_name
  field-of-name id h = ground (
    arith,
    =ₜ_iff name (bytes "requester"),
    =ₜ_iff name (bytes "trust_level"),
    =ₜ_iff name (bytes "action"),
    =ₜ_iff name (bytes "output_kind"),
    =ₜ_iff name (bytes "dataset"),
    =ₜ_iff name (bytes "environment"),
    =ₜ_iff name (bytes "usage_limit"),
  )

field_name-lookup : (id : ℕ) → 0 < id → id < Field.count → lookup_field (field_name id) ≡ some id
unfolding lookup_field field_name ◌=ₜ◌
field_name-lookup id h k = ground arith

-- LookupField finds the identifier of a name exactly when it is the identifier of a field and
-- FieldName gives that name for it.
pub lookup_field-field_name :
    (name : Text) (id : ℕ)
    → (lookup_field name ≡ some id) ↔ ((0 < id) × (id < Field.count) × (field_name id ≡ name))
lookup_field-field_name name id =
    (field-of-name name id, λ h. ap lookup_field (sym (h.2)) ∙ field_name-lookup id h.0 h.1)
