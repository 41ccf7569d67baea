-- ===== src/Entitlement/Model.antt =====
-- The entitlements table (packages/database/prisma/schema.prisma) as the engines read it.
-- Ids and other texts that the program only compares are numbers; a time is in milliseconds.
use d_n_i_p.Prelude.{ℕ, ℤ, to_ℕ, Bool, true, false, Option, none, some, leb, List, find?, ◌==◌}

pub data EntitlementStatus : Type 0 where
  active revoked expired : EntitlementStatus

pub data FulfillmentType : Type 0 where
  digital_download internal_license external_managed : FulfillmentType
  membership_access manual_service hosting_provisioning : FulfillmentType

abbrev pub is_active : EntitlementStatus → Bool
is_active EntitlementStatus.active = true
is_active _ = false

abbrev pub is_internal_license : FulfillmentType → Bool
is_internal_license FulfillmentType.internal_license = true
is_internal_license _ = false

abbrev pub is_external_managed : FulfillmentType → Bool
is_external_managed FulfillmentType.external_managed = true
is_external_managed _ = false

pub record Entitlement : Type 0 where
  pub id : ℕ
  pub user_id : ℕ
  pub order_id : ℕ
  pub order_item_id : ℕ
  pub product_id : ℕ
  pub variant_id : ℕ
  pub fulfillment_type : FulfillmentType
  pub status : EntitlementStatus
  pub quantity : ℕ
  pub activated_at : ℕ
  pub expires_at : Option ℕ
  pub max_activations : Option ℤ
  pub updates_until : Option ℕ
  pub support_until : Option ℕ

-- `expires_at && expires_at <= now`
abbrev pub is_past : ℕ → Option ℕ → Bool
is_past now none = false
is_past now (some t) = leb t now

abbrev pub find_entitlement : ℕ → List Entitlement → Option Entitlement
find_entitlement i = find? (λ e. e.id == i)

-- The seats that an entitlement gives: none, if it has no positive `max_activations`.
abbrev pub seats : Option ℤ → ℕ
seats none = 0
seats (some m) = to_ℕ m
