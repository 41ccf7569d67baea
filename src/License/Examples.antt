-- ===== src/License/Examples.antt =====
-- The licence engine at concrete tables: one entitlement with two seats, its licence, and a domain
-- that is active. The theorems are applied here.
use d_n_i_p.Prelude.{ℕ, ◌≡◌, refl, ◌≤◌, true, none, some, [], ◌∷◌, arith, pos, length, count_where}
use d_n_i_p.Tx.{ok, err, transaction}
use d_n_i_p.Entitlement.Model.{Entitlement, EntitlementStatus, FulfillmentType}
use d_n_i_p.License.Model.{
  License, LicenseStatus, LicenseActivationStatus, Activation, Db, Env, LicenseError, active_at,
}
use d_n_i_p.License.Activation.{
  Params, ActivateResponse, activate, activate_tx, take_seat, activated, positive_seats,
  rights_hold, request_of, validate, invalid, valid, deactivate,
}
use d_n_i_p.License.Worker.{KeyMaterial, provision}
use d_n_i_p.License.Capacity.{IsSeated}
use d_n_i_p.License.Provision.{OneEach, provision-OneEach}
use d_n_i_p.License.Calls.{Call, step, Reach, Reach-IsSeated}
use d_n_i_p.License.RoundTrip.{validate-activate, activate_twice, validate-deactivate}
use d_n_i_p.License.Revocation.{Reach-refuses_revoked}
use d_n_i_p.License.Sweeps.{unlocked}

abbrev env : Env
env = record {
  normalize_domain = λ t. some (length t);
  normalize_license_key = λ t. some t;
  hash_license_key = λ t. length t;
  decrypt_license_key = λ c i a. some c;
  mask_license_key = λ t. t;
}

abbrev entitlement : Entitlement
entitlement = record {
  id = 1;
  user_id = 7;
  order_id = 2;
  order_item_id = 3;
  product_id = 4;
  variant_id = 5;
  fulfillment_type = FulfillmentType.internal_license;
  status = EntitlementStatus.active;
  quantity = 1;
  activated_at = 0;
  expires_at = some 100;
  max_activations = some (pos 2);
  updates_until = none;
  support_until = none;
}

abbrev license : License
license = record {
  id = 11;
  entitlement_id = 1;
  user_id = 7;
  product_id = 4;
  variant_id = 5;
  status = LicenseStatus.active;
  key_hash = 2;
  key_ciphertext = [];
  key_iv = [];
  key_auth_tag = [];
  key_last4 = [];
  created_at = 0;
  updated_at = 0;
  revoked_at = none;
}

abbrev activation : Activation
activation = record {
  id = 21;
  license_id = 11;
  user_id = 7;
  normalized_domain = 1;
  status = LicenseActivationStatus.active;
  activated_at = 5;
  deactivated_at = none;
  last_validated_at = none;
}

abbrev tables : Db
tables = record {
  entitlements = entitlement ∷ [];
  licenses = license ∷ [];
  activations = activation ∷ [];
  audits = [];
}

-- A second domain, of three characters.
abbrev request : Params
request = record { license_key = 9 ∷ 9 ∷ []; domain = 9 ∷ 9 ∷ 9 ∷ [] }

one_active : (lid d : ℕ) → count_where (active_at lid d) tables.activations ≤ 1
one_active lid d = ground arith

tables-IsSeated : IsSeated tables
tables-IsSeated = record {
  license_ids = (tt, tt);
  activation_ids = (tt, tt);
  within = (omega arith, tt);
  one_per_domain = one_active;
}

abbrev history : Call
history = Call.activates request 22 10

Reach-IsSeated_example : IsSeated (step env history tables)
Reach-IsSeated_example =
    Reach-IsSeated env tables (step env history tables) tables-IsSeated
      (Reach.next history Reach.here (omega arith, tt) refl)

abbrev answer : ActivateResponse
answer = record {
  valid = true;
  status = LicenseActivationStatus.active;
  domain = 3;
  activated_at = 10;
  expires_at = some 100;
  updates_until = none;
  support_until = none;
}

answered : (activate env request 22 10 tables).0 ≡ ok answer
unfolding activate activate_tx take_seat transaction request_of rights_hold positive_seats activated
answered = refl

validate-activate_example :
    (validate env request true 10 (activate env request 22 10 tables).1).0
    ≡ valid 3 (some 100) none none
validate-activate_example =
    validate-activate env request 22 10 tables answer tables-IsSeated answered true

activate_twice_example :
    activate env request 23 60 (activate env request 22 10 tables).1
    ≡ (ok answer, (activate env request 22 10 tables).1)
activate_twice_example =
    activate_twice env request 22 10 tables answer tables-IsSeated answered 23 60 refl

abbrev known : Params
known = record { license_key = 9 ∷ 9 ∷ []; domain = 9 ∷ [] }

validate-deactivate_example :
    (validate env known true 90 (deactivate env known 20 tables).1).0 ≡ invalid
validate-deactivate_example = validate-deactivate env known 20 tables true 90

abbrev revoked_tables : Db
revoked_tables = record tables {
  licenses = record license { status = LicenseStatus.revoked; revoked_at = some 6 } ∷ [];
}

asked : request_of env known ≡ some (1, 2)
unfolding request_of
asked = refl

Reach-refuses_revoked_example :
    (validate env known true 12 (step env history revoked_tables)
      ≡ (invalid, step env history revoked_tables))
    × (activate env known 25 12 (step env history revoked_tables)
        ≡ (err LicenseError.invalid_key_or_domain, step env history revoked_tables))
Reach-refuses_revoked_example =
    Reach-refuses_revoked env known 1 2 revoked_tables (step env history revoked_tables) asked
      (record license { status = LicenseStatus.revoked; revoked_at = some 6 }, refl, refl)
      (Reach.next history Reach.here (omega arith, tt) refl) true 25 12

abbrev unlicensed : Db
unlicensed = record tables { licenses = []; activations = [] }

abbrev keys : ℕ → KeyMaterial
keys n = record {
  license_id = n;
  key_hash = n;
  key_ciphertext = [];
  key_iv = [];
  key_auth_tag = [];
  key_last4 = [];
}

provision-OneEach_example : OneEach (provision unlocked none 8 keys 50 unlicensed).1
provision-OneEach_example = provision-OneEach unlocked none 8 keys 50 unlicensed tt
