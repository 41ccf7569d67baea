-- ===== src/Checkout/Model.antt =====
-- The tables that the checkout of apps/api/src/modules/orders/orders.service.ts reads and writes
-- (packages/database/prisma/schema.prisma). The names, the sku and the product type, which an order
-- item copies only, are left out.
use d_n_i_p.Prelude.{ℕ, ℤ, Bool, true, false, ◌&&◌, Option, List, ◌==◌}
use d_n_i_p.Entitlement.Model.{FulfillmentType}
use d_n_i_p.Entitlement.Policy.{OrderItem, OrderStatus}
use d_n_i_p.Payment.Model.{Payment}

-- ProductStatus and VariantStatus
pub data CatalogStatus : Type 0 where
  draft active archived : CatalogStatus

abbrev pub is_live : CatalogStatus → Bool
is_live CatalogStatus.active = true
is_live _ = false

pub data CartStatus : Type 0 where
  active converted abandoned : CartStatus

abbrev pub is_open : CartStatus → Bool
is_open CartStatus.active = true
is_open _ = false

abbrev pub is_converted : CartStatus → Bool
is_converted CartStatus.converted = true
is_converted _ = false

pub record Price : Type 0 where
  pub id : ℕ
  pub variant_id : ℕ
  pub currency : ℕ
  pub amount : ℤ
  pub is_active : Bool

pub record LicensePlan : Type 0 where
  pub id : ℕ
  pub is_lifetime : Bool
  pub duration_days : Option ℤ
  pub duration_months : Option ℤ
  pub max_activations : ℤ
  pub updates_days : Option ℤ
  pub support_days : Option ℤ

pub record Product : Type 0 where
  pub id : ℕ
  pub status : CatalogStatus
  pub fulfillment_type : FulfillmentType

-- A variant with its product, its plan, and its active prices.
pub record Variant : Type 0 where
  pub id : ℕ
  pub status : CatalogStatus
  pub product : Option Product
  pub license_plan : Option LicensePlan
  pub prices : List Price

pub record CartItem : Type 0 where
  pub price_id : Option ℕ
  pub quantity : ℤ
  pub price : Option Price
  pub variant : Option Variant

pub record Cart : Type 0 where
  pub id : ℕ
  pub user_id : ℕ
  pub status : CartStatus
  pub currency : ℕ
  pub items : List CartItem

-- An order item: what the entitlement engine reads of it, and its amounts.
pub record Line : Type 0 where
  pub item : OrderItem
  pub unit_amount : ℕ
  pub line_total_amount : ℕ
  pub currency : ℕ

pub record Order : Type 0 where
  pub id : ℕ
  pub order_number : ℕ
  pub user_id : ℕ
  pub status : OrderStatus
  pub currency : ℕ
  pub subtotal_amount : ℕ
  pub discount_amount : ℕ
  pub total_amount : ℕ
  pub cart_id : ℕ
  pub lines : List Line

pub record CheckoutResponse : Type 0 where
  pub order : Order
  pub payment : Payment

pub data KeyStatus : Type 0 where
  in_progress committed failed : KeyStatus

abbrev pub is_committed : KeyStatus → Bool
is_committed KeyStatus.committed = true
is_committed _ = false

abbrev pub is_in_progress : KeyStatus → Bool
is_in_progress KeyStatus.in_progress = true
is_in_progress _ = false

-- A row of idempotency_keys with the scope "checkout".
pub record Key : Type 0 where
  pub user_id : ℕ
  pub key : ℕ
  pub request_fingerprint : ℕ
  pub response : Option CheckoutResponse
  pub status : KeyStatus
  pub started_at : ℕ
  pub expires_at : ℕ

pub record OrderCreated : Type 0 where
  pub order_id : ℕ
  pub actor_id : ℕ
  pub total_amount : ℕ

pub record Store : Type 0 where
  pub carts : List Cart
  pub orders : List Order
  pub payments : List Payment
  pub keys : List Key
  pub audit_rows : List OrderCreated

pub data CheckoutError : Type 0 where
  already_checked_out cart_is_empty currency_mismatch cart_already_converted : CheckoutError
  variant_not_active product_not_active price_not_found price_not_active : CheckoutError
  price_currency_mismatch price_of_other_variant : CheckoutError
  unit_out_of_bounds quantity_out_of_bounds line_out_of_bounds subtotal_out_of_bounds :
      CheckoutError
  key_expired key_reused key_missing concurrent_failed still_in_progress : CheckoutError

abbrev pub key_of : ℕ → ℕ → Key → Bool
key_of user_id key k = k.user_id == user_id && k.key == key

abbrev pub active_cart_of : ℕ → Cart → Bool
active_cart_of user_id c = c.user_id == user_id && is_open c.status
