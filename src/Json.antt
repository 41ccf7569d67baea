-- ===== src/Json.antt =====
-- JSON values, and assertSafeMetadata of packages/database/src/domain/allocation-engine.ts, which
-- refuses a value with a secret-like key at any depth.
pub mod Secrets
use d_n_i_p.Prelude.{
  ℕ, suc, ℤ, ◌+◌, ◌≡◌, refl, ◌↔◌, Bool, true, false, ◌||◌, Option, none, some, List, [], ◌∷◌, ◌++◌,
  arith, any, ◌==◌, if◌then◌else◌, Bool-cases,
}
use d_n_i_p.Text.{Text, codes, text_eq, lower_unit, includes}

-- `named n` is a text that the program only compares, such as an id.
mutual
  pub data Json : Type 0 where
    null : Json
    boolean : Bool → Json
    number : ℤ → Json
    string : Text → Json
    named : ℕ → Json
    array : Items → Json
    object : Fields → Json

  pub data Items : Type 0 where
    nil : Items
    cons : Json → Items → Items

  pub data Fields : Type 0 where
    end : Fields
    field : Text → Json → Fields → Fields

-- One property of a spread, `{ ...fs, k: v }`: an old key keeps its place.
unfoldable pub put : Text → Json → Fields → Fields
put k v end = field k v end
put k v (field j w fs) =
    let rest = put k v fs in if text_eq j k then field k v fs else field j w rest

-- `{ ...fs, ...gs }`
unfoldable pub spread : Fields → Fields → Fields
unfolding put
spread fs end = fs
spread fs (field k v gs) = spread (put k v fs) gs

-- FORBIDDEN_SECRET_PATTERNS
abbrev pub forbidden_secret_patterns : List Text
forbidden_secret_patterns =
    codes "password"
    ∷ codes "passwd"
    ∷ codes "secret"
    ∷ codes "token"
    ∷ codes "apikey"
    ∷ codes "accesstoken"
    ∷ codes "refreshtoken"
    ∷ codes "credential"
    ∷ codes "authorization"
    ∷ codes "privatekey"
    ∷ codes "clientsecret"
    ∷ []

-- `key.toLowerCase().replace(/[-_]/g, "")`
unfoldable pub normalize_key : Text → Text
unfolding lower_unit
normalize_key [] = []
normalize_key (c ∷ s) =
    let rest = normalize_key s in if c == b'-' || c == b'_' then rest else lower_unit c ++ rest

unfoldable pub is_forbidden : Text → Bool
unfolding includes normalize_key
is_forbidden k = any (λ w. includes w (normalize_key k)) forbidden_secret_patterns

pub data Segment : Type 0 where
  at_index : ℕ → Segment
  at_key : Text → Segment

-- The path of the first forbidden key, which the error names; none if the value is safe.
unfoldable mutual
  pub assert_safe : Json → List Segment → Option (List Segment)
  assert_safe (array xs) path = assert_items xs 0 path
  assert_safe (object fs) path = assert_fields fs path
  assert_safe _ path = none

  pub assert_items : Items → ℕ → List Segment → Option (List Segment)
  assert_items nil i path = none
  assert_items (cons x xs) i path = elim (assert_safe x (path ++ at_index i ∷ [])) [
    | some p ↦ some p
    | none ↦ assert_items xs (suc i) path
  ]

  pub assert_fields : Fields → List Segment → Option (List Segment)
  assert_fields end path = none
  assert_fields (field k v fs) path =
      if is_forbidden k
      then some (path ++ at_key k ∷ [])
      else elim (assert_safe v (path ++ at_key k ∷ [])) [
        | some p ↦ some p
        | none ↦ assert_fields fs path
      ]
