-- ===== src/License/Sweeps.antt =====
-- The two sweeps of the worker finish their work: a run whose batch is large enough, with no row
-- held by another transaction, leaves nothing to reconcile and nothing to provision.
use d_n_i_p.Prelude.{
  ℕ, suc, ◌≤◌, ◌≡◌, refl, ◌∙◌, inl, inr, Bool, true, false, ◌&&◌, Option, List, [], ◌∷◌, ◌++◌,
  arith, count_where, filter_where, update_where, take, mem_id, or_default, All, Bool-cases, ◌==◌,
  ==_refl,
}
use d_n_i_p.Prelude.Batches.{take_all, length-filter, mem_id-filter, count-zero_after}
use d_n_i_p.Prelude.Rows.{All-of_Member, All-map_pred}
use d_n_i_p.Entitlement.Model.{Entitlement}
use d_n_i_p.License.Model.{License, Activation, Db, active_count, on_license, activation_is_active}
use d_n_i_p.License.Activation.{deactivated_row}
use d_n_i_p.License.Admin.{revoked_row}
use d_n_i_p.License.Worker.{
  KeyMaterial, is_candidate, candidates, new_license, provision_one, provision_all, provision,
  has_license, is_orphan, orphans, ids_of, revoke_all, reconcile,
}

-- No other transaction holds a row.
abbrev pub unlocked : ℕ → Bool
unlocked i = false

-- After reconcileInternalLicenses no ACTIVE licence has a terminated entitlement, if the batch
-- holds all that had one and no row was locked.
pub reconcile_completes :
    (batch_size : Option ℕ) (worker_id now : ℕ) (db : Db)
    → count_where (is_orphan unlocked now db.entitlements) db.licenses ≤ or_default batch_size 100
    → let db' = (reconcile unlocked batch_size worker_id now db).1 in
      count_where (is_orphan unlocked now db'.entitlements) db'.licenses ≡ 0
unfolding reconcile revoke_all orphans
reconcile_completes batch_size worker_id now db fits =
    let p = is_orphan unlocked now db.entitlements in
    let whole : take (or_default batch_size 100) (filter_where p db.licenses)
        ≡ filter_where p db.licenses =
      take_all (or_default batch_size 100) (filter_where p db.licenses)
        (omega (arith, length-filter p db.licenses)) in
    rw whole (
      count-zero_after p (λ l. mem_id l.id (ids_of (filter_where p db.licenses))) (revoked_row now)
        db.licenses
        (All-of_Member _ db.licenses (λ l m out. elim (Bool-cases (p l)) [
          | inr e ↦ e
          | inl e ↦ absurd (ground (arith, mem_id-filter License.id p db.licenses l m e))
        ]))
        (λ l. unfold is_orphan revoked_row in refl))

mem_id-All : (P : ℕ → Type 0) (ids : List ℕ) → ((i : ℕ) → mem_id i ids ≡ true → P i) → All P ids
mem_id-All P [] h = tt
mem_id-All P (i ∷ ids) h = (h i (rw (==_refl i) refl), mem_id-All P ids (λ j m. h j (ground arith)))

count-update_zero :
    {A : Type 0} (q p : A → Bool) (f : A → A) (xs : List A)
    → ((x : A) → q (f x) ≡ false)
    → ((x : A) → p x ≡ false → q x ≡ false)
    → count_where q (update_where p f xs) ≡ 0
count-update_zero q p f xs k h = count-zero_after q p f xs (All-of_Member _ xs (λ x _ e. h x e)) k

-- The licences that reconcileInternalLicenses answers with have no active domain afterwards.
pub reconcile_frees_seats :
    (locked : ℕ → Bool) (batch_size : Option ℕ) (worker_id now : ℕ) (db : Db)
    → let (ids, db') = reconcile locked batch_size worker_id now db in
      All (λ i. active_count i db'.activations ≡ 0) ids
unfolding reconcile revoke_all deactivated_row
reconcile_frees_seats locked batch_size worker_id now db =
    let ids = ids_of (orphans locked (or_default batch_size 100) now db) in
    mem_id-All _ ids (λ i m.
      count-update_zero (on_license i)
        (λ a. mem_id a.license_id ids && activation_is_active a.status) (deactivated_row now)
        db.activations (λ a. ground arith) (λ a e. freed ids i a m e))
  where
    freed :
        (ids : List ℕ) (i : ℕ) (a : Activation)
        → mem_id i ids ≡ true
        → (mem_id a.license_id ids && activation_is_active a.status) ≡ false
        → on_license i a ≡ false
    freed ids i a m e = elim (Bool-cases (a.license_id == i)) [
      | inl same ↦
          let eq : a.license_id ≡ i = ground arith in
          let held : mem_id a.license_id ids ≡ true = rw eq m in ground arith
      | inr other ↦ ground arith
    ]

has_license-append :
    (eid : ℕ) (ls : List License) (l : License)
    → has_license eid ls ≡ true
    → has_license eid (ls ++ l ∷ []) ≡ true
has_license-append eid [] l h = cc
has_license-append eid (x ∷ ls) l h = ground (arith, has_license-append eid ls l)

has_license-last :
    (eid : ℕ) (ls : List License) (l : License)
    → l.entitlement_id ≡ eid
    → has_license eid (ls ++ l ∷ []) ≡ true
has_license-last eid [] l h = ground arith
has_license-last eid (x ∷ ls) l h = ground (arith, has_license-last eid ls l)

module _ (worker_id now : ℕ) (keys : ℕ → KeyMaterial) where
  keeps_license :
      (n : ℕ) (e : Entitlement) (db : Db) (eid : ℕ)
      → has_license eid db.licenses ≡ true
      → has_license eid (provision_one worker_id now e (keys n) db).licenses ≡ true
  unfolding provision_one
  keeps_license n e db eid h = elim (Bool-cases (has_license e.id db.licenses)) [
    | inl had ↦ rw (had, provision_one) h
    | inr none_yet ↦ rw (none_yet, provision_one) (has_license-append eid db.licenses _ h)
  ]

  gets_license :
      (n : ℕ) (e : Entitlement) (db : Db)
      → has_license e.id (provision_one worker_id now e (keys n) db).licenses ≡ true
  unfolding provision_one new_license
  gets_license n e db = elim (Bool-cases (has_license e.id db.licenses)) [
    | inl had ↦ rw (had, provision_one) had
    | inr none_yet ↦
        rw (none_yet, provision_one)
          (has_license-last e.id db.licenses (new_license e (keys n) now) refl)
  ]

  keeps_license_all :
      (n : ℕ) (es : List Entitlement) (db : Db) (eid : ℕ)
      → has_license eid db.licenses ≡ true
      → has_license eid (provision_all worker_id now keys n es db).1.licenses ≡ true
  unfolding provision_all
  keeps_license_all n [] db eid h = h
  keeps_license_all n (e ∷ es) db eid h =
      keeps_license_all (suc n) es (provision_one worker_id now e (keys n) db) eid
        (keeps_license n e db eid h)

  provision_all-gives :
      (n : ℕ) (es : List Entitlement) (db : Db)
      → All (λ e. has_license e.id (provision_all worker_id now keys n es db).1.licenses ≡ true) es
  unfolding provision_all
  provision_all-gives n [] db = tt
  provision_all-gives n (e ∷ es) db = (
    keeps_license_all (suc n) es (provision_one worker_id now e (keys n) db) e.id
        (gets_license n e db),
    provision_all-gives (suc n) es (provision_one worker_id now e (keys n) db),
  )

  entitlements-provision_all :
      (n : ℕ) (es : List Entitlement) (db : Db)
      → (provision_all worker_id now keys n es db).1.entitlements ≡ db.entitlements
  unfolding provision_all provision_one
  entitlements-provision_all n [] db = refl
  entitlements-provision_all n (e ∷ es) db =
      entitlements-provision_all (suc n) es (provision_one worker_id now e (keys n) db)
      ∙ ground arith

count-none_left :
    (p : Entitlement → Bool) (q : Entitlement → Bool) (xs : List Entitlement)
    → All (λ e. p e ≡ false) (filter_where q xs)
    → ((e : Entitlement) → q e ≡ false → p e ≡ false)
    → count_where p xs ≡ 0
count-none_left p q [] h k = refl
count-none_left p q (x ∷ xs) h k = elim (Bool-cases (q x)) [
  | inl e ↦
      let split : All (λ e. p e ≡ false) (x ∷ filter_where q xs) = rw e at h in
      ground (arith, split.0, count-none_left p q xs split.1 k)
  | inr e ↦ ground (arith, k x e, count-none_left p q xs (rw e at h) k)
]

licensed_is_out :
    (now : ℕ) (ls : List License) (e : Entitlement)
    → has_license e.id ls ≡ true
    → is_candidate unlocked now ls e ≡ false
unfolding is_candidate
licensed_is_out now ls e h = ground arith

stays_out :
    (now : ℕ) (ls ls' : List License) (e : Entitlement)
    → (has_license e.id ls ≡ true → has_license e.id ls' ≡ true)
    → is_candidate unlocked now ls e ≡ false
    → is_candidate unlocked now ls' e ≡ false
unfolding is_candidate
stays_out now ls ls' e keep out = elim (Bool-cases (has_license e.id ls)) [
  | inl had ↦ licensed_is_out now ls' e (keep had)
  | inr none_yet ↦ ground arith
]

-- After provisionInternalLicenses every ACTIVE, unexpired entitlement to an internal licence has
-- one, if the batch holds all that had none and no row was locked.
pub provision_completes :
    (batch_size : Option ℕ) (worker_id : ℕ) (keys : ℕ → KeyMaterial) (now : ℕ) (db : Db)
    → count_where (is_candidate unlocked now db.licenses) db.entitlements
      ≤ or_default batch_size 100
    → let db' = (provision unlocked batch_size worker_id keys now db).1 in
      count_where (is_candidate unlocked now db'.licenses) db'.entitlements ≡ 0
unfolding provision candidates
provision_completes batch_size worker_id keys now db fits =
    let q = is_candidate unlocked now db.licenses in
    let es = filter_where q db.entitlements in
    let whole : take (or_default batch_size 100) es ≡ es =
      take_all (or_default batch_size 100) es (omega (arith, length-filter q db.entitlements)) in
    let db' = (provision_all worker_id now keys 0 es db).1 in
    let done = provision_all-gives worker_id now keys 0 es db in
    rw (whole, entitlements-provision_all worker_id now keys 0 es db)
      (count-none_left (is_candidate unlocked now db'.licenses) q db.entitlements
        (All-map_pred (λ e. has_license e.id db'.licenses ≡ true) _ es
          (λ e h. licensed_is_out now db'.licenses e h) done)
        (λ e out.
          stays_out now db.licenses db'.licenses e
            (keeps_license_all worker_id now keys 0 es db e.id) out))
