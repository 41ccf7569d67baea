-- ===== src/License/Provision.antt =====
-- Provisioning keeps the licence table well formed: new licences have free seats only, and an
-- entitlement never gets a second licence.
use d_n_i_p.Prelude.{
  ℕ, suc, ◌≤◌, ◌<◌, ◌≡◌, refl, ◌≢◌, inl, inr, Bool, false, Option, List, [], ◌∷◌, arith, All,
  Unique, Bool-cases, or_default,
}
use d_n_i_p.Prelude.Rows.{Unique-append, All-append}
use d_n_i_p.Entitlement.Model.{Entitlement}
use d_n_i_p.License.Model.{License, Activation, Db, active_count}
use d_n_i_p.License.Worker.{
  KeyMaterial, new_license, provision_one, provision_all, provision, has_license, candidates,
}
use d_n_i_p.License.Capacity.{IsSeated}

-- An id that no licence has and no activation names, as the database draws it for a new licence.
pub record IsFreshId (i : ℕ) (db : Db) : Type 0 where
  pub no_license : All (λ l. l.id ≢ i) db.licenses
  pub no_activation : All (λ a. a.license_id ≢ i) db.activations

-- The ids of the rounds from `n` on are fresh, and different from one another.
pub record AreFresh (keys : ℕ → KeyMaterial) (n : ℕ) (db : Db) : Type 0 where
  pub fresh : (i : ℕ) → n ≤ i → IsFreshId (keys i).license_id db
  pub distinct : (i j : ℕ) → i < j → (keys i).license_id ≢ (keys j).license_id

no_seats_taken :
    (i : ℕ) (acts : List Activation) → All (λ a. a.license_id ≢ i) acts → active_count i acts ≡ 0
no_seats_taken i [] h = refl
no_seats_taken i (a ∷ acts) h = ground (arith, h.0, no_seats_taken i acts h.1)

-- No entitlement has two licences.
abbrev pub OneEach : Db → Type 0
OneEach db = Unique License.entitlement_id db.licenses

no_license_of :
    (eid : ℕ) (ls : List License)
    → has_license eid ls ≡ false
    → All (λ l. l.entitlement_id ≢ eid) ls
no_license_of eid [] h = tt
no_license_of eid (l ∷ ls) h = (ground arith, no_license_of eid ls (ground arith))

module _ (worker_id now : ℕ) (e : Entitlement) (k : KeyMaterial) (db : Db) where
  provision_one-IsSeated :
      IsSeated db → IsFreshId k.license_id db → IsSeated (provision_one worker_id now e k db)
  unfolding provision_one new_license
  provision_one-IsSeated v f = elim (Bool-cases (has_license e.id db.licenses)) [
    | inl had ↦ rw (had, provision_one) v
    | inr none_yet ↦
        rw (none_yet, provision_one)
          (record {
            license_ids =
                Unique-append License.id db.licenses (new_license e k now) v.license_ids
                  f.no_license;
            activation_ids = v.activation_ids;
            within =
                All-append _ db.licenses (new_license e k now) v.within
                  (rw (no_seats_taken k.license_id db.activations f.no_activation) (omega arith));
            one_per_domain = v.one_per_domain;
          })
  ]

  provision_one-OneEach : OneEach db → OneEach (provision_one worker_id now e k db)
  unfolding provision_one new_license
  provision_one-OneEach u = elim (Bool-cases (has_license e.id db.licenses)) [
    | inl had ↦ rw (had, provision_one) u
    | inr none_yet ↦
        rw (none_yet, provision_one)
          (Unique-append License.entitlement_id db.licenses (new_license e k now) u
            (no_license_of e.id db.licenses none_yet))
  ]

  provision_one-IsFreshId :
      (i : ℕ) → k.license_id ≢ i → IsFreshId i db → IsFreshId i (provision_one worker_id now e k db)
  unfolding provision_one new_license
  provision_one-IsFreshId i ne f = elim (Bool-cases (has_license e.id db.licenses)) [
    | inl had ↦ rw (had, provision_one) f
    | inr none_yet ↦
        rw (none_yet, provision_one)
          (record {
            no_license =
                All-append (λ l. l.id ≢ i) db.licenses (new_license e k now) f.no_license ne;
            no_activation = f.no_activation;
          })
  ]

module _ (worker_id now : ℕ) (keys : ℕ → KeyMaterial) where
  provision_all-IsSeated :
      (n : ℕ) (es : List Entitlement) (db : Db)
      → IsSeated db
      → AreFresh keys n db
      → IsSeated (provision_all worker_id now keys n es db).1
  unfolding provision_all
  provision_all-IsSeated n [] db v f = v
  provision_all-IsSeated n (e ∷ es) db v f =
      provision_all-IsSeated (suc n) es (provision_one worker_id now e (keys n) db)
        (provision_one-IsSeated worker_id now e (keys n) db v (f.fresh n (omega arith)))
        (record {
          fresh = λ i le.
              provision_one-IsFreshId worker_id now e (keys n) db (keys i).license_id
                (f.distinct n i (omega arith)) (f.fresh i (omega arith));
          distinct = f.distinct;
        })

  provision_all-OneEach :
      (n : ℕ) (es : List Entitlement) (db : Db)
      → OneEach db
      → OneEach (provision_all worker_id now keys n es db).1
  unfolding provision_all
  provision_all-OneEach n [] db u = u
  provision_all-OneEach n (e ∷ es) db u =
      provision_all-OneEach (suc n) es (provision_one worker_id now e (keys n) db)
        (provision_one-OneEach worker_id now e (keys n) db u)

pub provision-IsSeated :
    (locked : ℕ → Bool) (batch_size : Option ℕ) (worker_id : ℕ) (keys : ℕ → KeyMaterial) (now : ℕ)
    (db : Db)
    → IsSeated db
    → AreFresh keys 0 db
    → IsSeated (provision locked batch_size worker_id keys now db).1
unfolding provision
provision-IsSeated locked batch_size worker_id keys now db v f =
    provision_all-IsSeated worker_id now keys 0
      (candidates locked (or_default batch_size 100) now db) db v f

-- A run of the provisioner never gives an entitlement a second licence.
pub provision-OneEach :
    (locked : ℕ → Bool) (batch_size : Option ℕ) (worker_id : ℕ) (keys : ℕ → KeyMaterial) (now : ℕ)
    (db : Db)
    → OneEach db
    → OneEach (provision locked batch_size worker_id keys now db).1
unfolding provision
provision-OneEach locked batch_size worker_id keys now db u =
    provision_all-OneEach worker_id now keys 0
      (candidates locked (or_default batch_size 100) now db) db u
