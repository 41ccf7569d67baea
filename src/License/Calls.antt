-- ===== src/License/Calls.antt =====
-- Histories of calls of the licence engine.
use Prim.Native.String.{String}
use d_n_i_p.Prelude.{ℕ, ◌≡◌, ◌≢◌, Bool, Option, All}
use d_n_i_p.License.Model.{Text, Db, Env}
use d_n_i_p.License.Activation.{Params, activate, validate, deactivate}
use d_n_i_p.License.Customer.{customer_deactivate, customer_reveal}
use d_n_i_p.License.Admin.{admin_revoke}
use d_n_i_p.License.Worker.{KeyMaterial, provision, reconcile}
use d_n_i_p.License.Capacity.{IsSeated, activate-IsSeated}
use d_n_i_p.License.Seats.{
  deactivate-IsSeated, validate-IsSeated, admin_revoke-IsSeated, customer_deactivate-IsSeated,
  customer_reveal-IsSeated, reconcile-IsSeated,
}
use d_n_i_p.License.Provision.{AreFresh, provision-IsSeated}

-- Every entry point of the engine that writes, with its arguments and what it draws.
pub data Call : Type 0 where
  activates : (p : Params) (new_id now : ℕ) → Call
  validates : (p : Params) (stamped : Bool) (now : ℕ) → Call
  deactivates : (p : Params) (now : ℕ) → Call
  customer_deactivates : (license_id user_id : ℕ) (raw : Text) (now : ℕ) → Call
  customer_reveals : (license_id user_id : ℕ) → Call
  admin_revokes : (license_id actor_id : ℕ) (reason : Option String) (now : ℕ) → Call
  provisions :
      (locked : ℕ → Bool) (batch_size : Option ℕ) (worker_id : ℕ) (keys : ℕ → KeyMaterial) (now : ℕ)
      → Call
  reconciles : (locked : ℕ → Bool) (batch_size : Option ℕ) (worker_id now : ℕ) → Call

unfoldable pub step : Env → Call → Db → Db
step env (Call.activates p new_id now) db = (activate env p new_id now db).1
step env (Call.validates p stamped now) db = (validate env p stamped now db).1
step env (Call.deactivates p now) db = (deactivate env p now db).1
step env (Call.customer_deactivates lid uid raw now) db =
    (customer_deactivate env lid uid raw now db).1
step env (Call.customer_reveals lid uid) db = (customer_reveal env lid uid db).1
step env (Call.admin_revokes lid actor reason now) db = (admin_revoke lid actor reason now db).1
step env (Call.provisions locked batch worker keys now) db =
    (provision locked batch worker keys now db).1
step env (Call.reconciles locked batch worker now) db = (reconcile locked batch worker now db).1

-- The ids that the database draws for new rows are not in use.
abbrev pub DrawsFresh : Call → Db → Type 0
DrawsFresh (Call.activates p new_id now) db = All (λ a. a.id ≢ new_id) db.activations
DrawsFresh (Call.provisions locked batch worker keys now) db = AreFresh keys 0 db
DrawsFresh _ db = Unit

-- The databases that a history of calls leads to.
pub data Reach (env : Env) (s : Db) : Db → Type 0 where
  here : Reach env s s
  next : {t u : Db} (c : Call) → Reach env s t → DrawsFresh c t → step env c t ≡ u → Reach env s u

step-IsSeated :
    (env : Env) (c : Call) (db : Db) → DrawsFresh c db → IsSeated db → IsSeated (step env c db)
unfolding step
step-IsSeated env (Call.activates p new_id now) db f v = activate-IsSeated env p new_id now db v f
step-IsSeated env (Call.validates p stamped now) db f v = validate-IsSeated env p stamped now db v
step-IsSeated env (Call.deactivates p now) db f v = deactivate-IsSeated env p now db v
step-IsSeated env (Call.customer_deactivates lid uid raw now) db f v =
    customer_deactivate-IsSeated env lid uid raw now db v
step-IsSeated env (Call.customer_reveals lid uid) db f v = customer_reveal-IsSeated env lid uid db v
step-IsSeated env (Call.admin_revokes lid actor reason now) db f v =
    admin_revoke-IsSeated lid actor reason now db v
step-IsSeated env (Call.provisions locked batch worker keys now) db f v =
    provision-IsSeated locked batch worker keys now db v f
step-IsSeated env (Call.reconciles locked batch worker now) db f v =
    reconcile-IsSeated locked batch worker now db v

-- Whatever the calls, no licence ever has more active domains than its entitlement gives seats,
-- and no domain of a licence has two active rows, if that holds at the start and the database
-- draws unused ids for new rows.
pub Reach-IsSeated : (env : Env) (s t : Db) → IsSeated s → Reach env s t → IsSeated t
Reach-IsSeated env s t v Reach.here = v
Reach-IsSeated env s t v (Reach.next {t = m} c r f e) =
    rw (← e) (step-IsSeated env c m f (Reach-IsSeated env s m v r))
