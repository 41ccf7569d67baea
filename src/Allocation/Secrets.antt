-- ===== src/Allocation/Secrets.antt =====
-- No metadata that the engine stores has a secret-like key.
use d_n_i_p.Prelude.{ℕ, ◌≡◌, refl, Option, none, some, [], ◌∷◌, arith, All}
use d_n_i_p.Text.{Text, codes}
use d_n_i_p.Json.{Json, Fields, is_forbidden}
use d_n_i_p.Json.Secrets.{NoSecret, NoSecretFields, assert_safe_iff, put-NoSecret, spread-NoSecret}
use d_n_i_p.Allocation.Model.{Allocation, Account, Store, metadata_error, or_empty, text_or_null}
use d_n_i_p.Allocation.Requests.{DeactivationParams, deactivation_metadata, leave_pending}
use d_n_i_p.Allocation.Review.{
  ActivateParams, start, activation_metadata, noted, RejectParams, turn_down, ConfirmParams,
  confirm,
}

abbrev pub Clean : Allocation → Type 0
Clean a = NoSecretFields a.metadata

abbrev pub CleanAccount : Account → Type 0
CleanAccount a = NoSecretFields a.metadata

abbrev pub IsClean : Store → Type 0
IsClean s = All Clean s.allocations × All CleanAccount s.accounts

pub metadata_error-NoSecret :
    (o : Option Fields) → metadata_error o ≡ none → NoSecretFields (or_empty o)
unfolding metadata_error NoSecret
metadata_error-NoSecret none h = tt
metadata_error-NoSecret (some fs) h = (assert_safe_iff (Json.object fs) []).0 (ground arith)

text_or_null-NoSecret : (t : Option Text) → NoSecret (text_or_null t)
unfolding NoSecret
text_or_null-NoSecret none = tt
text_or_null-NoSecret (some []) = tt
text_or_null-NoSecret (some (c ∷ s)) = tt

noted-NoSecret : (o : Option Text) (fs : Fields) → NoSecretFields fs → NoSecretFields (noted o fs)
unfolding NoSecret is_forbidden
noted-NoSecret none fs h = h
noted-NoSecret (some []) fs h = h
noted-NoSecret (some (c ∷ t)) fs h =
    put-NoSecret (codes "adminActivationNotes") (Json.string (c ∷ t)) fs refl tt h

pub start-Clean :
    (p : ActivateParams) (acc : Account) (now : ℕ) (a : Allocation)
    → metadata_error p.metadata ≡ none
    → Clean a
    → Clean (start p acc now a)
unfolding start activation_metadata NoSecret is_forbidden
start-Clean p acc now a safe h =
    put-NoSecret (codes "fulfillmentMode") (Json.string (codes "MANUAL_EXTERNAL")) _ refl tt (
      noted-NoSecret p.notes _ (
        spread-NoSecret a.metadata (or_empty p.metadata) h
          (metadata_error-NoSecret p.metadata safe)))

pub turn_down-Clean :
    (p : RejectParams) (a : Allocation)
    → metadata_error p.metadata ≡ none
    → Clean a
    → Clean (turn_down p a)
unfolding turn_down NoSecret is_forbidden
turn_down-Clean p a safe h =
    put-NoSecret (codes "rejectionReason") (Json.string p.reason) _ refl tt
      (spread-NoSecret a.metadata (or_empty p.metadata) h (metadata_error-NoSecret p.metadata safe))

pub leave_pending-Clean :
    (iso : ℕ → Text) (p : DeactivationParams) (now : ℕ) (a : Allocation)
    → Clean a
    → Clean (leave_pending iso p now a)
unfolding leave_pending deactivation_metadata NoSecret is_forbidden
leave_pending-Clean iso p now a h =
    put-NoSecret (codes "deactivationRequestedAt") (Json.string (iso now)) _ refl tt (
      put-NoSecret (codes "deactivationReason") (text_or_null p.reason) _ refl
        (text_or_null-NoSecret p.reason)
        (put-NoSecret (codes "deactivationRequestedBy") (Json.named p.actor_id) a.metadata refl tt
          h))

pub confirm-Clean :
    (p : ConfirmParams) (now : ℕ) (a : Allocation)
    → metadata_error p.metadata ≡ none
    → Clean a
    → Clean (confirm p now a)
unfolding confirm NoSecret is_forbidden
confirm-Clean p now a safe h =
    put-NoSecret (codes "deactivatedBy") (Json.named p.actor_id) _ refl tt (
      put-NoSecret (codes "adminDeactivationNotes") (text_or_null p.notes) _ refl
        (text_or_null-NoSecret p.notes)
        (spread-NoSecret a.metadata (or_empty p.metadata) h
          (metadata_error-NoSecret p.metadata safe)))
