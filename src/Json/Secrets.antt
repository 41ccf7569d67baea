-- ===== src/Json/Secrets.antt =====
-- What assertSafeMetadata lets through, said without its search: no key at any depth is forbidden.
use d_n_i_p.Prelude.{
  ℕ, suc, ◌≡◌, refl, ◌↔◌, inl, inr, false, none, List, [], ◌∷◌, ◌++◌, arith, Bool-cases,
  Option-cases,
}
use d_n_i_p.Text.{Text, text_eq}
use d_n_i_p.Json.{
  Json, Items, Fields, null, boolean, number, string, named, array, object, nil, cons, end, field,
  put, spread, is_forbidden, Segment, at_index, at_key, assert_safe, assert_items, assert_fields,
}

unfoldable mutual
  pub NoSecret : Json → Type 0
  NoSecret (array xs) = NoSecretItems xs
  NoSecret (object fs) = NoSecretFields fs
  NoSecret _ = Unit

  pub NoSecretItems : Items → Type 0
  NoSecretItems nil = Unit
  NoSecretItems (cons x xs) = NoSecret x × NoSecretItems xs

  pub NoSecretFields : Fields → Type 0
  NoSecretFields end = Unit
  NoSecretFields (field k v fs) = (is_forbidden k ≡ false) × NoSecret v × NoSecretFields fs

mutual
  unfolding assert_safe NoSecret

  sound : (j : Json) (path : List Segment) → assert_safe j path ≡ none → NoSecret j
  sound null path h = tt
  sound (boolean b) path h = tt
  sound (number n) path h = tt
  sound (string s) path h = tt
  sound (named n) path h = tt
  sound (array xs) path h = sound_items xs 0 path h
  sound (object fs) path h = sound_fields fs path h

  sound_items :
      (xs : Items) (i : ℕ) (path : List Segment) → assert_items xs i path ≡ none → NoSecretItems xs
  sound_items nil i path h = tt
  sound_items (cons x xs) i path h = elim (Option-cases (assert_safe x (path ++ at_index i ∷ []))) [
    | inr (p, e) ↦ absurd (ground arith)
    | inl e ↦ (sound x (path ++ at_index i ∷ []) e, sound_items xs (suc i) path (ground arith))
  ]

  sound_fields :
      (fs : Fields) (path : List Segment) → assert_fields fs path ≡ none → NoSecretFields fs
  sound_fields end path h = tt
  sound_fields (field k v fs) path h = elim (Bool-cases (is_forbidden k)) [
    | inl e ↦ absurd (ground arith)
    | inr e ↦ elim (Option-cases (assert_safe v (path ++ at_key k ∷ []))) [
      | inr (p, e2) ↦ absurd (ground arith)
      | inl e2 ↦ (e, sound v (path ++ at_key k ∷ []) e2, sound_fields fs path (ground arith))
    ]
  ]

mutual
  unfolding assert_safe NoSecret

  complete : (j : Json) (path : List Segment) → NoSecret j → assert_safe j path ≡ none
  complete null path h = refl
  complete (boolean b) path h = refl
  complete (number n) path h = refl
  complete (string s) path h = refl
  complete (named n) path h = refl
  complete (array xs) path h = complete_items xs 0 path h
  complete (object fs) path h = complete_fields fs path h

  complete_items :
      (xs : Items) (i : ℕ) (path : List Segment) → NoSecretItems xs → assert_items xs i path ≡ none
  complete_items nil i path h = refl
  complete_items (cons x xs) i path h =
      rw (complete x (path ++ at_index i ∷ []) h.0) (complete_items xs (suc i) path h.1)

  complete_fields :
      (fs : Fields) (path : List Segment) → NoSecretFields fs → assert_fields fs path ≡ none
  complete_fields end path h = refl
  complete_fields (field k v fs) path h =
      rw (h.0, complete v (path ++ at_key k ∷ []) h.1) (complete_fields fs path h.2)

-- assertSafeMetadata returns, whatever the path it was called with, exactly if no key of an
-- object at any depth is forbidden.
pub assert_safe_iff : (j : Json) (path : List Segment) → (assert_safe j path ≡ none) ↔ NoSecret j
assert_safe_iff j path = (sound j path, complete j path)

pub put-NoSecret :
    (k : Text) (v : Json) (fs : Fields)
    → is_forbidden k ≡ false
    → NoSecret v
    → NoSecretFields fs
    → NoSecretFields (put k v fs)
unfolding put NoSecret
put-NoSecret k v end hk hv h = (hk, hv, tt)
put-NoSecret k v (field j w fs) hk hv h = elim (Bool-cases (text_eq j k)) [
  | inl e ↦ rw e (hk, hv, h.2)
  | inr e ↦ rw e (h.0, h.1, put-NoSecret k v fs hk hv h.2)
]

pub spread-NoSecret :
    (fs gs : Fields) → NoSecretFields fs → NoSecretFields gs → NoSecretFields (spread fs gs)
unfolding spread NoSecret
spread-NoSecret fs end h k = h
spread-NoSecret fs (field j v gs) h k =
    spread-NoSecret (put j v fs) gs (put-NoSecret j v fs k.0 k.1 h) k.2
