-- ===== src/Entitlement/Issued.antt =====
-- An order's entitlements are issued once: one for each item, however often the issue is run.
use d_n_i_p.Prelude.{
  ℕ, ◌≡◌, ◌∙◌, subst, refl, inl, inr, Option, none, some, List, [], ◌∷◌, ◌++◌, ◌==◌, arith, find?,
  is_some, Bool-cases, Option-cases,
}
use d_n_i_p.Prelude.Rows.{find?-append_some, find?-append_none}
use d_n_i_p.Tx.{◌>>=◌, pure, bind-ok, ok, transaction-eq-ok, transaction-of-ok}
use d_n_i_p.Entitlement.Model.{Entitlement}
use d_n_i_p.Entitlement.Policy.{OrderItem, ItemDates, item_dates, snapshot_error}
use d_n_i_p.Entitlement.Issue.{
  Order, Store, Draws, find_by_item, new_entitlement, commit_rival, insert_row, create_item,
  issue_item, issue_items, issue_tx, issue_entitlements_for_order, is_paid,
}

-- Every item that has an entitlement keeps it.
abbrev pub Keeps : Store → Store → Type 0
Keeps s s' =
    (j : ℕ) (e : Entitlement)
    → find_by_item j s.entitlements ≡ some e
    → find_by_item j s'.entitlements ≡ some e

commit_rival-Keeps :
    (i : ℕ) (r : Option Entitlement) (es : List Entitlement) (j : ℕ) (e : Entitlement)
    → find_by_item j es ≡ some e
    → find_by_item j (commit_rival i r es) ≡ some e
unfolding commit_rival
commit_rival-Keeps i none es j e h = h
commit_rival-Keeps i (some r) es j e h = elim (Bool-cases (r.order_item_id == i)) [
  | inl b ↦ rw b (find?-append_some (λ x. x.order_item_id == j) es (r ∷ []) h)
  | inr b ↦ rw b h
]

insert_row-Keeps :
    (o : Order) (i : OrderItem) (new_id now : ℕ) (d : ItemDates) (s : Store)
    → Keeps s (insert_row o i new_id now d s)
unfolding insert_row
insert_row-Keeps o i new_id now d s j e h =
    elim (Bool-cases (is_some (find_by_item i.id s.entitlements))) [
      | inl b ↦ rw b h
      | inr b ↦ rw b (find?-append_some (λ x. x.order_item_id == j) s.entitlements _ h)
    ]

-- After the insert the item has an entitlement, its own or the rival's.
insert_row-found :
    (o : Order) (i : OrderItem) (new_id now : ℕ) (d : ItemDates) (s : Store)
    → (e : Entitlement) × (find_by_item i.id (insert_row o i new_id now d s).entitlements ≡ some e)
unfolding insert_row new_entitlement
insert_row-found o i new_id now d s = elim (Option-cases (find_by_item i.id s.entitlements)) [
  | inr (e, h) ↦ (e, ground arith)
  | inl h ↦ (
    new_entitlement o i new_id now d,
    ground (
      arith,
      find?-append_none (λ x. x.order_item_id == i.id) s.entitlements
          (new_entitlement o i new_id now d ∷ []) h,
    ),
  )
]

-- One item that goes through has one entitlement, which is the answer, and no other is lost.
pub issue_item_inv :
    (w : Draws) (o : Order) (i : OrderItem) (s : Store) (es : List Entitlement) (s' : Store)
    → issue_item w o i s ≡ ok (es, s')
    → ((e : Entitlement) × (es ≡ e ∷ []) × (find_by_item i.id s'.entitlements ≡ some e))
      × Keeps s s'
unfolding issue_item create_item
issue_item_inv w o i s es s' h = elim (Option-cases (find_by_item i.id s.entitlements)) [
  | inr (e, found) ↦
      let same : s' ≡ s = ground arith in ((e, ground arith, rw same found), rw same (λ j x k. k))
  | inl free ↦ elim (Option-cases (snapshot_error i)) [
    | inr (x, bad) ↦ absurd (ground arith)
    | inl good ↦ elim (Option-cases (item_dates (w.now i.id) i)) [
      | inl lost ↦ absurd (ground arith)
      | inr (d, dated) ↦
          let mid : Store = record s {
            entitlements = commit_rival i.id (w.rival i.id) s.entitlements;
          } in
          let (e, found) = insert_row-found o i (w.new_id i.id) (w.now i.id) d mid in
          let same : s' ≡ insert_row o i (w.new_id i.id) (w.now i.id) d mid = ground arith in
          (
            (e, ground (arith, found), rw same found),
            rw same (λ j x k.
                insert_row-Keeps o i (w.new_id i.id) (w.now i.id) d mid j x
                  (commit_rival-Keeps i.id (w.rival i.id) s.entitlements j x k)),
          )
    ]
  ]
]

pub issue_items_inv :
    (w : Draws) (o : Order) (i : OrderItem) (is : List OrderItem) (s : Store)
    (es : List Entitlement) (s' : Store)
    → issue_items w o (i ∷ is) s ≡ ok (es, s')
    → (first : List Entitlement) × (rest : List Entitlement) × (t : Store) × (issue_item w o i s
        ≡ ok (first, t))
      × (issue_items w o is t ≡ ok (rest, s'))
      × (es ≡ first ++ rest)
unfolding issue_items
issue_items_inv w o i is s es s' h =
    let (first, t, e1, k1) =
      bind-ok (issue_item w o i) (λ a. issue_items w o is >>= λ b. pure (a ++ b)) s es s' h in
    let (rest, u, e2, k2) = bind-ok (issue_items w o is) (λ b. pure (first ++ b)) t es s' k1 in
    let same : u ≡ s' = ground arith in
    (first, rest, t, e1, subst (λ x. issue_items w o is t ≡ ok (rest, x)) same e2, ground arith)

pub issue_items-Keeps :
    (w : Draws) (o : Order) (is : List OrderItem) (s : Store) (es : List Entitlement) (s' : Store)
    → issue_items w o is s ≡ ok (es, s')
    → Keeps s s'
unfolding issue_items
issue_items-Keeps w o [] s es s' h j e k = let same : s' ≡ s = ground arith in rw same k
issue_items-Keeps w o (i ∷ is) s es s' h j e k =
    let (first, rest, t, e1, e2, _) = issue_items_inv w o i is s es s' h in
    issue_items-Keeps w o is t rest s' e2 j e ((issue_item_inv w o i s first t e1).1 j e k)

issue_item-held :
    (w : Draws) (o : Order) (i : OrderItem) (s : Store) (e : Entitlement)
    → find_by_item i.id s.entitlements ≡ some e
    → issue_item w o i s ≡ ok (e ∷ [], s)
unfolding issue_item
issue_item-held w o i s e h = rw (h, issue_item) refl

-- A second run in a store that has kept every entitlement answers the same, and writes nothing.
issue_items_again :
    (w w2 : Draws) (o : Order) (is : List OrderItem) (s : Store) (es : List Entitlement)
    (s' u : Store)
    → issue_items w o is s ≡ ok (es, s')
    → Keeps s' u
    → issue_items w2 o is u ≡ ok (es, u)
unfolding issue_items
issue_items_again w w2 o [] s es s' u h k = ground arith
issue_items_again w w2 o (i ∷ is) s es s' u h k =
    let (first, rest, t, e1, e2, e3) = issue_items_inv w o i is s es s' h in
    let ((e, one, found), _) = issue_item_inv w o i s first t e1 in
    let held : find_by_item i.id u.entitlements ≡ some e =
      k i.id e (issue_items-Keeps w o is t rest s' e2 i.id e found) in
    let again : issue_item w2 o i u ≡ ok (first, u) = rw one (issue_item-held w2 o i u e held) in
    let tail = issue_items_again w w2 o is t rest s' u e2 k in ground (arith, tail)

issue_item-orders :
    (w : Draws) (o : Order) (i : OrderItem) (s : Store) (es : List Entitlement) (s' : Store)
    → issue_item w o i s ≡ ok (es, s')
    → s'.orders ≡ s.orders
unfolding issue_item create_item insert_row
issue_item-orders w o i s es s' h = elim (Option-cases (find_by_item i.id s.entitlements)) [
  | inr (e, found) ↦ ground arith
  | inl free ↦ elim (Option-cases (snapshot_error i)) [
    | inr (x, bad) ↦ absurd (ground arith)
    | inl good ↦ elim (Option-cases (item_dates (w.now i.id) i)) [
      | inl lost ↦ absurd (ground arith)
      | inr (d, dated) ↦ ground arith
    ]
  ]
]

issue_items-orders :
    (w : Draws) (o : Order) (is : List OrderItem) (s : Store) (es : List Entitlement) (s' : Store)
    → issue_items w o is s ≡ ok (es, s')
    → s'.orders ≡ s.orders
unfolding issue_items
issue_items-orders w o [] s es s' h = ground arith
issue_items-orders w o (i ∷ is) s es s' h =
    let (first, rest, t, e1, e2, _) = issue_items_inv w o i is s es s' h in
    issue_items-orders w o is t rest s' e2 ∙ issue_item-orders w o i s first t e1

-- An issue that has returned can be run again, whatever the run draws and meets: it answers the
-- same entitlements and writes nothing.
pub issue_entitlements_for_order_twice :
    (w w2 : Draws) (order_id : ℕ) (s : Store) (es : List Entitlement)
    → (issue_entitlements_for_order w order_id s).0 ≡ ok es
    → let s' = (issue_entitlements_for_order w order_id s).1 in
      issue_entitlements_for_order w2 order_id s' ≡ (ok es, s')
unfolding issue_entitlements_for_order issue_tx
issue_entitlements_for_order_twice w w2 order_id s es h =
    let (t, done, stored) = transaction-eq-ok (issue_tx w order_id) s es h in
    elim (Option-cases (find? (λ o. o.id == order_id) s.orders)) [
      | inl e1 ↦ absurd (ground arith)
      | inr (o, e1) ↦ elim (Bool-cases (is_paid o.status)) [
        | inr e2 ↦ absurd (ground arith)
        | inl e2 ↦
            let ran : issue_items w o o.items s ≡ ok (es, t) = ground arith in
            let again : issue_items w2 o o.items t ≡ ok (es, t) =
              issue_items_again w w2 o o.items s es t t ran (λ j e k. k) in
            let orders : t.orders ≡ s.orders = issue_items-orders w o o.items s es t ran in
            rw stored (transaction-of-ok (issue_tx w2 order_id) t t es (ground arith))
      ]
    ]
