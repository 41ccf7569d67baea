-- ===== src/Entitlement/Once.antt =====
-- Each item of an order has one entitlement after the issue, and no item ever has two.
use d_n_i_p.Prelude.{
  ℕ, ◌≡◌, inl, inr, true, Option, none, some, List, [], ◌∷◌, ◌++◌, ◌==◌, arith, find?, Unique,
  Bool-cases, Option-cases,
}
use d_n_i_p.Prelude.Rows.{find?-none-Member, Unique-append, All-of_Member}
use d_n_i_p.Tx.{ok, transaction-eq-ok, transaction_keeps}
use d_n_i_p.Entitlement.Model.{Entitlement}
use d_n_i_p.Entitlement.Policy.{OrderItem, ItemDates, item_dates, snapshot_error}
use d_n_i_p.Entitlement.Issue.{
  Order, Store, Draws, find_by_item, new_entitlement, commit_rival, insert_row, create_item,
  issue_item, issue_items, issue_tx, issue_entitlements_for_order, is_paid,
}
use d_n_i_p.Entitlement.Issued.{issue_items_inv, issue_item_inv, issue_items-Keeps}

Unique-free :
    (es : List Entitlement) (e : Entitlement)
    → Unique Entitlement.order_item_id es
    → find_by_item e.order_item_id es ≡ none
    → Unique Entitlement.order_item_id (es ++ e ∷ [])
Unique-free es e u free = Unique-append Entitlement.order_item_id es e u (
    All-of_Member _ es (λ x m same.
      absurd
        (ground (arith, find?-none-Member (λ y. y.order_item_id == e.order_item_id) es x free m))))

commit_rival-Unique :
    (i : ℕ) (r : Option Entitlement) (es : List Entitlement)
    → Unique Entitlement.order_item_id es
    → find_by_item i es ≡ none
    → Unique Entitlement.order_item_id (commit_rival i r es)
unfolding commit_rival
commit_rival-Unique i none es u free = u
commit_rival-Unique i (some r) es u free = elim (Bool-cases (r.order_item_id == i)) [
  | inl b ↦
      let same : r.order_item_id ≡ i = ground arith in rw b (Unique-free es r u (rw same free))
  | inr b ↦ rw b u
]

insert_row-Unique :
    (o : Order) (i : OrderItem) (new_id now : ℕ) (d : ItemDates) (s : Store)
    → Unique Entitlement.order_item_id s.entitlements
    → Unique Entitlement.order_item_id (insert_row o i new_id now d s).entitlements
unfolding insert_row new_entitlement
insert_row-Unique o i new_id now d s u = elim (Option-cases (find_by_item i.id s.entitlements)) [
  | inr (e, h) ↦ rw (insert_row, h) u
  | inl h ↦ rw (insert_row, h) (Unique-free s.entitlements (new_entitlement o i new_id now d) u h)
]

issue_item-Unique :
    (w : Draws) (o : Order) (i : OrderItem) (s : Store) (es : List Entitlement) (s' : Store)
    → issue_item w o i s ≡ ok (es, s')
    → Unique Entitlement.order_item_id s.entitlements
    → Unique Entitlement.order_item_id s'.entitlements
unfolding issue_item create_item
issue_item-Unique w o i s es s' h u = elim (Option-cases (find_by_item i.id s.entitlements)) [
  | inr (e, found) ↦ let same : s' ≡ s = ground arith in rw same u
  | inl free ↦ elim (Option-cases (snapshot_error i)) [
    | inr (x, bad) ↦ absurd (ground arith)
    | inl good ↦ elim (Option-cases (item_dates (w.now i.id) i)) [
      | inl lost ↦ absurd (ground arith)
      | inr (d, dated) ↦
          let mid : Store = record s {
            entitlements = commit_rival i.id (w.rival i.id) s.entitlements;
          } in
          let same : s' ≡ insert_row o i (w.new_id i.id) (w.now i.id) d mid = ground arith in
          rw same (
            insert_row-Unique o i (w.new_id i.id) (w.now i.id) d mid
              (commit_rival-Unique i.id (w.rival i.id) s.entitlements u free))
    ]
  ]
]

issue_items-Unique :
    (w : Draws) (o : Order) (is : List OrderItem) (s : Store) (es : List Entitlement) (s' : Store)
    → issue_items w o is s ≡ ok (es, s')
    → Unique Entitlement.order_item_id s.entitlements
    → Unique Entitlement.order_item_id s'.entitlements
unfolding issue_items
issue_items-Unique w o [] s es s' h u = let same : s' ≡ s = ground arith in rw same u
issue_items-Unique w o (i ∷ is) s es s' h u =
    let (first, rest, t, e1, e2, _) = issue_items_inv w o i is s es s' h in
    issue_items-Unique w o is t rest s' e2 (issue_item-Unique w o i s first t e1 u)

-- The items and their entitlements, in their order.
abbrev pub Matched : List OrderItem → List Entitlement → Store → Type 0
Matched [] [] s = Unit
Matched (i ∷ is) (e ∷ es) s = (find_by_item i.id s.entitlements ≡ some e) × Matched is es s
Matched _ _ s = ⊥

issue_items-Matched :
    (w : Draws) (o : Order) (is : List OrderItem) (s : Store) (es : List Entitlement) (s' : Store)
    → issue_items w o is s ≡ ok (es, s')
    → Matched is es s'
unfolding issue_items
issue_items-Matched w o [] s es s' h = let none_of : es ≡ [] = ground arith in rw none_of tt
issue_items-Matched w o (i ∷ is) s es s' h =
    let (first, rest, t, e1, e2, e3) = issue_items_inv w o i is s es s' h in
    let ((e, one, found), _) = issue_item_inv w o i s first t e1 in
    let all : es ≡ e ∷ rest = ground arith in
    rw all
      (issue_items-Keeps w o is t rest s' e2 i.id e found, issue_items-Matched w o is t rest s' e2)

-- An issue that has returned has answered with the entitlements of the order's items, one for
-- each, in their order, and all of them are stored.
pub issue_entitlements_for_order-Matched :
    (w : Draws) (order_id : ℕ) (s : Store) (es : List Entitlement)
    → (issue_entitlements_for_order w order_id s).0 ≡ ok es
    → (o : Order) × (find? (λ x. x.id == order_id) s.orders ≡ some o)
      × (is_paid o.status ≡ true)
      × Matched o.items es (issue_entitlements_for_order w order_id s).1
unfolding issue_entitlements_for_order issue_tx
issue_entitlements_for_order-Matched w order_id s es h =
    let (t, done, stored) = transaction-eq-ok (issue_tx w order_id) s es h in
    elim (Option-cases (find? (λ o. o.id == order_id) s.orders)) [
      | inl e1 ↦ absurd (ground arith)
      | inr (o, e1) ↦ elim (Bool-cases (is_paid o.status)) [
        | inr e2 ↦ absurd (ground arith)
        | inl e2 ↦
            let ran : issue_items w o o.items s ≡ ok (es, t) = ground arith in
            (o, e1, e2, rw stored (issue_items-Matched w o o.items s es t ran))
      ]
    ]

-- No issue, whether it returns or throws, and whatever rows other transactions commit between
-- its look-ups and its inserts, gives an order item a second entitlement.
pub issue_entitlements_for_order-Unique :
    (w : Draws) (order_id : ℕ) (s : Store)
    → Unique Entitlement.order_item_id s.entitlements
    → Unique Entitlement.order_item_id (issue_entitlements_for_order w order_id s).1.entitlements
unfolding issue_entitlements_for_order issue_tx
issue_entitlements_for_order-Unique w order_id s u =
    transaction_keeps (λ t. Unique Entitlement.order_item_id t.entitlements) (issue_tx w order_id) s
      u
      (λ es t done. elim (Option-cases (find? (λ o. o.id == order_id) s.orders)) [
        | inl e1 ↦ absurd (ground arith)
        | inr (o, e1) ↦ elim (Bool-cases (is_paid o.status)) [
          | inr e2 ↦ absurd (ground arith)
          | inl e2 ↦
              let ran : issue_items w o o.items s ≡ ok (es, t) = ground arith in
              issue_items-Unique w o o.items s es t ran u
        ]
      ])
