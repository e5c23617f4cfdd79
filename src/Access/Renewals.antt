-- ===== src/Access/Renewals.antt =====
-- The renewals are the live instances that expire in the period, in the order of their expiry.
use opord_ai_demo.Base.{
  ℕ, ◌+◌, ◌*◌, Bool, true, false, Option, none, some, List, [], ◌∷◌, ◌≡◌, refl, ◌↔◌, ◌⊎◌, inl, inr,
  ok, select, In, All, In-select→, In-select←, All-select, Bool-cases, arith,
}
use mathlib.Core.Path.{subst}
use opord_ai_demo.Base.Int.{ℤ}
use opord_ai_demo.Db.{Env, Db, list_expiring}
use opord_ai_demo.Db.Rows.{AiServiceInstance}
use opord_ai_demo.Db.Listings.{
  expires_by, not_after, insert_by_expiry, order_by_expiry, expiring_instances,
}
use opord_ai_demo.Tenant.{scope_tenant, may_see}
use opord_ai_demo.Access.{day}
use opord_ai_demo.Access.Listings.{positive_or, list_ai_expiring_instances}

In-insert_by_expiry :
    (x i : AiServiceInstance) (js : List AiServiceInstance)
    → In x (insert_by_expiry i js) ↔ ((i ≡ x) ⊎ In x js)
unfolding insert_by_expiry
In-insert_by_expiry x i [] = ((λ h. h), (λ h. h))
In-insert_by_expiry x i (j ∷ js) = elim (Bool-cases (not_after i.expires_at j.expires_at)) [
  | inl first ↦ rw first ((λ h. h), (λ h. h))
  | inr after ↦
      let (there, back) = In-insert_by_expiry x i js in
      rw after (
        (λ h. elim h [
          | inl here ↦ inr (inl here)
          | inr later ↦ elim (there later) [ inl same ↦ inl same | inr old ↦ inr (inr old) ]
        ]),
        (λ h. elim h [
          | inl same ↦ inr (back (inl same))
          | inr old ↦ elim old [ inl here ↦ inl here | inr later ↦ inr (back (inr later)) ]
        ]),
      )
]

In-order_by_expiry :
    (x : AiServiceInstance) (is : List AiServiceInstance) → In x (order_by_expiry is) ↔ In x is
unfolding order_by_expiry
In-order_by_expiry x [] = ((λ h. h), (λ h. h))
In-order_by_expiry x (i ∷ is) =
    let (there, back) = In-insert_by_expiry x i (order_by_expiry is) in
    let (old, new) = In-order_by_expiry x is in
    (
      (λ h. elim (there h) [ inl same ↦ inl same | inr later ↦ inr (old later) ]),
      (λ h. elim h [ inl same ↦ back (inl same) | inr later ↦ back (inr (new later)) ]),
    )

abbrev NotAfter : AiServiceInstance → AiServiceInstance → Type 0
NotAfter i j = not_after i.expires_at j.expires_at ≡ true

-- Each row expires no later than the ones behind it.
abbrev pub Ordered : List AiServiceInstance → Type 0
Ordered [] = Unit
Ordered (i ∷ is) = All (NotAfter i) is × Ordered is

not_after_trans :
    (r s t : Option ℕ) → not_after r s ≡ true → not_after s t ≡ true → not_after r t ≡ true
not_after_trans none s t h k = refl
not_after_trans (some a) none t h k = absurd (cc h)
not_after_trans (some a) (some b) none h k = absurd (cc k)
not_after_trans (some a) (some b) (some c) h k = ground arith

not_after-total : (s t : Option ℕ) → not_after s t ≡ false → not_after t s ≡ true
not_after-total none t h = absurd (cc h)
not_after-total (some a) none h = refl
not_after-total (some a) (some b) h = ground arith

behind_each :
    (i j : AiServiceInstance) (js : List AiServiceInstance)
    → NotAfter i j
    → All (NotAfter j) js
    → All (NotAfter i) js
behind_each i j [] h all = tt
behind_each i j (k ∷ ks) h all =
    (not_after_trans i.expires_at j.expires_at k.expires_at h all.0, behind_each i j ks h all.1)

All-insert_by_expiry :
    (i j : AiServiceInstance) (js : List AiServiceInstance)
    → NotAfter j i
    → All (NotAfter j) js
    → All (NotAfter j) (insert_by_expiry i js)
unfolding insert_by_expiry
All-insert_by_expiry i j [] h all = (h, tt)
All-insert_by_expiry i j (k ∷ ks) h all = elim (Bool-cases (not_after i.expires_at k.expires_at)) [
  | inl first ↦ rw first (h, all)
  | inr after ↦ rw after (all.0, All-insert_by_expiry i j ks h all.1)
]

insert_by_expiry-Ordered :
    (i : AiServiceInstance) (js : List AiServiceInstance)
    → Ordered js
    → Ordered (insert_by_expiry i js)
unfolding insert_by_expiry
insert_by_expiry-Ordered i [] ordered = (tt, tt)
insert_by_expiry-Ordered i (j ∷ js) ordered =
    elim (Bool-cases (not_after i.expires_at j.expires_at)) [
      | inl first ↦ rw first ((first, behind_each i j js first ordered.0), ordered)
      | inr after ↦ rw after (
        All-insert_by_expiry i j js (not_after-total i.expires_at j.expires_at after) ordered.0,
        insert_by_expiry-Ordered i js ordered.1,
      )
    ]

order_by_expiry-Ordered : (is : List AiServiceInstance) → Ordered (order_by_expiry is)
unfolding order_by_expiry
order_by_expiry-Ordered [] = tt
order_by_expiry-Ordered (i ∷ is) =
    insert_by_expiry-Ordered i (order_by_expiry is) (order_by_expiry-Ordered is)

select-Ordered :
    (p : AiServiceInstance → Bool) (is : List AiServiceInstance)
    → Ordered is
    → Ordered (select p is)
unfolding select
select-Ordered p [] ordered = tt
select-Ordered p (i ∷ is) ordered = elim (Bool-cases (p i)) [
  | inl kept ↦ rw kept (All-select (NotAfter i) p is ordered.0, select-Ordered p is ordered.1)
  | inr dropped ↦ rw dropped (select-Ordered p is ordered.1)
]

-- What the listing holds, as a condition on a row of the table.
abbrev pub Renews : Env → ℤ → Db → AiServiceInstance → Type 0
Renews e days db i =
    In i db.instances
    × (expires_by (e.now + positive_or 30 days * day) i ≡ true)
    × (may_see (scope_tenant e) i.tenant_id ≡ true)

renewals_of :
    (e : Env) (days : ℤ) (db : Db) (rs : List AiServiceInstance)
    → (list_ai_expiring_instances e days db).0 ≡ ok rs
    → select
        (λ (i : AiServiceInstance). may_see (scope_tenant e) i.tenant_id)
        (order_by_expiry (select (expires_by (e.now + positive_or 30 days * day)) db.instances))
      ≡ rs
unfolding list_ai_expiring_instances expiring_instances
renewals_of e days db rs done = elim (Bool-cases (e.fails list_expiring)) [
  | inl down ↦ absurd (ground (arith, down))
  | inr up ↦ ground (arith, up)
]

renewed :
    (e : Env) (days : ℤ) (db : Db) (i : AiServiceInstance)
    → In i (
        select
          (λ (j : AiServiceInstance). may_see (scope_tenant e) j.tenant_id)
          (order_by_expiry (select (expires_by (e.now + positive_or 30 days * day)) db.instances)))
      ↔ Renews e days db i
renewed e days db i =
    let due = expires_by (e.now + positive_or 30 days * day) in
    let seen = λ (j : AiServiceInstance). may_see (scope_tenant e) j.tenant_id in
    let sorted = In-order_by_expiry i (select due db.instances) in
    (
      (λ h.
          let shown = In-select→ seen i (order_by_expiry (select due db.instances)) h in
          let picked = In-select→ due i db.instances (sorted.0 shown.0) in
          (picked.0, picked.1, shown.1)),
      (λ h.
          In-select← seen i (order_by_expiry (select due db.instances))
            (sorted.1 (In-select← due i db.instances h.0 h.1)) h.2),
    )

-- Where ListAIExpiringInstances succeeds, it lists exactly the active and suspended instances that
-- the caller may see and that have an expiry at most the given days from now, 30 days where that
-- number is not positive, in the order of their expiry.
pub list_ai_expiring_instances_ok :
    (e : Env) (days : ℤ) (db : Db) (rs : List AiServiceInstance) (i : AiServiceInstance)
    → (list_ai_expiring_instances e days db).0 ≡ ok rs
    → (In i rs ↔ Renews e days db i) × Ordered rs
list_ai_expiring_instances_ok e days db rs i done =
    subst (λ ss. (In i ss ↔ Renews e days db i) × Ordered ss) (renewals_of e days db rs done)
      (renewed e days db i, select-Ordered _ _ (order_by_expiry-Ordered _))
