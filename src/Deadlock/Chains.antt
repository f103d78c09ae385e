-- ===== src/Deadlock/Chains.antt =====
-- Chains of waits, and the reports of detectCycle.
use open_db.Prelude.{
  ℕ, zero, suc, ◌<◌, ◌≡◌, refl, ◌≢◌, true, false, Option, none, some, List, [], ◌∷◌, arith, ◌==◌,
  Str, Bool-cases, inl, inr, sym, ◌∙◌, ap,
}
use open_db.Prelude.Dict.{Dict}
use open_db.Lock.{LockManager, ResourceKey, Waiter, contains, is_empty, is_granted}
use open_db.Lock.Queries.{get_holders, waiter_table, find_waiter, contains-get_holders, txns}
use open_db.Deadlock.{Hop, closed, follow, stop, scan_holders, walk, max_hops, detect_cycle}

-- `a` is queued for a table on which `b` holds a lock.
pub record WaitsFor (lm : LockManager) (a b : ℕ) : Type 0 where
  pub queued : waiter_table lm a ≢ []
  pub held : is_granted lm b (waiter_table lm a) ≡ true

pub data Chain (lm : LockManager) : ℕ → ℕ → Type 0 where
  one : {a b : ℕ} → WaitsFor lm a b → Chain lm a b
  more : {a b c : ℕ} → WaitsFor lm a b → Chain lm b c → Chain lm a c

-- What the loop over holders finds, for the holders `hs` of a table.
abbrev HopSound : LockManager → ℕ → List ℕ → Hop → Type 0
HopSound lm origin hs closed = contains origin hs ≡ true
HopSound lm origin hs (follow next) =
    (h : ℕ) × (contains h hs ≡ true) × (waiter_table lm h ≡ next) × (next ≢ [])
HopSound lm origin hs stop = Unit

-- The same for one holder more.
HopSound-cons :
    (lm : LockManager) (origin x : ℕ) (hs : List ℕ) (hop : Hop)
    → HopSound lm origin hs hop
    → HopSound lm origin (x ∷ hs) hop
unfolding contains
HopSound-cons lm origin x hs closed s = ground arith
HopSound-cons lm origin x hs (follow next) s = (s.0, ground arith, s.2, s.3)
HopSound-cons lm origin x hs stop s = tt

nonempty : (xs : Str) → is_empty xs ≡ false → xs ≢ []
nonempty [] e = cc
nonempty (x ∷ xs) e = λ f. cc

scan_holders_sound :
    (lm : LockManager) (origin : ℕ) (hs : List ℕ)
    → HopSound lm origin hs (scan_holders lm origin hs)
unfolding scan_holders contains
scan_holders_sound lm origin [] = tt
scan_holders_sound lm origin (h ∷ hs) = elim (Bool-cases (h == origin)) [
  | inl e ↦ rw e (ground arith)
  | inr e ↦ elim (Bool-cases (is_empty (waiter_table lm h))) [
    | inl f ↦ rw (e, f) (HopSound-cons lm origin h hs _ (scan_holders_sound lm origin hs))
    | inr f ↦ rw (e, f) (h, ground arith, refl, nonempty (waiter_table lm h) f)
  ]
]

-- One round of the walk, given what the later rounds show.
walk_round :
    (n : ℕ) (lm : LockManager) (origin a v : ℕ) (hop : Hop)
    → ((b : ℕ)
        → waiter_table lm b ≢ []
        → walk n lm origin (waiter_table lm b) ≡ some v
        → (v ≡ origin) × Chain lm b origin)
    → waiter_table lm a ≢ []
    → HopSound lm origin (get_holders lm (waiter_table lm a)) hop
    → (elim hop as (λ _. Option ℕ) [
      | closed ↦ some origin
      | follow next ↦ walk n lm origin next
      | stop ↦ none
    ])
      ≡ some v
    → (v ≡ origin) × Chain lm a origin
walk_round n lm origin a v closed later q s e =
    (ground arith, one (record { queued = q; held = sym (contains-get_holders lm origin _) ∙ s }))
walk_round n lm origin a v (follow next) later q s e =
    let rest = later s.0 (λ f. s.3 (sym s.2 ∙ f)) (ap (walk n lm origin) s.2 ∙ e) in
    (rest.0, more (record { queued = q; held = sym (contains-get_holders lm s.0 _) ∙ s.1 }) rest.1)
walk_round n lm origin a v stop later q s e = cc

walk_sound :
    (n : ℕ) (lm : LockManager) (origin a v : ℕ)
    → waiter_table lm a ≢ []
    → walk n lm origin (waiter_table lm a) ≡ some v
    → (v ≡ origin) × Chain lm a origin
unfolding walk
walk_sound zero lm origin a v q e = cc
walk_sound (suc n) lm origin a v q e =
    walk_round n lm origin a v _ (λ b. walk_sound n lm origin b v) q
      (scan_holders_sound lm origin (get_holders lm (waiter_table lm a))) e

none-ne-some : {A : Type 0} {a : A} → none ≢ some a
none-ne-some = λ e. cc

-- A victim that detectCycle reports is the transaction that it was asked about, and that
-- transaction waits for itself along a chain of waits on tables and locks on them.
pub detect_cycle_sound :
    (lm : LockManager) (origin v : ℕ)
    → detect_cycle lm origin ≡ some v
    → (v ≡ origin) × Chain lm origin origin
unfolding detect_cycle
detect_cycle_sound lm origin v e = elim (Bool-cases (is_empty (waiter_table lm origin))) [
  | inl f ↦ absurd (none-ne-some (rw f at e))
  | inr f ↦ walk_sound max_hops lm origin origin v (nonempty (waiter_table lm origin) f) (rw f at e)
]

-- From `table` the waits lead back to `origin` after `n` more hops, each table with one holder.
abbrev LeadsBack : LockManager → ℕ → ℕ → Str → Type 0
LeadsBack lm origin zero table = get_holders lm table ≡ origin ∷ []
LeadsBack lm origin (suc n) table =
    (h : ℕ) × (get_holders lm table ≡ h ∷ [])
    × ((h == origin) ≡ false)
    × (is_empty (waiter_table lm h) ≡ false)
    × LeadsBack lm origin n (waiter_table lm h)

walk_complete :
    (n fuel : ℕ) (lm : LockManager) (origin : ℕ) (table : Str)
    → LeadsBack lm origin n table
    → n < fuel
    → walk fuel lm origin table ≡ some origin
unfolding walk scan_holders
walk_complete n zero lm origin table l h = absurd (omega arith)
walk_complete zero (suc fuel) lm origin table l h = rw (l, walk) (ground arith)
walk_complete (suc n) (suc fuel) lm origin table l h =
    rw (l.1, walk, l.2, l.3) (walk_complete n fuel lm origin _ l.4 (omega arith))

-- Where every table on the way from the one that a queued transaction waits for has one holder, a
-- cycle of fewer than 1024 hops back to that transaction is always found.
pub detect_cycle_complete :
    (lm : LockManager) (origin n : ℕ)
    → is_empty (waiter_table lm origin) ≡ false
    → LeadsBack lm origin n (waiter_table lm origin)
    → n < 1024
    → detect_cycle lm origin ≡ some origin
unfolding detect_cycle
detect_cycle_complete lm origin n q l h = rw q (walk_complete n max_hops lm origin _ l h)

-- No queue of the map holds `txn`.
abbrev pub Unqueued : ℕ → Dict ResourceKey (List Waiter) → Type 0
Unqueued txn [] = Unit
Unqueued txn ((k, ws) ∷ m) = (contains txn (txns ws) ≡ false) × Unqueued txn m

find_waiter-Unqueued :
    (txn : ℕ) (m : Dict ResourceKey (List Waiter)) → Unqueued txn m → (find_waiter txn m).table ≡ []
unfolding find_waiter
find_waiter-Unqueued txn [] u = refl
find_waiter-Unqueued txn ((k, ws) ∷ m) u = rw u.0 (find_waiter-Unqueued txn m u.1)

-- For a transaction that stands in no queue detectCycle reports nothing, whatever cycle its next
-- request would close: so a check before the request is queued never finds a deadlock.
pub detect_cycle-Unqueued :
    (lm : LockManager) (txn : ℕ) → Unqueued txn lm.waiters → detect_cycle lm txn ≡ none
unfolding detect_cycle waiter_table
detect_cycle-Unqueued lm txn u = rw (find_waiter-Unqueued txn lm.waiters u)
