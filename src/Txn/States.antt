-- ===== src/Txn/States.antt =====
-- What one call of TransactionManager does to the state of each transaction.
use open_db.Prelude.{
  ℕ, ◌+◌, ◌≤◌, ◌<◌, ◌^◌, ◌≡◌, refl, ◌≢◌, ◌⊎◌, inl, inr, true, false, Option, none, some, arith,
  nat_eq, Option-cases,
}
use open_db.Prelude.Dict
use open_db.Prelude.Dict.{find-put}
use open_db.Txn.{
  State, active, committed, aborted, not_found, TransactionManager, begin_txn, commit_txn,
  abort_txn, get_state, visible_seq, incr64, is_active, or_not_found,
}

-- The states stored are those of identifiers handed out so far.
pub record IsValid (tm : TransactionManager) : Type 0 where
  pub known :
      (id : ℕ) (s : State)
      → Dict.find id tm.states ≡ some s
      → (0 < id) × (id ≤ tm.next_id) × (s ≢ not_found)

incr64_small : (n : ℕ) → n + 1 < 2 ^ 64 → incr64 n ≡ n + 1
incr64_small n h = omega arith

pub unknown :
    (tm : TransactionManager) (id : ℕ)
    → IsValid tm
    → tm.next_id < id
    → Dict.find id tm.states ≡ none
unknown tm id v h = elim (Option-cases (Dict.find id tm.states)) [
  | inl e ↦ e
  | inr (s, e) ↦ absurd (omega (arith, v.known id s e))
]

pub State-cases :
    (o : Option State) → (o ≡ some active) ⊎ ((or_not_found o ≢ active) × (is_active o ≡ false))
State-cases none = inr (λ e. cc, refl)
State-cases (some active) = inl refl
State-cases (some committed) = inr (λ e. cc, refl)
State-cases (some aborted) = inr (λ e. cc, refl)
State-cases (some not_found) = inr (λ e. cc, refl)

-- In a valid manager beginTxn hands out an identifier that had no state, makes it active, and
-- leaves the state of every other transaction and the commit sequence alone, as long as the
-- counter does not wrap.
pub begin_txn-fresh :
    (tm : TransactionManager)
    → IsValid tm
    → tm.next_id + 1 < 2 ^ 64
    → (get_state tm (begin_txn tm).1 ≡ not_found)
      × (get_state (begin_txn tm).0 (begin_txn tm).1 ≡ active)
      × ((j : ℕ) → j ≢ (begin_txn tm).1 → get_state (begin_txn tm).0 j ≡ get_state tm j)
      × (visible_seq (begin_txn tm).0 ≡ visible_seq tm)
unfolding begin_txn get_state visible_seq
begin_txn-fresh tm v h = (
  rw (unknown tm (incr64 tm.next_id) v (omega arith)),
  rw (Dict.find-put_self (incr64 tm.next_id) active tm.states),
  λ j ne. ground (arith, find-put (incr64 tm.next_id) j active tm.states),
  refl,
)

-- commitTxn succeeds exactly on an active transaction. It then makes it committed, counts it in
-- the commit sequence and leaves every other transaction alone; a refusal changes nothing.
pub commit_txn_cases :
    (tm : TransactionManager) (txn : ℕ)
    → ((get_state tm txn ≡ active)
        × ((commit_txn tm txn).1 ≡ true)
        × (get_state (commit_txn tm txn).0 txn ≡ committed)
        × ((j : ℕ) → j ≢ txn → get_state (commit_txn tm txn).0 j ≡ get_state tm j)
        × (visible_seq (commit_txn tm txn).0 ≡ incr64 (visible_seq tm)))
      ⊎ ((get_state tm txn ≢ active) × (commit_txn tm txn ≡ (tm, false)))
unfolding commit_txn get_state visible_seq
commit_txn_cases tm txn = elim (State-cases (Dict.find txn tm.states)) [
  | inl e ↦ inl (
    rw e,
    rw (e, commit_txn),
    rw (e, commit_txn) (rw (Dict.find-put_self txn committed tm.states)),
    λ j ne. rw (e, commit_txn) (ground (arith, find-put txn j committed tm.states)),
    rw (e, commit_txn),
  )
  | inr (f, g) ↦ inr (f, rw (g, commit_txn))
]

-- abortTxn succeeds exactly on an active transaction. It then makes it aborted and leaves every
-- other transaction and the commit sequence alone; a refusal changes nothing.
pub abort_txn_cases :
    (tm : TransactionManager) (txn : ℕ)
    → ((get_state tm txn ≡ active)
        × ((abort_txn tm txn).1 ≡ true)
        × (get_state (abort_txn tm txn).0 txn ≡ aborted)
        × ((j : ℕ) → j ≢ txn → get_state (abort_txn tm txn).0 j ≡ get_state tm j)
        × (visible_seq (abort_txn tm txn).0 ≡ visible_seq tm))
      ⊎ ((get_state tm txn ≢ active) × (abort_txn tm txn ≡ (tm, false)))
unfolding abort_txn get_state visible_seq
abort_txn_cases tm txn = elim (State-cases (Dict.find txn tm.states)) [
  | inl e ↦ inl (
    rw e,
    rw (e, abort_txn),
    rw (e, abort_txn) (rw (Dict.find-put_self txn aborted tm.states)),
    λ j ne. rw (e, abort_txn) (ground (arith, find-put txn j aborted tm.states)),
    rw (e, abort_txn),
  )
  | inr (f, g) ↦ inr (f, rw (g, abort_txn))
]
