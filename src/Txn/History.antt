-- ===== src/Txn/History.antt =====
-- Histories of calls of TransactionManager: the invariant, the commit sequence, decided transactions.
use open_db.Prelude.{
  ℕ, suc, ◌+◌, ◌≤◌, ◌<◌, ◌%◌, ◌^◌, ◌≡◌, refl, ◌⊎◌, inl, inr, Option, none, some, List, [], ◌∷◌,
  arith, nat_eq, length, ap, ◌∙◌,
}
use open_db.Prelude.Dict
use open_db.Prelude.Dict.{Dict, find-put}
use open_db.Txn.{
  State, active, committed, aborted, not_found, TransactionManager, init, begin_txn, commit_txn,
  abort_txn, get_state, incr64, Call, begins, commits, aborts, step, run,
}
use open_db.Txn.States.{
  IsValid, State-cases, begin_txn-fresh, commit_txn_cases, abort_txn_cases, unknown,
}

-- The transactions that were committed.
pub count_committed : Dict ℕ State → ℕ
count_committed [] = 0
count_committed ((id, committed) ∷ m) = suc (count_committed m)
count_committed ((id, active) ∷ m) = count_committed m
count_committed ((id, aborted) ∷ m) = count_committed m
count_committed ((id, not_found) ∷ m) = count_committed m

abbrev weight : Option State → ℕ
weight (some committed) = 1
weight (some active) = 0
weight (some aborted) = 0
weight (some not_found) = 0
weight none = 0

count_committed-put :
    (id : ℕ) (s : State) (m : Dict ℕ State)
    → count_committed (Dict.put id s m) + weight (Dict.find id m)
      ≡ count_committed m + weight (some s)
unfolding count_committed Dict.put Dict.find
count_committed-put id s [] = ground arith
count_committed-put id s ((j, t) ∷ m) = ground (arith, count_committed-put id s m)

-- The state of a transaction in a history is consistent, and the commit sequence counts the
-- committed transactions.
pub record IsSound (tm : TransactionManager) : Type 0 where
  pub valid : IsValid tm
  pub counted : tm.commit_seq ≡ count_committed tm.states % 2 ^ 64

begin_txn-IsSound :
    (tm : TransactionManager) → tm.next_id + 1 < 2 ^ 64 → IsSound tm → IsSound (begin_txn tm).0
unfolding begin_txn
begin_txn-IsSound tm h v = record {
  valid = record {
    known = λ id s e.
        grind (arith, find-put (incr64 tm.next_id) id active tm.states, v.valid.known id s);
  };
  counted = omega (
    arith,
    v.counted,
    count_committed-put (incr64 tm.next_id) active tm.states,
    ap weight (unknown tm (incr64 tm.next_id) v.valid (omega arith)),
  );
}

commit_txn-IsSound :
    (tm : TransactionManager) (txn : ℕ) → IsSound tm → IsSound (commit_txn tm txn).0
unfolding commit_txn
commit_txn-IsSound tm txn v = elim (State-cases (Dict.find txn tm.states)) [
  | inl e ↦
      rw (e, commit_txn)
        (record {
          valid = record {
            known = λ id s f. grind (
              arith,
              find-put txn id committed tm.states,
              v.valid.known id s,
              v.valid.known txn active,
            );
          };
          counted =
              omega (arith, v.counted, count_committed-put txn committed tm.states, ap weight e);
        })
  | inr (f, g) ↦ rw (g, commit_txn) v
]

abort_txn-IsSound : (tm : TransactionManager) (txn : ℕ) → IsSound tm → IsSound (abort_txn tm txn).0
unfolding abort_txn
abort_txn-IsSound tm txn v = elim (State-cases (Dict.find txn tm.states)) [
  | inl e ↦
      rw (e, abort_txn)
        (record {
          valid = record {
            known = λ id s f. grind (
              arith,
              find-put txn id aborted tm.states,
              v.valid.known id s,
              v.valid.known txn active,
            );
          };
          counted =
              omega (arith, v.counted, count_committed-put txn aborted tm.states, ap weight e);
        })
  | inr (f, g) ↦ rw (g, abort_txn) v
]

step-IsSound :
    (tm : TransactionManager) (c : Call)
    → tm.next_id + 1 < 2 ^ 64
    → IsSound tm
    → IsSound (step tm c)
unfolding step
step-IsSound tm begins h v = begin_txn-IsSound tm h v
step-IsSound tm (commits txn) h v = commit_txn-IsSound tm txn v
step-IsSound tm (aborts txn) h v = abort_txn-IsSound tm txn v

-- One call hands out one identifier at most.
next_id-step-le : (tm : TransactionManager) (c : Call) → (step tm c).next_id ≤ tm.next_id + 1
unfolding step begin_txn commit_txn abort_txn
next_id-step-le tm begins = ground arith
next_id-step-le tm (commits txn) = ground arith
next_id-step-le tm (aborts txn) = ground arith

run-IsSound :
    (tm : TransactionManager) (cs : List Call)
    → tm.next_id + length cs < 2 ^ 64
    → IsSound tm
    → IsSound (run tm cs)
unfolding run
run-IsSound tm [] h v = v
run-IsSound tm (c ∷ cs) h v =
    run-IsSound (step tm c) cs (omega (arith, next_id-step-le tm c))
      (step-IsSound tm c (omega arith) v)

init-IsSound : IsSound init
unfolding init count_committed Dict.find
init-IsSound = record { valid = record { known = λ id s e. ground arith }; counted = refl }

-- From the initial manager, after fewer than 2^64 calls of any threads, every stored state
-- belongs to an identifier that was handed out, and visibleSeq() is the number of committed
-- transactions modulo 2^64.
pub run-init-IsSound : (cs : List Call) → length cs < 2 ^ 64 → IsSound (run init cs)
unfolding init
run-init-IsSound cs h = run-IsSound init cs (omega arith) init-IsSound

abbrev IsDecided : State → Type 0
IsDecided s = (s ≡ committed) ⊎ (s ≡ aborted)

step-decided :
    (tm : TransactionManager) (c : Call) (txn : ℕ)
    → tm.next_id + 1 < 2 ^ 64
    → IsSound tm
    → IsDecided (get_state tm txn)
    → get_state (step tm c) txn ≡ get_state tm txn
unfolding step
step-decided tm begins txn h v d =
    let fresh = begin_txn-fresh tm v.valid h in
    fresh.2 txn (λ e. ground (arith, ap (get_state tm) e, fresh.0))
step-decided tm (commits t) txn h v d = elim (commit_txn_cases tm t) [
  | inl c ↦ c.3 txn (λ e. ground (arith, ap (get_state tm) e))
  | inr c ↦ ap (λ r. get_state r.0 txn) c.1
]
step-decided tm (aborts t) txn h v d = elim (abort_txn_cases tm t) [
  | inl c ↦ c.3 txn (λ e. ground (arith, ap (get_state tm) e))
  | inr c ↦ ap (λ r. get_state r.0 txn) c.1
]

-- In a sound manager: once a transaction is committed or aborted, no later calls of any thread
-- change its state, as long as the identifiers do not wrap.
pub run_decided :
    (tm : TransactionManager) (cs : List Call) (txn : ℕ)
    → tm.next_id + length cs < 2 ^ 64
    → IsSound tm
    → IsDecided (get_state tm txn)
    → get_state (run tm cs) txn ≡ get_state tm txn
unfolding run
run_decided tm [] txn h v d = refl
run_decided tm (c ∷ cs) txn h v d =
    let same = step-decided tm c txn (omega arith) v d in
    run_decided (step tm c) cs txn (omega (arith, next_id-step-le tm c))
      (step-IsSound tm c (omega arith) v) (rw same d)
    ∙ same
