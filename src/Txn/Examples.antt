-- ===== src/Txn/Examples.antt =====
-- TransactionManager on concrete inputs: two transactions, of which the first has committed.
use open_db.Prelude.{◌≡◌, refl, inl, false, List, [], ◌∷◌, arith}
use open_db.Prelude.Dict
use open_db.Txn.{
  TransactionManager, init, begin_txn, commit_txn, get_state, visible_seq, Call, begins, commits,
  aborts, step, run,
}
use open_db.Txn.History.{IsSound, run-init-IsSound, run_decided}

abbrev calls : List Call
calls = begins ∷ begins ∷ commits 1 ∷ []

abbrev manager : TransactionManager
manager = run init calls

manager-IsSound : IsSound manager
manager-IsSound = run-init-IsSound calls (omega arith)

run-init-IsSound_example : IsSound (run init (begins ∷ begins ∷ commits 1 ∷ []))
run-init-IsSound_example = run-init-IsSound (begins ∷ begins ∷ commits 1 ∷ []) (omega arith)

run_decided_example :
    get_state (run manager (aborts 1 ∷ commits 1 ∷ begins ∷ [])) 1 ≡ get_state manager 1
unfolding run step commit_txn Dict.find begin_txn Dict.put init get_state
run_decided_example =
    run_decided manager (aborts 1 ∷ commits 1 ∷ begins ∷ []) 1 (omega arith) manager-IsSound
      (inl refl)

second_commit_refused : (commit_txn manager 1).1 ≡ false
unfolding commit_txn Dict.find run step begin_txn Dict.put init
second_commit_refused = refl

commits_counted : visible_seq manager ≡ 1
unfolding visible_seq run step commit_txn Dict.find begin_txn Dict.put init
commits_counted = refl
