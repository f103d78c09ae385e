-- ===== src/Txn.antt =====
-- includes/opendb/core/TransactionManager.hpp: identifiers, the state of each transaction and the
-- commit sequence. The mutex makes each method one step; a history is a list of calls.
pub mod States
pub mod History
pub mod Examples
use open_db.Prelude.{ℕ, ◌+◌, ◌%◌, ◌^◌, Bool, true, false, Option, none, some, List, [], ◌∷◌, nat_eq}
use open_db.Prelude.Dict
use open_db.Prelude.Dict.{Dict}

pub data State : Type 0 where
  active committed aborted not_found : State

pub record TransactionManager : Type 0 where
  pub next_id : ℕ
  pub commit_seq : ℕ
  pub states : Dict ℕ State

unfoldable pub init : TransactionManager
init = record { next_id = 0; commit_seq = 0; states = [] }

-- `++n` on a uint64_t
abbrev pub incr64 : ℕ → ℕ
incr64 n = (n + 1) % 2 ^ 64

unfoldable pub begin_txn : TransactionManager → TransactionManager × ℕ
begin_txn tm =
    let next = incr64 tm.next_id in
    (record tm { next_id = next; states = Dict.put next active tm.states }, next)

-- The test that commitTxn and abortTxn share.
abbrev pub is_active : Option State → Bool
is_active (some active) = true
is_active (some committed) = false
is_active (some aborted) = false
is_active (some not_found) = false
is_active none = false

unfoldable pub commit_txn : TransactionManager → ℕ → TransactionManager × Bool
commit_txn tm txn = elim (is_active (Dict.find txn tm.states)) [
  | false ↦ (tm, false)
  | true ↦ (
    record tm { states = Dict.put txn committed tm.states; commit_seq = incr64 tm.commit_seq },
    true,
  )
]

unfoldable pub abort_txn : TransactionManager → ℕ → TransactionManager × Bool
abort_txn tm txn = elim (is_active (Dict.find txn tm.states)) [
  | false ↦ (tm, false)
  | true ↦ (record tm { states = Dict.put txn aborted tm.states }, true)
]

abbrev pub or_not_found : Option State → State
or_not_found none = not_found
or_not_found (some s) = s

unfoldable pub get_state : TransactionManager → ℕ → State
get_state tm txn = or_not_found (Dict.find txn tm.states)

unfoldable pub visible_seq : TransactionManager → ℕ
visible_seq tm = tm.commit_seq

-- One call of the interface by some thread.
pub data Call : Type 0 where
  begins : Call
  commits aborts : ℕ → Call

pub step : TransactionManager → Call → TransactionManager
step tm begins = (begin_txn tm).0
step tm (commits txn) = (commit_txn tm txn).0
step tm (aborts txn) = (abort_txn tm txn).0

pub run : TransactionManager → List Call → TransactionManager
run tm [] = tm
run tm (c ∷ cs) = run (step tm c) cs
