-- ===== src/Storage.antt =====
-- includes/opendb/contracts/IStorageEngine.hpp and types/DbError.hpp: what every storage engine offers.
-- An operation takes the engine's state and gives the new one; scan gives the rows that it emits.
pub mod Laws
use open_db.Prelude.{ℕ, Bool, true, false, Option, List, [], ◌∷◌, ◌++◌, Str, codes}
use open_db.Value.{Value}
use open_db.Tuple.{Tuple}

pub data DbErrorCode : Type 0 where
  not_found deadlock lock_busy lock_timeout query_timeout parse_error not_supported internal :
      DbErrorCode

pub record DbError : Type 0 where
  pub code : DbErrorCode
  pub message : Str

abbrev pub sentinel : DbError
sentinel = record { code = internal; message = [] }

-- message_.empty()
abbrev pub is_sentinel : DbError → Bool
is_sentinel e = elim e.message [ [] ↦ true | c ∷ cs ↦ false ]

abbrev error_name : DbErrorCode → Str
error_name not_found = codes "NotFound"
error_name deadlock = codes "Deadlock"
error_name lock_busy = codes "LockBusy"
error_name lock_timeout = codes "LockTimeout"
error_name query_timeout = codes "QueryTimeout"
error_name parse_error = codes "ParseError"
error_name not_supported = codes "NotSupported"
error_name internal = codes "Internal"

-- DbError::toString
abbrev pub error_to_string : DbError → Str
error_to_string e = error_name e.code ++ elim e.message [ [] ↦ [] | c ∷ cs ↦ codes ": " ++ c ∷ cs ]

pub record StorageEngine (S : Type 0) : Type 0 where
  pub get : S → ℕ → Str → Value → Option Tuple
  pub put : S → ℕ → Str → Value → Tuple → S × DbError
  pub remove : S → ℕ → Str → Value → S × DbError
  pub scan : S → ℕ → Str → List Tuple
  pub prepare : S → ℕ → S × DbError
  pub commit : S → ℕ → ℕ → S × DbError
  pub commit_alone : S → ℕ → S × DbError
  pub abort : S → ℕ → S × DbError
