-- ===== src/Command.antt =====
-- includes/opendb/types/Command.hpp: the request that a front-end hands to the engine, with the
-- checks of its constructor. `W` is the type of its predicates.
pub mod Text
pub mod Examples
use open_db.Prelude.{ℕ, ◌⊎◌, inl, inr, Bool, Option, none, some, List, [], ◌∷◌, ◌++◌, Str, codes}
use open_db.Tuple.{Tuple}

pub data CommandType : Type 0 where
  select insert update delete : CommandType

pub data SortDirection : Type 0 where
  asc desc : SortDirection

pub record OrderBySpec : Type 0 where
  pub column : Str
  pub direction : SortDirection
  pub nulls_first : Option Bool

pub data JoinKind : Type 0 where
  inner left : JoinKind

pub record JoinClause : Type 0 where
  pub kind : JoinKind
  pub table : Str
  pub left_column : Str
  pub right_column : Str

pub record Command (W : Type 0) : Type 0 where
  pub type : CommandType
  pub table : Str
  pub filter : Option W
  pub values : Option Tuple
  pub projections : List Str
  pub order_by : List OrderBySpec
  pub joins : List JoinClause
  pub limit : Option ℕ
  pub offset : Option ℕ
  pub txn_id : Option ℕ

module _ {W : Type 0} where
  -- validate(): the message of the exception, if one is thrown.
  unfoldable pub validate : CommandType → Option W → Option Tuple → Option Str
  validate insert filter none = some (codes "Insert requires values")
  validate insert (some w) (some t) = some (codes "Insert must not carry WHERE")
  validate insert none (some t) = none
  validate update none values = some (codes "Update requires WHERE")
  validate update (some w) none = some (codes "Update requires values")
  validate update (some w) (some t) = none
  validate delete none values = some (codes "Delete requires WHERE")
  validate delete (some w) (some t) = some (codes "Delete must not carry values")
  validate delete (some w) none = none
  validate select filter values = none

  checked : Option Str → Command W → Str ⊎ Command W
  checked none command = inr command
  checked (some message) command = inl message

  -- The constructor with five arguments; the left side is the message of its exception.
  unfoldable pub make_command :
      CommandType → Str → Option W → Option Tuple → List Str → Str ⊎ Command W
  unfolding checked
  make_command type table filter values projections =
      checked (validate type filter values) (record {
        type = type;
        table = table;
        filter = filter;
        values = values;
        projections = projections;
        order_by = [];
        joins = [];
        limit = none;
        offset = none;
        txn_id = none;
      })

  abbrev pub with_order_by : Command W → List OrderBySpec → Command W
  with_order_by c v = record c { order_by = v }

  abbrev pub with_limit : Command W → ℕ → Command W
  with_limit c v = record c { limit = some v }

  abbrev pub with_offset : Command W → ℕ → Command W
  with_offset c v = record c { offset = some v }

  abbrev pub with_join : Command W → JoinClause → Command W
  with_join c j = record c { joins = c.joins ++ j ∷ [] }
