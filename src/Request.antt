-- ===== src/Request.antt =====
-- The request of lmd/request.go and the parsers of its header lines.
pub mod Sort
pub mod Header
pub mod Reader
mod Tests
use lmd.Prelude.{
  ℕ, Bool, true, false, Option, none, some, List, [], ◌∷◌, Bytes, codes, Result, ok, err,
}
use lmd.Prelude.Int.{ℤ, pos, negsuc, leb_ℤ}
use lmd.Prelude.Dict.{Dict}
use lmd.Runtime.{Go}
use lmd.Filter.{Condition, Filter}

pub data SortDirection : Type 0 where
  asc desc : SortDirection

-- an `Index` of -1 marks the fake column of grouped statistics
pub record SortField : Type 0 where
  pub name : Bytes
  pub direction : SortDirection
  pub index : ℤ
  pub args : Bytes

module _ (go : Go) where
  pub record Request : Type 0 where
    pub table : Bytes
    pub command : Bytes
    pub columns : List Bytes
    pub filter : List (Filter go)
    pub filter_str : Bytes
    pub stats : List (Filter go)
    -- `none` is the nil map
    pub stats_result : Option (Dict (List (Condition go)))
    pub limit : ℤ
    pub offset : ℤ
    pub sort : List SortField
    pub response_fixed16 : Bool
    pub output_format : Bytes
    pub backends : List Bytes
    pub backends_map : Dict Bytes
    pub send_columns_header : Bool
    pub send_stats_data : Bool
    pub wait_timeout : ℤ
    pub wait_trigger : Bytes
    pub wait_condition : List (Filter go)
    pub wait_object : Bytes
    pub keep_alive : Bool

  abbrev pub no_request : Request
  no_request = record {
    table = [];
    command = [];
    columns = [];
    filter = [];
    filter_str = [];
    stats = [];
    stats_result = none;
    limit = pos 0;
    offset = pos 0;
    sort = [];
    response_fixed16 = false;
    output_format = [];
    backends = [];
    backends_map = [];
    send_columns_header = false;
    send_stats_data = false;
    wait_timeout = pos 0;
    wait_trigger = [];
    wait_condition = [];
    wait_object = [];
    keep_alive = false;
  }
