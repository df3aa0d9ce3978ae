-- ===== src/Discovery/Query.antt =====
-- discovery/discovery.go: the query builder, the request that a query sends, and All and First on
-- the answer of the official client.
pub mod Builder
use consulx.Prelude.{
  ℕ, ◌+◌, Bool, true, false, ◌&&◌, List, [], ◌∷◌, ◌++◌, map, Text, codes, is_empty, if◌then◌else◌,
}
use consulx.Prelude.Dict.{Dict, insert, keys, lookup}
use consulx.Prelude.Sort
use consulx.Prelude.TextOrder.{text_leq}
use consulx.Discovery.Instance.{ServiceInstance, ServiceEntry, from_entry}
use consulx.Discovery.Order.{sort_instances}

pub data Consistency : Type 0 where
  default_mode stale consistent : Consistency

pub record Query : Type 0 where
  pub name : Text
  pub tags : List Text
  pub meta : Dict Text
  pub filter : Text
  pub expr : Text
  pub passing : Bool
  pub dc : Text
  pub ns : Text
  pub partition : Text
  pub near : Text
  pub consistency : Consistency
  pub use_cache : Bool

unfoldable pub service : Text → Query
service name = record {
  name = name;
  tags = [];
  meta = [];
  filter = [];
  expr = [];
  passing = true;
  dc = [];
  ns = [];
  partition = [];
  near = [];
  consistency = default_mode;
  use_cache = false;
}

-- `strings.Join`.
unfoldable pub join : Text → List Text → Text
join sep [] = []
join sep (t ∷ []) = t
join sep (t ∷ (u ∷ us)) = t ++ (sep ++ join sep (u ∷ us))

-- `strconv.Quote` is a parameter: it escapes by Unicode tables.
module _ (quote_text : Text → Text) where
  meta_part : Dict Text → Text → List Text
  meta_part meta k = elim (lookup k meta) [
    | mathlib.Core.Option.none ↦ []
    | mathlib.Core.Option.some v ↦
        (codes "Service.Meta[" ++ (quote_text k ++ (codes "] == " ++ quote_text v))) ∷ []
  ]

  meta_parts : Dict Text → List Text → List Text
  meta_parts meta [] = []
  meta_parts meta (k ∷ ks) = meta_part meta k ++ meta_parts meta ks

  parenthesised : Text → List Text
  parenthesised [] = []
  parenthesised (c ∷ cs) = (b'(' ∷ ((c ∷ cs) ++ (b')' ∷ []))) ∷ []

  unfoldable pub filter_expr : Dict Text → Text → Text
  unfolding meta_parts meta_part parenthesised join
  filter_expr meta filter =
      if is_empty meta && is_empty filter
      then []
      else join (codes " and ")
          (meta_parts meta (Sort.sort text_leq (keys meta)) ++ parenthesised filter)

  unfoldable pub with_meta : Query → Text → Text → Query
  with_meta q key value =
      let meta = insert key value q.meta in
      record q { meta = meta; expr = filter_expr meta q.filter }

  add_filter : Text → Text → Text
  add_filter [] expr = expr
  add_filter (c ∷ cs) expr = b'(' ∷ ((c ∷ cs) ++ (codes ") and (" ++ (expr ++ (b')' ∷ []))))

  unfoldable pub with_filter : Query → Text → Query
  unfolding add_filter
  with_filter q expr =
      let filter = add_filter q.filter expr in
      record q { filter = filter; expr = filter_expr q.meta filter }

abbrev pub with_tags : Query → List Text → Query
with_tags q tags = record q { tags = q.tags ++ tags }

abbrev pub only_passing : Query → Query
only_passing q = record q { passing = true }

abbrev pub any_status : Query → Query
any_status q = record q { passing = false }

abbrev pub datacenter : Query → Text → Query
datacenter q dc = record q { dc = dc }

abbrev pub namespace : Query → Text → Query
namespace q ns = record q { ns = ns }

abbrev pub partition : Query → Text → Query
partition q p = record q { partition = p }

abbrev pub near : Query → Text → Query
near q node = record q { near = node }

abbrev pub consistency : Query → Consistency → Query
consistency q m = record q { consistency = m }

abbrev pub cached : Query → Query
cached q = record q { use_cache = true }

-- `api.QueryOptions`, the fields that ConsulX sets.
pub record QueryOptions : Type 0 where
  pub datacenter : Text
  pub namespace : Text
  pub partition : Text
  pub near : Text
  pub filter : Text
  pub allow_stale : Bool
  pub require_consistent : Bool
  pub use_cache : Bool
  pub wait_index : ℕ
  pub wait_time : ℕ

allows_stale : Consistency → Bool
allows_stale stale = true
allows_stale default_mode = false
allows_stale consistent = false

requires_consistent : Consistency → Bool
requires_consistent consistent = true
requires_consistent default_mode = false
requires_consistent stale = false

unfoldable pub options : Query → QueryOptions
unfolding allows_stale requires_consistent
options q = record {
  datacenter = q.dc;
  namespace = q.ns;
  partition = q.partition;
  near = q.near;
  filter = q.expr;
  allow_stale = allows_stale q.consistency;
  require_consistent = requires_consistent q.consistency;
  use_cache = false;
  wait_index = 0;
  wait_time = 0;
}

pub data QueryError : Type 0 where
  no_name : QueryError
  discover : Text → Text → QueryError  -- the service, and the cause
  not_found : Text → QueryError

-- What the official client answers to a health request.
pub data Answer : Type 0 where
  failed : Text → Answer
  entries : List ServiceEntry → ℕ → Answer  -- the entries, and the index of the response

pub data Found (A : Type 0) : Type 0 where
  found : A → Found A
  refused : QueryError → Found A

-- The instances of a response: sorted, unless `Near` asks for Consul's own order.
unfoldable pub from_entries : Query → List ServiceEntry → List ServiceInstance
from_entries q es =
    if is_empty q.near then sort_instances (map from_entry es) else map from_entry es

-- The client's `Health().ServiceMultipleTags(name, tags, passing, opts)`.
abbrev pub Health : Type 0
Health = Text → List Text → Bool → QueryOptions → Answer

all_of_answer : Query → Answer → Found (List ServiceInstance)
all_of_answer q (failed e) = refused (discover q.name e)
all_of_answer q (entries es index) = found (from_entries q es)

unfoldable pub all : Health → Query → Found (List ServiceInstance)
unfolding all_of_answer
all health q =
    if is_empty q.name
    then refused no_name
    else all_of_answer q
        (health q.name q.tags q.passing (record (options q) { use_cache = q.use_cache }))

first_of_all : Query → Found (List ServiceInstance) → Found ServiceInstance
first_of_all q (refused e) = refused e
first_of_all q (found []) = refused (not_found q.name)
first_of_all q (found (i ∷ is)) = found i

unfoldable pub first : Health → Query → Found ServiceInstance
unfolding first_of_all
first health q = first_of_all q (all health q)
