-- ===== src/Discovery/Query/Builder.antt =====
-- The cached filter expression of a query is the one that its metadata and its filter make.
use consulx.Prelude.{List, [], ◌∷◌, Text, ◌≡◌, refl}
use consulx.Discovery.Query.{
  Query, Consistency, service, filter_expr, with_meta, with_filter, with_tags, only_passing,
  any_status, datacenter, namespace, partition, near, consistency, cached,
}

-- One call of a builder method.
pub data Call : Type 0 where
  tag : List Text → Call
  meta : Text → Text → Call
  filter : Text → Call
  passing_only status_any cache_use : Call
  dc ns part close_to : Text → Call
  mode : Consistency → Call

module _ (quote_text : Text → Text) where
  pub apply : Call → Query → Query
  apply (tag ts) q = with_tags q ts
  apply (meta k v) q = with_meta quote_text q k v
  apply (filter e) q = with_filter quote_text q e
  apply passing_only q = only_passing q
  apply status_any q = any_status q
  apply cache_use q = cached q
  apply (dc t) q = datacenter q t
  apply (ns t) q = namespace q t
  apply (part t) q = partition q t
  apply (close_to t) q = near q t
  apply (mode m) q = consistency q m

  pub apply_all : List Call → Query → Query
  apply_all [] q = q
  apply_all (c ∷ cs) q = apply_all cs (apply c q)

  abbrev IsCurrent : Query → Type 0
  IsCurrent q = q.expr ≡ filter_expr quote_text q.meta q.filter

  apply-IsCurrent : (c : Call) (q : Query) → IsCurrent q → IsCurrent (apply c q)
  unfolding apply with_meta with_filter
  apply-IsCurrent (meta k v) q h = refl
  apply-IsCurrent (filter e) q h = refl
  apply-IsCurrent (tag ts) q h = h
  apply-IsCurrent passing_only q h = h
  apply-IsCurrent status_any q h = h
  apply-IsCurrent cache_use q h = h
  apply-IsCurrent (dc t) q h = h
  apply-IsCurrent (ns t) q h = h
  apply-IsCurrent (part t) q h = h
  apply-IsCurrent (close_to t) q h = h
  apply-IsCurrent (mode m) q h = h

  apply_all-IsCurrent : (cs : List Call) (q : Query) → IsCurrent q → IsCurrent (apply_all cs q)
  unfolding apply_all
  apply_all-IsCurrent [] q h = h
  apply_all-IsCurrent (c ∷ cs) q h = apply_all-IsCurrent cs (apply c q) (apply-IsCurrent c q h)

  -- After any calls of the builder methods, in any order, the expression that a request sends is
  -- the one of the query's metadata and filter.
  pub apply_all_expr :
      (cs : List Call) (name : Text)
      → (apply_all cs (service name)).expr
        ≡ filter_expr quote_text
            (apply_all cs (service name)).meta
            (apply_all cs (service name)).filter
  apply_all_expr cs name =
      apply_all-IsCurrent cs (service name) (unfold service filter_expr in refl)
