-- ===== src/FakeConsul/Serve.antt =====
-- internal/fakeconsul/fakeconsul.go: one HTTP request, from its path to its handler.
use consulx.Prelude.{
  ℕ, Bool, true, false, List, [], ◌∷◌, ◌++◌, Option, none, some, Text, codes, text_eq,
  if◌then◌else◌, ◌==◌,
}
use consulx.NetAddr.{has_prefix}
use consulx.KvConfig.{trim_prefix}
use consulx.FakeConsul.{
  Agent, Registration, Body, register, deregister, set_maintenance, update_ttl,
}
use consulx.FakeConsul.Reads.{Wake, Read, kv_read, health_service, get_service}

pub data Method : Type 0 where
  get put another : Method

-- A request with what its handler reads of it. `after_hang` is the state when the partition ends, if the
-- client is still there then.
pub record Request : Type 0 where
  pub method : Method
  pub path : Text
  pub token : Text
  pub body : Body
  pub enable : Bool
  pub reason : Text
  pub status : Text
  pub output : Text
  pub want : ℕ
  pub hash : Text
  pub only_keys : Bool
  pub passing : Bool
  pub tags : List Text
  pub wakes : List Wake
  pub after_hang : Option Agent

pub data Answer : Type 0 where
  code : ℕ → Answer
  read : Read → Answer
  leader : Answer
  self_info : Text → Answer  -- the version
  nothing : Answer  -- the client is gone

unfoldable pub self : Agent → Answer
self a = if a.forbid_self then code 403 else self_info a.version

coded : Agent × ℕ → Agent × Answer
coded (a, n) = (a, code n)

abbrev is_get : Method → Bool
is_get get = true
is_get put = false
is_get another = false

abbrev is_put : Method → Bool
is_put get = false
is_put put = true
is_put another = false

module _ (scan : Text → Option (ℕ × ℕ)) (hash : Registration → Text) where
  -- The requests that are served for GET, in the order of the switch.
  got : Request → Agent → Answer
  unfolding self
  got r a =
      let under = λ (p : Text). trim_prefix p r.path in
      if text_eq r.path (codes "/v1/agent/self")
      then self a
      else if text_eq r.path (codes "/v1/status/leader")
      then leader
      else if has_prefix (codes "/v1/agent/service/") r.path
      then read (get_service hash (under (codes "/v1/agent/service/")) r.hash a r.wakes)
      else if has_prefix (codes "/v1/kv/") r.path
      then read (kv_read (under (codes "/v1/kv/")) r.only_keys r.want a r.wakes)
      else if has_prefix (codes "/v1/health/service/") r.path
      then read
          (health_service (under (codes "/v1/health/service/")) r.passing r.tags r.want a r.wakes)
      else code 404

  puts : Request → Agent → Agent × Answer
  unfolding coded
  puts r a =
      let under = λ (p : Text). trim_prefix p r.path in
      if text_eq r.path (codes "/v1/agent/service/register")
      then coded (register scan r.body a)
      else if has_prefix (codes "/v1/agent/service/deregister/") r.path
      then coded (deregister (under (codes "/v1/agent/service/deregister/")) a)
      else if has_prefix (codes "/v1/agent/service/maintenance/") r.path
      then coded
          (set_maintenance (under (codes "/v1/agent/service/maintenance/")) r.enable r.reason a)
      else if has_prefix (codes "/v1/agent/check/update/") r.path
      then coded (update_ttl (under (codes "/v1/agent/check/update/")) r.status r.output a)
      else (a, code 404)

  dispatch : Request → Method → Agent → Agent × Answer
  unfolding got puts
  dispatch r get a = (a, got r a)
  dispatch r put a = puts r a
  dispatch r another a = (a, code 404)

  -- Past the partition, with the failure that was set when the request came.
  answer_to : Request → ℕ → Agent → Agent × Answer
  unfolding dispatch
  answer_to r fail a = if fail == 0 then dispatch r r.method a else (a, code fail)

  unfoldable pub serve : Request → Agent → Agent × Answer
  unfolding answer_to
  serve r a =
      let seen : Agent = record a { tokens = a.tokens ++ (r.token ∷ []) } in
      if a.hanging
      then elim r.after_hang [ none ↦ (seen, nothing) | some b ↦ answer_to r a.fail_all b ]
      else answer_to r a.fail_all seen
