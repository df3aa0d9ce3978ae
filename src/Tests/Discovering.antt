-- ===== src/Tests/Discovering.antt =====
-- Discovery on concrete instances.
use consulx.Prelude.{
  false, List, [], ◌∷◌, none, Text, codes, ◌≡◌, ◌≢◌, inl, inr, refl, text_eq, text_eq_iff, sym, ap,
  ◌∙◌,
}
use consulx.Discovery.Instance.{ServiceInstance}
use consulx.Discovery.Order.{Identified}
use consulx.Discovery.Diff.{diff, key_eq}
use consulx.Discovery.Diff.Keys.{DistinctKeys}
use consulx.Discovery.Diff.Spec.{event_between, diff-event_between}
use consulx.Discovery.Snapshot.{instances}
use consulx.Discovery.Query.Builder.{Call, meta, filter}
use consulx.Discovery.Watch.{Config, start, handle, answered}
use consulx.Discovery.Watch.Coalesce.{System, Reach, Step, Leads, Reach-diff}
use consulx.Tests.{web1, web2, web3, webs}

web_distinct : DistinctKeys (web2 ∷ web3 ∷ [])
unfolding key_eq text_eq
web_distinct = ((refl, tt), (tt, tt))

diff-event_between_example :
    diff (web1 ∷ web2 ∷ []) (web2 ∷ web3 ∷ []) ≡ event_between (web1 ∷ web2 ∷ []) (web2 ∷ web3 ∷ [])
diff-event_between_example = diff-event_between (web1 ∷ web2 ∷ []) (web2 ∷ web3 ∷ []) web_distinct

abbrev id_of : ServiceInstance → Text
id_of i = i.id

differ : (a b : Text) → text_eq a b ≡ false → a ≡ b → ⊥
differ a b f e = let t = (text_eq_iff a b).1 e in cc (t, f)

ids_differ : web2.id ≢ web1.id
unfolding text_eq
ids_differ = differ web2.id web1.id refl

webs-Identified : Identified (web2 ∷ web1 ∷ [])
webs-Identified a b (inl e) (inl f) i n = cc (e, f)
webs-Identified a b (inl e) (inr (inl f)) i n =
    absurd (ids_differ (sym (ap id_of e) ∙ i ∙ ap id_of f))
webs-Identified a b (inr (inl e)) (inl f) i n =
    absurd (ids_differ (sym (ap id_of f) ∙ sym i ∙ ap id_of e))
webs-Identified a b (inr (inl e)) (inr (inl f)) i n = cc (e, f)
webs-Identified a b (inr (inr h)) k i n = absurd h
webs-Identified a b h (inr (inr k)) i n = absurd k

abbrev calls : List Call
calls = meta (codes "zone") (codes "eu") ∷ filter (codes "Service.Port == 80") ∷ []

abbrev config : Config
config = record { wait_time = 1000; retry = λ attempt. none }

abbrev first_response : System
first_response = record { watch = (handle config start (answered webs 5)).0; view = [] }

first_response-Reach : Reach config first_response
first_response-Reach =
    Reach.next Reach.begin (Step.respond (record { watch = start; view = [] }) (answered webs 5))

Reach-diff_example :
    Leads first_response.watch.events first_response.view (instances first_response.watch.current)
Reach-diff_example = Reach-diff first_response-Reach
