-- ===== src/HaMqtt/Publish/Kept.antt =====
-- What a property of the publisher needs to hold on through the publication of an account or a zone.
use ajax_bridge.Prelude.{
  Bool, true, false, none, some, List, [], ◌∷◌, if◌then◌else◌, Bytes, eqb, Bool-cases, Option-cases,
  inl, inr,
}
use ajax_bridge.Dict.{Dict, get}
use ajax_bridge.State.Accounts.{Account}
use ajax_bridge.State.Zones.{Zone}
use ajax_bridge.HaMqtt.Plans.{
  DiscoveryMessage, AccountPlan, ZonePlan, zone_plan_key, zone_discovery_signature,
}
use ajax_bridge.HaMqtt.Publish.{
  Publisher, Outside, Outcome, and_then, publish_state, publish_discovery_message, publish_messages,
  announce, publish_both, account_plan_for, new_zone_plan, zone_plan_for, publish_open_account,
  publish_open_zone,
}

module _ (outside : Outside) (P : Publisher → Type 0)
    (state-kept : (topic payload : Bytes) (retain : Bool) (p : Publisher)
      → P p
      → P (publish_state outside topic payload retain p).1)
    (discovery-kept : (m : DiscoveryMessage) (p : Publisher)
      → P p
      → P (publish_discovery_message outside m p).1)
    (plans-kept : (accounts : Dict AccountPlan) (zones : Dict ZonePlan) (p : Publisher)
      → P p
      → P (record p { account_plans = accounts; zone_plans = zones })) where
  and_then-kept :
      (o : Outcome) (next : Publisher → Outcome)
      → P o.1
      → ((p : Publisher) → P p → P (next p).1)
      → P (and_then o next).1
  and_then-kept (none, p) next h k = k p h
  and_then-kept (some why, p) next h k = h

  if-kept : (b : Bool) (x y : Outcome) → P x.1 → P y.1 → P (if b then x else y).1
  if-kept true x y h k = h
  if-kept false x y h k = k

  messages-kept :
      (ms : List DiscoveryMessage) (p : Publisher) → P p → P (publish_messages outside ms p).1
  unfolding publish_messages
  messages-kept [] p h = h
  messages-kept (m ∷ ms) p h =
      and_then-kept (publish_discovery_message outside m p) (publish_messages outside ms)
        (discovery-kept m p h) (messages-kept ms)

  announce-kept :
      (cleanup messages : List DiscoveryMessage) (p : Publisher)
      → P p
      → P (announce outside cleanup messages p).1
  unfolding announce
  announce-kept cleanup messages p h =
      if-kept p.cfg.discovery _ (none, p)
        (and_then-kept (publish_messages outside cleanup p) (publish_messages outside messages)
          (messages-kept cleanup p h) (messages-kept messages))
        h

  both-kept :
      (state_topic payload attributes_topic attributes : Bytes) (p : Publisher)
      → P p
      → P (publish_both outside state_topic payload attributes_topic attributes p).1
  unfolding publish_both
  both-kept state_topic payload attributes_topic attributes p h =
      and_then-kept (publish_state outside state_topic payload p.cfg.retain p)
        (publish_state outside attributes_topic attributes true)
        (state-kept state_topic payload p.cfg.retain p h)
        (state-kept attributes_topic attributes true)

  account_plan-kept : (a : Account) (p : Publisher) → P p → P (account_plan_for outside a p).1
  unfolding account_plan_for
  account_plan-kept a p h = elim (Option-cases (get a.account p.account_plans)) [
    | inl n ↦ rw n (plans-kept _ p.zone_plans p h)
    | inr (plan, e) ↦ rw e h
  ]

  zone_plan-kept : (z : Zone) (p : Publisher) → P p → P (zone_plan_for outside z p).1
  unfolding zone_plan_for new_zone_plan
  zone_plan-kept z p h = elim (Option-cases (get (zone_plan_key z.account z.zone) p.zone_plans)) [
    | inl n ↦ rw n (plans-kept p.account_plans _ p h)
    | inr (plan, e) ↦ rw e (elim (Bool-cases (eqb plan.signature (zone_discovery_signature z))) [
      | inl t ↦ rw t h
      | inr f ↦ rw f (plans-kept p.account_plans _ p h)
    ])
  ]

  pub open_account-kept :
      (a : Account) (p : Publisher) → P p → P (publish_open_account outside a p).1
  unfolding publish_open_account
  open_account-kept a p h =
      let planned = account_plan_for outside a p in
      and_then-kept (announce outside planned.0.cleanup planned.0.discovery planned.1) _
        (announce-kept planned.0.cleanup planned.0.discovery planned.1 (account_plan-kept a p h))
        (both-kept _ _ _ _)

  pub open_zone-kept : (z : Zone) (p : Publisher) → P p → P (publish_open_zone outside z p).1
  unfolding publish_open_zone
  open_zone-kept z p h =
      let planned = zone_plan_for outside z p in
      and_then-kept (announce outside planned.0.cleanup planned.0.discovery planned.1) _
        (announce-kept planned.0.cleanup planned.0.discovery planned.1 (zone_plan-kept z p h))
        (both-kept _ _ _ _)
