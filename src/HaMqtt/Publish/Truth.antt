-- ===== src/HaMqtt/Publish/Truth.antt =====
-- The caches tell the truth: what stands in one is what the client took last for that topic.
use ajax_bridge.Prelude.{
  ℕ, Bool, true, false, ◌&&◌, Option, none, some, List, [], ◌∷◌, if◌then◌else◌, Bytes, eqb, ◌≡◌,
  refl, arith, Bool-cases, Option-cases, inl, inr,
}
use ajax_bridge.Dict.{Dict, get, put, delete, get-put, get-delete}
use ajax_bridge.State.Accounts.{Account}
use ajax_bridge.State.Zones.{Zone}
use ajax_bridge.HaMqtt.Plans.{DiscoveryMessage, AccountPlan, ZonePlan}
use ajax_bridge.HaMqtt.Publish.{
  Kind, state, discovery, plain, Attempt, Publisher, Outside, Outcome, is_cached,
  begin_state_publish, account_gate, zone_gate, publish, publish_state, publish_discovery_message,
  publish_open_account, publish_open_zone, publish_account, publish_zone, publish_accounts,
  publish_zones, publish_update, collect, through,
}
use ajax_bridge.HaMqtt.Publish.Kept.{open_account-kept, open_zone-kept}

abbrev pub same_kind : Kind → Kind → Bool
same_kind state state = true
same_kind discovery discovery = true
same_kind plain plain = true
same_kind _ _ = false

abbrev pub payload_of : Attempt → Option Bytes → Option Bytes
payload_of a none = some a.payload
payload_of a (some why) = none

-- What the client took last for the topic: the payload of the latest attempt, if it had no error.
unfoldable pub last_taken : Kind → Bytes → List Attempt → Option Bytes
last_taken kind topic [] = none
last_taken kind topic (a ∷ attempts) =
    let before = last_taken kind topic attempts in
    if same_kind a.kind kind && eqb a.topic topic then payload_of a a.error else before

pub record IsTrue (p : Publisher) : Type 0 where
  pub states :
      (topic payload : Bytes)
      → get topic p.published_states ≡ some payload
      → last_taken state topic p.attempts ≡ some payload
  pub discoveries :
      (topic payload : Bytes)
      → get topic p.discovered ≡ some payload
      → last_taken discovery topic p.attempts ≡ some payload

-- A cache for one kind of message, and the attempts.
abbrev Agrees : Kind → Dict Bytes → List Attempt → Type 0
Agrees kind cache attempts =
    (topic payload : Bytes)
    → get topic cache ≡ some payload
    → last_taken kind topic attempts ≡ some payload

module _ (kind : Kind) (cache : Dict Bytes) (attempts : List Attempt)
    (h : Agrees kind cache attempts) where
  other-Agrees : (a : Attempt) → same_kind a.kind kind ≡ false → Agrees kind cache (a ∷ attempts)
  unfolding last_taken
  other-Agrees a d t v e = rw d (h t v e)

  taken-Agrees :
      (a : Attempt)
      → same_kind a.kind kind ≡ true
      → a.error ≡ none
      → Agrees kind (put a.topic a.payload cache) (a ∷ attempts)
  unfolding last_taken
  taken-Agrees a d n t v e = ground (arith, get-put a.topic t a.payload cache, h t v)

  refused-Agrees :
      (a : Attempt) (why : Bytes)
      → same_kind a.kind kind ≡ true
      → a.error ≡ some why
      → Agrees kind (delete a.topic (put a.topic a.payload cache)) (a ∷ attempts)
  unfolding last_taken
  refused-Agrees a why d s t v e = ground (
    arith,
    get-delete a.topic t (put a.topic a.payload cache),
    get-put a.topic t a.payload cache,
    h t v,
  )

module _ (outside : Outside) where
  state-IsTrue :
      (topic payload : Bytes) (retain : Bool) (p : Publisher)
      → IsTrue p
      → IsTrue (publish_state outside topic payload retain p).1
  unfolding publish_state publish
  state-IsTrue topic payload retain p h =
      elim (Bool-cases (is_cached payload (get topic p.published_states))) [
        | inl t ↦ rw t h
        | inr f ↦
            let outcome = outside.client p.attempts topic payload retain in
            let attempt : Option Bytes → Attempt = λ e. record {
              kind = state;
              topic = topic;
              payload = payload;
              retain = retain;
              error = e;
            } in
            elim (Option-cases outcome) [
              | inl n ↦
                  rw (f, n)
                    record {
                      states =
                          taken-Agrees state p.published_states p.attempts h.states (attempt none)
                            refl refl;
                      discoveries =
                          other-Agrees discovery p.discovered p.attempts h.discoveries
                            (attempt none) refl;
                    }
              | inr (why, e) ↦
                  rw (f, e)
                    record {
                      states =
                          refused-Agrees state p.published_states p.attempts h.states
                            (attempt (some why)) why refl refl;
                      discoveries =
                          other-Agrees discovery p.discovered p.attempts h.discoveries
                            (attempt (some why)) refl;
                    }
            ]
      ]

  discovery-IsTrue :
      (m : DiscoveryMessage) (p : Publisher)
      → IsTrue p
      → IsTrue (publish_discovery_message outside m p).1
  unfolding publish_discovery_message publish
  discovery-IsTrue m p h = elim (Bool-cases (is_cached m.payload (get m.topic p.discovered))) [
    | inl t ↦ rw t h
    | inr f ↦
        let outcome = outside.client p.attempts m.topic m.payload true in
        let attempt : Option Bytes → Attempt = λ e. record {
          kind = discovery;
          topic = m.topic;
          payload = m.payload;
          retain = true;
          error = e;
        } in
        elim (Option-cases outcome) [
          | inl n ↦
              rw (f, n)
                record {
                  states =
                      other-Agrees state p.published_states p.attempts h.states (attempt none) refl;
                  discoveries =
                      taken-Agrees discovery p.discovered p.attempts h.discoveries (attempt none)
                        refl refl;
                }
          | inr (why, e) ↦
              rw (f, e)
                record {
                  states =
                      other-Agrees state p.published_states p.attempts h.states (attempt (some why))
                        refl;
                  discoveries =
                      refused-Agrees discovery p.discovered p.attempts h.discoveries
                        (attempt (some why)) why refl refl;
                }
        ]
  ]

  plans-IsTrue :
      (accounts : Dict AccountPlan) (zones : Dict ZonePlan) (p : Publisher)
      → IsTrue p
      → IsTrue (record p { account_plans = accounts; zone_plans = zones })
  plans-IsTrue accounts zones p h = record { states = h.states; discoveries = h.discoveries }

  through-IsTrue :
      (p : Publisher) (body : Publisher → Outcome) (key : Bytes) (revision : ℕ)
      → ((q : Publisher) → IsTrue q → IsTrue (body q).1)
      → IsTrue p
      → IsTrue (through outside p body (begin_state_publish key revision p)).1
  unfolding begin_state_publish
  through-IsTrue p body key revision k h = ground (
    arith,
    k (record p { state_gates = put key revision p.state_gates })
        (record { states = h.states; discoveries = h.discoveries }),
  )

  account-IsTrue :
      (revision : ℕ) (a : Account) (p : Publisher)
      → IsTrue p
      → IsTrue (publish_account outside revision a p).1
  unfolding publish_account
  account-IsTrue revision a p h =
      through-IsTrue p (publish_open_account outside a) (account_gate a) revision
        (open_account-kept outside IsTrue state-IsTrue discovery-IsTrue plans-IsTrue a) h

  zone-IsTrue :
      (revision : ℕ) (z : Zone) (p : Publisher)
      → IsTrue p
      → IsTrue (publish_zone outside revision z p).1
  unfolding publish_zone
  zone-IsTrue revision z p h =
      through-IsTrue p (publish_open_zone outside z) (zone_gate z) revision
        (open_zone-kept outside IsTrue state-IsTrue discovery-IsTrue plans-IsTrue z) h

  collect-IsTrue :
      (o : Outcome) (next : Publisher → List Bytes × Publisher)
      → IsTrue o.1
      → ((p : Publisher) → IsTrue p → IsTrue (next p).1)
      → IsTrue (collect o next).1
  collect-IsTrue (none, p) next h k = k p h
  collect-IsTrue (some why, p) next h k = k p h

  zones-IsTrue :
      (revision : ℕ) (zs : List Zone) (p : Publisher)
      → IsTrue p
      → IsTrue (publish_zones outside revision zs p).1
  unfolding publish_zones
  zones-IsTrue revision [] p h = h
  zones-IsTrue revision (z ∷ zs) p h =
      collect-IsTrue (publish_zone outside revision z p) (publish_zones outside revision zs)
        (zone-IsTrue revision z p h) (zones-IsTrue revision zs)

  accounts-IsTrue :
      (revision : ℕ) (rest : List Account) (zs : List Zone) (p : Publisher)
      → IsTrue p
      → IsTrue (publish_accounts outside revision rest zs p).1
  unfolding publish_accounts
  accounts-IsTrue revision [] zs p h = zones-IsTrue revision zs p h
  accounts-IsTrue revision (a ∷ rest) zs p h =
      collect-IsTrue (publish_account outside revision a p)
        (publish_accounts outside revision rest zs) (account-IsTrue revision a p h)
        (accounts-IsTrue revision rest zs)

  -- Through every update, whatever the client answers, the caches of the publisher stay true: a payload
  -- that stands in a cache is the one that the client took last for that topic and kind of message.
  pub publish_update-IsTrue :
      (stopped : Option Bytes) (connected : Bool) (revision : ℕ) (accounts : List Account)
      (zs : List Zone) (p : Publisher)
      → IsTrue p
      → IsTrue (publish_update outside stopped connected revision accounts zs p).1
  unfolding publish_update
  publish_update-IsTrue none connected revision accounts zs p h =
      ground (arith, accounts-IsTrue revision accounts zs p h)
  publish_update-IsTrue (some why) connected revision accounts zs p h = ground (arith, h)
