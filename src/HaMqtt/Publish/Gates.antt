-- ===== src/HaMqtt/Publish/Gates.antt =====
-- The gates of the publisher: what opens one and what passes it.
use ajax_bridge.Prelude.{
  ℕ, ◌≤◌, ◌<◌, Bool, true, none, some, ltb, if◌then◌else◌, Bytes, eqb, eqb_iff, eqb_refl, ◌≡◌, refl,
  ap, arith, Bool-cases, Option-cases, inl, inr,
}
use ajax_bridge.Dict.{Dict, get, put, get-put}
use ajax_bridge.State.Accounts.{Account}
use ajax_bridge.State.Zones.{Zone}
use ajax_bridge.HaMqtt.Plans.{DiscoveryMessage}
use ajax_bridge.HaMqtt.Publish.{
  Publisher, Outside, Outcome, is_cached, latest, begin_state_publish, account_gate, zone_gate,
  publish, publish_state, publish_discovery_message, publish_open_account, publish_open_zone,
  publish_account, publish_zone, through,
}
use ajax_bridge.HaMqtt.Publish.Kept.{open_account-kept, open_zone-kept}

abbrev pub gate_of : Bytes → Publisher → ℕ
gate_of key p = latest (get key p.state_gates)

module _ (outside : Outside) where
  pub state-gates :
      (gates : Dict ℕ) (topic payload : Bytes) (retain : Bool) (p : Publisher)
      → p.state_gates ≡ gates
      → (publish_state outside topic payload retain p).1.state_gates ≡ gates
  unfolding publish_state publish
  state-gates gates topic payload retain p h =
      elim (Bool-cases (is_cached payload (get topic p.published_states))) [
        | inl t ↦ rw t h
        | inr f ↦ elim (Option-cases (outside.client p.attempts topic payload retain)) [
          | inl n ↦ rw (f, n) h
          | inr (why, e) ↦ rw (f, e) h
        ]
      ]

  pub discovery-gates :
      (gates : Dict ℕ) (m : DiscoveryMessage) (p : Publisher)
      → p.state_gates ≡ gates
      → (publish_discovery_message outside m p).1.state_gates ≡ gates
  unfolding publish_discovery_message publish
  discovery-gates gates m p h = elim (Bool-cases (is_cached m.payload (get m.topic p.discovered))) [
    | inl t ↦ rw t h
    | inr f ↦ elim (Option-cases (outside.client p.attempts m.topic m.payload true)) [
      | inl n ↦ rw (f, n) h
      | inr (why, e) ↦ rw (f, e) h
    ]
  ]

  abbrev HasGates : Dict ℕ → Publisher → Type 0
  HasGates gates p = p.state_gates ≡ gates

  open_account-gates :
      (a : Account) (p : Publisher)
      → (publish_open_account outside a p).1.state_gates ≡ p.state_gates
  open_account-gates a p =
      open_account-kept outside (HasGates p.state_gates) (state-gates p.state_gates)
        (discovery-gates p.state_gates) (λ accounts zones q h. h) a p refl

  open_zone-gates :
      (z : Zone) (p : Publisher) → (publish_open_zone outside z p).1.state_gates ≡ p.state_gates
  open_zone-gates z p =
      open_zone-kept outside (HasGates p.state_gates) (state-gates p.state_gates)
        (discovery-gates p.state_gates) (λ accounts zones q h. h) z p refl

  raised :
      (key k : Bytes) (revision : ℕ) (p : Publisher)
      → gate_of key p ≤ revision
      → gate_of k p ≤ latest (if eqb key k then some revision else get k p.state_gates)
  raised key k revision p h = elim (Bool-cases (eqb key k)) [
    | inl t ↦ rw (t, ← (eqb_iff key k).0 t) h
    | inr f ↦ rw f (omega arith)
  ]

  -- What passes a gate leaves its own revision or a newer one there, and no gate falls.
  through-gates :
      (body : Publisher → Outcome) (key k : Bytes) (revision : ℕ) (p : Publisher)
      → ((q : Publisher) → (body q).1.state_gates ≡ q.state_gates)
      → let after = (through outside p body (begin_state_publish key revision p)).1 in
        (revision ≤ gate_of key after) × (gate_of k p ≤ gate_of k after)
  unfolding begin_state_publish
  through-gates body key k revision p same =
      let opened = record p { state_gates = put key revision p.state_gates } in
      elim (Bool-cases (ltb revision (gate_of key p))) [
        | inl t ↦ rw t (ground arith, ground arith)
        | inr f ↦ rw f (
          rw (same opened, get-put key key revision p.state_gates, eqb_refl key) (ground arith),
          rw (same opened, get-put key k revision p.state_gates)
              (raised key k revision p (ground arith)),
        )
      ]

  pub late :
      (body : Publisher → Outcome) (key : Bytes) (revision : ℕ) (p : Publisher)
      → revision < gate_of key p
      → through outside p body (begin_state_publish key revision p) ≡ (none, p)
  unfolding begin_state_publish
  late body key revision p h =
      let closed : begin_state_publish key revision p ≡ none = ground arith in
      ap (through outside p body) closed

  pub account-gates :
      (revision : ℕ) (a : Account) (k : Bytes) (p : Publisher)
      → let after = (publish_account outside revision a p).1 in
        (revision ≤ gate_of (account_gate a) after) × (gate_of k p ≤ gate_of k after)
  unfolding publish_account
  account-gates revision a k p =
      through-gates (publish_open_account outside a) (account_gate a) k revision p
        (open_account-gates a)

  pub zone-gates :
      (revision : ℕ) (z : Zone) (k : Bytes) (p : Publisher)
      → let after = (publish_zone outside revision z p).1 in
        (revision ≤ gate_of (zone_gate z) after) × (gate_of k p ≤ gate_of k after)
  unfolding publish_zone
  zone-gates revision z k p =
      through-gates (publish_open_zone outside z) (zone_gate z) k revision p (open_zone-gates z)
