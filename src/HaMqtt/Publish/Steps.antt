-- ===== src/HaMqtt/Publish/Steps.antt =====
-- The calls that publish, one after the other: a publication that comes late does not go over a newer one.
use ajax_bridge.Prelude.{
  ℕ, ◌≤◌, ◌<◌, Bool, true, Option, none, some, is_empty, codes, ◌++◌, List, [], ◌∷◌, Bytes, ◌≡◌,
  refl, ap, ◌∙◌, arith, Bool-cases, Option-cases, inl, inr,
}
use ajax_bridge.Dict.{get}
use ajax_bridge.State.Accounts.{Account}
use ajax_bridge.State.Zones.{Zone}
use ajax_bridge.HaMqtt.Topics.{availability_topic}
use ajax_bridge.HaMqtt.Plans.{DiscoveryMessage}
use ajax_bridge.HaMqtt.Publish.{
  plain, Publisher, Outside, Outcome, latest, account_gate, zone_gate, publish, publish_state,
  publish_discovery_message, publish_open_account, publish_open_zone, publish_account, publish_zone,
  publish_accounts, publish_zones, publish_update, publish_state_message, publish_any_discovery,
  publish_command_message, replay_retained, reset_caches, and_then, collect,
}
use ajax_bridge.HaMqtt.Publish.Gates.{
  gate_of, late, account-gates, zone-gates, state-gates, discovery-gates,
}

-- A call of `PublishUpdate`.
pub record Update : Type 0 where
  pub stopped : Option Bytes
  pub connected : Bool
  pub revision : ℕ
  pub accounts : List Account
  pub zones : List Zone

-- A call of a method of the publisher that publishes: `PublishUpdate`, `PublishStateMessage`,
-- `PublishDiscoveryMessage`, `PublishCommandMessage`, and `ReplayRetained` with the updates that are replayed.
pub data Step : Type 0 where
  updated : Update → Step
  told : Bytes → Bytes → Bool → Step
  announced : DiscoveryMessage → Bool → Step
  commanded : Bytes → Bytes → Step
  replayed : Option Bytes → List Update → Step

module _ (outside : Outside) where
  -- Calls of `PublishUpdate`, one after the other.
  unfoldable pub publish_updates : List Update → Publisher → Publisher
  publish_updates [] p = p
  publish_updates (u ∷ us) p =
      publish_updates us
        (publish_update outside u.stopped u.connected u.revision u.accounts u.zones p).1

  unfoldable pub publish_step : Step → Publisher → Publisher
  publish_step (updated u) p = publish_updates (u ∷ []) p
  publish_step (told topic payload retain) p =
      (publish_state_message outside topic payload retain p).1
  publish_step (announced m retain) p = (publish_any_discovery outside m retain p).1
  publish_step (commanded topic payload) p = (publish_command_message outside topic payload p).1
  publish_step (replayed stopped us) p = (replay_retained outside stopped (publish_updates us) p).1

  -- Any calls, one after the other.
  unfoldable pub publish_steps : List Step → Publisher → Publisher
  publish_steps [] p = p
  publish_steps (t ∷ ts) p = publish_steps ts (publish_step t p)

  collect-grows :
      (k : Bytes) (low : ℕ) (o : Outcome) (next : Publisher → List Bytes × Publisher)
      → low ≤ gate_of k o.1
      → ((p : Publisher) → gate_of k p ≤ gate_of k (next p).1)
      → low ≤ gate_of k (collect o next).1
  collect-grows k low (none, p) next h g = omega (arith, h, g p)
  collect-grows k low (some why, p) next h g = omega (arith, h, g p)

  zones-grow :
      (revision : ℕ) (k : Bytes) (zs : List Zone) (p : Publisher)
      → gate_of k p ≤ gate_of k (publish_zones outside revision zs p).1
  unfolding publish_zones
  zones-grow revision k [] p = omega arith
  zones-grow revision k (z ∷ zs) p =
      collect-grows k (gate_of k p) (publish_zone outside revision z p)
        (publish_zones outside revision zs) (zone-gates outside revision z k p).1
        (zones-grow revision k zs)

  accounts-grow :
      (revision : ℕ) (k : Bytes) (rest : List Account) (zs : List Zone) (p : Publisher)
      → gate_of k p ≤ gate_of k (publish_accounts outside revision rest zs p).1
  unfolding publish_accounts
  accounts-grow revision k [] zs p = zones-grow revision k zs p
  accounts-grow revision k (a ∷ rest) zs p =
      collect-grows k (gate_of k p) (publish_account outside revision a p)
        (publish_accounts outside revision rest zs) (account-gates outside revision a k p).1
        (accounts-grow revision k rest zs)

  running-grows :
      (u : Update) (k : Bytes) (p : Publisher)
      → gate_of k p
        ≤ gate_of k (publish_update outside none u.connected u.revision u.accounts u.zones p).1
  unfolding publish_update
  running-grows u k p = ground (arith, accounts-grow u.revision k u.accounts u.zones p)

  stopped-grows :
      (why : Bytes) (u : Update) (k : Bytes) (p : Publisher)
      → gate_of k p
        ≤ gate_of k
            (publish_update outside (some why) u.connected u.revision u.accounts u.zones p).1
  unfolding publish_update
  stopped-grows why u k p = ground arith

  update-grows :
      (u : Update) (k : Bytes) (p : Publisher)
      → gate_of k p
        ≤ gate_of k (publish_update outside u.stopped u.connected u.revision u.accounts u.zones p).1
  update-grows u k p = elim (Option-cases u.stopped) [
    | inl n ↦ rw n (running-grows u k p)
    | inr (why, e) ↦ rw e (stopped-grows why u k p)
  ]

  updates-grow :
      (us : List Update) (k : Bytes) (p : Publisher)
      → gate_of k p ≤ gate_of k (publish_updates us p)
  unfolding publish_updates
  updates-grow [] k p = omega arith
  updates-grow (u ∷ us) k p =
      let after =
        (publish_update outside u.stopped u.connected u.revision u.accounts u.zones p).1 in
      omega (arith, update-grows u k p, updates-grow us k after)

  same-grows :
      (k : Bytes) (p q : Publisher) → q.state_gates ≡ p.state_gates → gate_of k p ≤ gate_of k q
  same-grows k p q h =
      let same : gate_of k q ≡ gate_of k p = ap (λ g. latest (get k g)) h in omega (arith, same)

  replay-grows :
      (us : List Update) (k : Bytes) (o : Outcome) (low : ℕ)
      → low ≤ gate_of k o.1
      → low ≤ gate_of k (and_then o (λ q. (none, publish_updates us q))).1
  replay-grows us k (none, q) low h = omega (arith, h, updates-grow us k q)
  replay-grows us k (some why, q) low h = h

  retained-grows :
      (stopped : Option Bytes) (us : List Update) (k : Bytes) (p : Publisher)
      → gate_of k p ≤ gate_of k (replay_retained outside stopped (publish_updates us) p).1
  unfolding replay_retained
  retained-grows stopped us k p = elim (Bool-cases (is_empty p.cfg.broker)) [
    | inl t ↦ rw (t, replay_retained) (omega arith)
    | inr f ↦ elim (Option-cases stopped) [
      | inl n ↦
          rw (f, n, replay_retained)
            (replay-grows us k
              (publish outside plain (availability_topic p.cfg) (codes "online") true
                (reset_caches p))
              (gate_of k p) (unfold publish reset_caches in omega arith))
      | inr (why, e) ↦ rw (f, e, replay_retained) (omega arith)
    ]
  ]

  told-grows :
      (topic payload : Bytes) (retain : Bool) (k : Bytes) (p : Publisher)
      → gate_of k p ≤ gate_of k (publish_state_message outside topic payload retain p).1
  unfolding publish_state_message
  told-grows topic payload retain k p = ground (
    arith,
    same-grows k p (publish_state outside topic payload retain p).1
        (state-gates outside p.state_gates topic payload retain p refl),
  )

  announced-grows :
      (m : DiscoveryMessage) (retain : Bool) (k : Bytes) (p : Publisher)
      → gate_of k p ≤ gate_of k (publish_any_discovery outside m retain p).1
  unfolding publish_any_discovery publish
  announced-grows m retain k p = ground (
    arith,
    same-grows k p (publish_discovery_message outside m p).1
        (discovery-gates outside p.state_gates m p refl),
  )

  commanded-grows :
      (topic payload k : Bytes) (p : Publisher)
      → gate_of k p ≤ gate_of k (publish_command_message outside topic payload p).1
  unfolding publish_command_message publish
  commanded-grows topic payload k p = ground arith

  step-grows : (t : Step) (k : Bytes) (p : Publisher) → gate_of k p ≤ gate_of k (publish_step t p)
  unfolding publish_step
  step-grows (updated u) k p = updates-grow (u ∷ []) k p
  step-grows (told topic payload retain) k p = told-grows topic payload retain k p
  step-grows (announced m retain) k p = announced-grows m retain k p
  step-grows (commanded topic payload) k p = commanded-grows topic payload k p
  step-grows (replayed stopped us) k p = retained-grows stopped us k p

  steps-grow :
      (ts : List Step) (k : Bytes) (p : Publisher) → gate_of k p ≤ gate_of k (publish_steps ts p)
  unfolding publish_steps
  steps-grow [] k p = omega arith
  steps-grow (t ∷ ts) k p = omega (arith, step-grows t k p, steps-grow ts k (publish_step t p))

  late_account :
      (older revision : ℕ) (a b : Account) (ts : List Step) (p : Publisher)
      → older < revision
      → b.account ≡ a.account
      → let after = publish_steps ts (publish_account outside revision a p).1 in
        publish_account outside older b after ≡ (none, after)
  unfolding publish_account
  late_account older revision a b ts p h same =
      let q = publish_steps ts (publish_account outside revision a p).1 in
      let gate : gate_of (account_gate b) q ≡ gate_of (account_gate a) q =
        ap (λ name. gate_of (codes "account:" ++ name) q) same in
      late outside (publish_open_account outside b) (account_gate b) older q (
        omega (
          arith,
          h,
          gate,
          (account-gates outside revision a (account_gate a) p).0,
          steps-grow ts (account_gate a) (publish_account outside revision a p).1,
        ))

  late_zone :
      (older revision : ℕ) (z w : Zone) (ts : List Step) (p : Publisher)
      → older < revision
      → w.account ≡ z.account
      → w.zone ≡ z.zone
      → let after = publish_steps ts (publish_zone outside revision z p).1 in
        publish_zone outside older w after ≡ (none, after)
  unfolding publish_zone
  late_zone older revision z w ts p h owner_is zone_is =
      let q = publish_steps ts (publish_zone outside revision z p).1 in
      let gate : gate_of (zone_gate w) q ≡ gate_of (zone_gate z) q =
        ap (λ name. gate_of (codes "zone:" ++ (name ++ (0 ∷ w.zone))) q) owner_is
        ∙ ap (λ name. gate_of (codes "zone:" ++ (z.account ++ (0 ∷ name))) q) zone_is in
      late outside (publish_open_zone outside w) (zone_gate w) older q (
        omega (
          arith,
          h,
          gate,
          (zone-gates outside revision z (zone_gate z) p).0,
          steps-grow ts (zone_gate z) (publish_zone outside revision z p).1,
        ))

  -- Once an account or a zone was published at a revision, the publication of a record of the same account,
  -- or of the same zone of the same account, at an older revision does nothing, whatever the two records
  -- hold and whatever calls that publish come in between: it hands no message to the client, changes no
  -- cache and gives no error.
  pub publish_account-older :
      (older revision : ℕ) (a b : Account) (z w : Zone) (ts : List Step) (p : Publisher)
      → older < revision
      → b.account ≡ a.account
      → w.account ≡ z.account
      → w.zone ≡ z.zone
      → let account_after = publish_steps ts (publish_account outside revision a p).1 in
        let zone_after = publish_steps ts (publish_zone outside revision z p).1 in
        (publish_account outside older b account_after ≡ (none, account_after))
        × (publish_zone outside older w zone_after ≡ (none, zone_after))
  publish_account-older older revision a b z w ts p h account_is owner_is zone_is = (
    late_account older revision a b ts p h account_is,
    late_zone older revision z w ts p h owner_is zone_is,
  )
