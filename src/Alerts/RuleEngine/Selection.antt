-- ===== src/Alerts/RuleEngine/Selection.antt =====
-- Which rules of a loaded repository fire on an event.
use mathlib.Core.List.{append_assoc, append-nil}
use green_lab.Prelude.{
  ◌+◌, ◌*◌, ◌≤◌, not, ◌&&◌, Bool-cases, Option-cases, inl, inr, ◌≡◌, ◌≢◌, refl, sym, ◌∙◌, ap,
  String, Bool, true, false, Option, none, some, List, [], ◌∷◌, ◌++◌, All, eq_iff, str_eq,
  if◌then◌else◌, arith,
}
use green_lab.Prelude.Maps.{lookup, insert, lookup-insert}
use green_lab.Ingestion.Domain.{Time, second}
use green_lab.Alerts.Rule.{
  Comparisons, Rule, RuleCondition, gt, gte, lt, lte, eq, neq, unknown, triggers,
}
use green_lab.Alerts.RuleEngine.{
  TelemetryEvent, RuleEngine, Firing, load_rules, group_rules, cooling_down, evaluate_rule,
  evaluate_rules, evaluate, applicable, alert_event, or_empty, fire,
}

module _ {F : Type 0} where
  -- The rules of one channel, in the repository's order.
  abbrev pub of_channel : String → List (Rule F) → List (Rule F)
  of_channel channel [] = []
  of_channel channel (r ∷ rules) =
      let rest = of_channel channel rules in if str_eq r.channel_id channel then r ∷ rest else rest

  or_empty_if :
      (b : Bool) (r : Rule F) (own old : Option (List (Rule F))) (rest : List (Rule F))
      → (b ≡ true → own ≡ old)
      → or_empty (if b then some (or_empty own ++ r ∷ []) else old) ++ rest
        ≡ or_empty old ++ (if b then r ∷ rest else rest)
  or_empty_if true r own old rest h =
      append_assoc (or_empty own) (r ∷ []) rest ∙ ap (λ o. or_empty o ++ r ∷ rest) (h refl)
  or_empty_if false r own old rest h = refl

  group_rules-lookup :
      (channel : String) (rules : List (Rule F)) (grouped : List (String × List (Rule F)))
      → or_empty (lookup channel (group_rules rules grouped))
        ≡ or_empty (lookup channel grouped) ++ of_channel channel rules
  unfolding group_rules
  group_rules-lookup channel [] grouped = sym (append-nil (or_empty (lookup channel grouped)))
  group_rules-lookup channel (r ∷ rules) grouped =
      let added = or_empty (lookup r.channel_id grouped) ++ r ∷ [] in
      group_rules-lookup channel rules (insert r.channel_id added grouped)
      ∙ ap (λ o. or_empty o ++ of_channel channel rules)
          (lookup-insert r.channel_id channel added grouped)
      ∙ or_empty_if (str_eq r.channel_id channel) r (lookup r.channel_id grouped)
          (lookup channel grouped) (of_channel channel rules)
          (λ same. ap (λ id. lookup id grouped) ((eq_iff r.channel_id channel).0 same))

  -- No rule ID stands twice.
  abbrev pub DistinctIds : List (Rule F) → Type 0
  DistinctIds [] = Unit
  DistinctIds (r ∷ rules) = All (λ (other : Rule F). r.id ≢ other.id) rules × DistinctIds rules

  -- The rule is past its cooldown at `now`.
  abbrev pub Ready : Time → List (String × Time) → Rule F → Type 0
  Ready now last_fired r =
      (fired : Time) → lookup r.id last_fired ≡ some fired → fired + r.cooldown_sec * second ≤ now

  Ready-cooling_down :
      (now : Time) (r : Rule F) (o : Option Time)
      → ((fired : Time) → o ≡ some fired → fired + r.cooldown_sec * second ≤ now)
      → cooling_down now r o ≡ false
  unfolding cooling_down
  Ready-cooling_down now r none ready = refl
  Ready-cooling_down now r (some fired) ready = ground (arith, ready fired refl)

  -- What the conditions say of a value `v` and a threshold `t`.
  abbrev pub meets : Comparisons F → RuleCondition → F → F → Bool
  meets cmp gt v t = cmp.less t v
  meets cmp gte v t = cmp.less_eq t v
  meets cmp lt v t = cmp.less v t
  meets cmp lte v t = cmp.less_eq v t
  meets cmp eq v t = cmp.equal v t
  meets cmp neq v t = not (cmp.equal v t)
  meets cmp unknown v t = false

  triggers-meets :
      (cmp : Comparisons F) (r : Rule F) (v : F) (c : RuleCondition)
      → r.condition ≡ c
      → triggers cmp r v ≡ meets cmp c v r.threshold
  unfolding triggers
  triggers-meets cmp r v gt h = rw h refl
  triggers-meets cmp r v gte h = rw h refl
  triggers-meets cmp r v lt h = rw h refl
  triggers-meets cmp r v lte h = rw h refl
  triggers-meets cmp r v eq h = rw h refl
  triggers-meets cmp r v neq h = rw h refl
  triggers-meets cmp r v unknown h = rw h refl

  module _ (cmp : Comparisons F) (now : Time) (evt : TelemetryEvent F) where
    abbrev firing_of : Rule F → Option F → List (Firing F)
    firing_of r none = []
    firing_of r (some value) = record { at = now; rule = r; event = alert_event evt r value } ∷ []

    -- The firing of a rule with the value of its field, if there is one.
    abbrev pub firing_at : Rule F → Option F → List (Firing F)
    firing_at r none = []
    firing_at r (some v) =
        if r.enabled && meets cmp r.condition v r.threshold
        then record {
          at = now;
          rule = r;
          event = record {
            rule_id = r.id;
            channel_id = r.channel_id;
            workspace_id = r.workspace_id;
            field_name = r.field_name;
            actual_value = v;
            threshold = r.threshold;
            condition = r.condition;
            severity = r.severity;
            message = r.message;
            triggered_at = evt.timestamp;
            webhook_secret = r.webhook_secret;
          };
        }
          ∷ []
        else []

    -- One firing for each enabled rule whose field is in the event with a value that meets the
    -- condition, in order.
    abbrev pub firings : List (Rule F) → List (Firing F)
    firings [] = []
    firings (r ∷ rules) = firing_at r (lookup r.field_name evt.fields) ++ firings rules

    firing_of-firing_at :
        (r : Rule F)
        → firing_of r (applicable cmp evt r) ≡ firing_at r (lookup r.field_name evt.fields)
    unfolding applicable
    firing_of-firing_at r = elim (Bool-cases r.enabled) [
      | inr off ↦ elim (Option-cases (lookup r.field_name evt.fields)) [
        | inr absent ↦ rw (off, absent) refl
        | inl (v, there) ↦ rw (off, there) refl
      ]
      | inl on ↦ elim (Option-cases (lookup r.field_name evt.fields)) [
        | inr absent ↦ rw (on, absent) refl
        | inl (v, there) ↦ elim (Bool-cases (meets cmp r.condition v r.threshold)) [
          | inl met ↦ rw (on, there, triggers-meets cmp r v r.condition refl, met) refl
          | inr unmet ↦ rw (on, there, triggers-meets cmp r v r.condition refl, unmet) refl
        ]
      ]
    ]

    fire-Ready :
        (r : Rule F) (value : Option F) (last_fired : List (String × Time))
        → Ready now last_fired r
        → (fire cmp now evt r value last_fired).1 ≡ firing_of r value
    unfolding fire
    fire-Ready r none last_fired h = refl
    fire-Ready r (some value) last_fired h =
        rw (Ready-cooling_down now r (lookup r.id last_fired) h)

    fire_elsewhere :
        (r : Rule F) (value : Option F) (last_fired : List (String × Time)) (id : String)
        → r.id ≢ id
        → lookup id (fire cmp now evt r value last_fired).0 ≡ lookup id last_fired
    unfolding fire
    fire_elsewhere r none last_fired id h = refl
    fire_elsewhere r (some value) last_fired id h =
        ground (arith, lookup-insert r.id id now last_fired, eq_iff r.id id)

    fire-All-Ready :
        (r : Rule F) (value : Option F) (last_fired : List (String × Time)) (rules : List (Rule F))
        → All (λ (other : Rule F). r.id ≢ other.id) rules
        → All (Ready now last_fired) rules
        → All (Ready now (fire cmp now evt r value last_fired).0) rules
    fire-All-Ready r value last_fired [] h ready = tt
    fire-All-Ready r value last_fired (other ∷ rules) h ready = (
      (λ fired at. ready.0 fired (sym (fire_elsewhere r value last_fired other.id h.0) ∙ at)),
      fire-All-Ready r value last_fired rules h.1 ready.1,
    )

    evaluate_rules-firings :
        (rules : List (Rule F)) (last_fired : List (String × Time))
        → DistinctIds rules
        → All (Ready now last_fired) rules
        → (evaluate_rules cmp now evt rules last_fired).1 ≡ firings rules
    unfolding evaluate_rules evaluate_rule
    evaluate_rules-firings [] last_fired h ready = refl
    evaluate_rules-firings (r ∷ rules) last_fired h ready =
        let value = applicable cmp evt r in
        ap
          (λ one.
            one ++ (evaluate_rules cmp now evt rules (fire cmp now evt r value last_fired).0).1)
          (fire-Ready r value last_fired ready.0)
        ∙ ap
            (λ one.
              one ++ (evaluate_rules cmp now evt rules (fire cmp now evt r value last_fired).0).1)
            (firing_of-firing_at r)
        ∙ ap (λ rest. firing_at r (lookup r.field_name evt.fields) ++ rest)
            (evaluate_rules-firings rules (fire cmp now evt r value last_fired).0 h.1
              (fire-All-Ready r value last_fired rules h.0 ready.1))

    -- After LoadRules has read `rules`, Evaluate fires exactly the rules of the event's channel that
    -- apply to it (enabled, with their field in the event and its value meeting the condition), each
    -- once and in the repository's order, when these rules have distinct IDs and are all past their
    -- cooldown.
    pub evaluate-load_rules :
        (rules : List (Rule F)) (engine : RuleEngine F)
        → DistinctIds (of_channel evt.channel_id rules)
        → All (Ready now engine.last_fired) (of_channel evt.channel_id rules)
        → (evaluate cmp now evt (load_rules (some rules) engine)).1
          ≡ firings (of_channel evt.channel_id rules)
    unfolding evaluate load_rules
    evaluate-load_rules rules engine h ready =
        ap (λ own. (evaluate_rules cmp now evt own engine.last_fired).1)
          (group_rules-lookup evt.channel_id rules [])
        ∙ evaluate_rules-firings (of_channel evt.channel_id rules) engine.last_fired h ready
