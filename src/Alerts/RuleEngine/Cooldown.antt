-- ===== src/Alerts/RuleEngine/Cooldown.antt =====
-- The cooldown of the rule engine, over any sequence of LoadRules and Evaluate calls.
use green_lab.Prelude.{
  ◌+◌, ◌*◌, ◌≤◌, ◌≡◌, refl, sym, subst, String, Bool, true, false, Option, none, some, List, [],
  ◌∷◌, ◌++◌, All, All-append, All-weaken, eq_iff, str_eq, if◌then◌else◌, arith,
}
use green_lab.Prelude.Maps.{lookup, insert, lookup-insert, lookup-insert_self}
use green_lab.Ingestion.Domain.{Time, second}
use green_lab.Alerts.Rule.{Comparisons, Rule}
use green_lab.Alerts.RuleEngine.{
  TelemetryEvent, RuleEngine, Firing, load_rules, cooling_down, evaluate_rule, evaluate_rules,
  evaluate, applicable, alert_event, or_empty, fire,
}

-- A call on the engine; `evaluate_at` carries the instant that the clock shows.
pub data Op (F : Type 0) : Type 0 where
  load : Option (List (Rule F)) → Op F
  evaluate_at : Time → TelemetryEvent F → Op F

abbrev NoEarlier : Option Time → Option Time → Type 0
NoEarlier none _ = Unit
NoEarlier (some t) none = ⊥
NoEarlier (some t) (some u) = t ≤ u

NoEarlier-refl : (o : Option Time) → NoEarlier o o
NoEarlier-refl none = tt
NoEarlier-refl (some t) = omega arith

NoEarlier-trans : (o p q : Option Time) → NoEarlier o p → NoEarlier p q → NoEarlier o q
NoEarlier-trans none p q h k = tt
NoEarlier-trans (some t) none q h k = elim h [ ]
NoEarlier-trans (some t) (some u) none h k = elim k [ ]
NoEarlier-trans (some t) (some u) (some v) h k = omega arith

NoEarlier-if :
    (b : Bool) (o : Option Time) (now : Time)
    → (b ≡ true → NoEarlier o (some now))
    → NoEarlier o (if b then some now else o)
NoEarlier-if true o now h = h refl
NoEarlier-if false o now h = NoEarlier-refl o

NoEarlier-insert :
    (now : Time) (id k : String) (before : List (String × Time))
    → NoEarlier (lookup id before) (some now)
    → NoEarlier (lookup k before) (lookup k (insert id now before))
NoEarlier-insert now id k before h =
    subst (NoEarlier (lookup k before)) (sym (lookup-insert id k now before)) (
      NoEarlier-if (str_eq id k) (lookup k before) now
        (λ same. subst (λ j. NoEarlier (lookup j before) (some now)) ((eq_iff id k).0 same) h))

module _ {F : Type 0} where
  -- The wait between two firings of one rule: the cooldown that the rule has at the second one.
  abbrev pub Apart : Firing F → Firing F → Type 0
  Apart early late =
      early.rule.id ≡ late.rule.id → early.at + late.rule.cooldown_sec * second ≤ late.at

  -- Every two firings of a sequence, the oldest first.
  abbrev pub Spaced : List (Firing F) → Type 0
  Spaced [] = Unit
  Spaced (early ∷ fired) = All (Apart early) fired × Spaced fired

  abbrev Waited : Option Time → Firing F → Type 0
  Waited none late = Unit
  Waited (some fired) late = fired + late.rule.cooldown_sec * second ≤ late.at

  -- What a stretch of calls fires, between the last firings it starts and ends with.
  record Keeps (before : List (String × Time)) (fired : List (Firing F))
      (after : List (String × Time)) : Type 0 where
    spaced : Spaced fired
    waited : All (λ f. Waited (lookup f.rule.id before) f) fired
    grows : (k : String) → NoEarlier (lookup k before) (lookup k after)
    recorded : All (λ f. NoEarlier (some f.at) (lookup f.rule.id after)) fired

  Waited-NoEarlier : (o p : Option Time) (f : Firing F) → NoEarlier o p → Waited p f → Waited o f
  Waited-NoEarlier none p f h k = tt
  Waited-NoEarlier (some t) none f h k = elim h [ ]
  Waited-NoEarlier (some t) (some u) f h k = omega arith

  Apart-through :
      (o : Option Time) (early late : Firing F)
      → NoEarlier (some early.at) o
      → Waited o late
      → early.at + late.rule.cooldown_sec * second ≤ late.at
  Apart-through none early late h k = elim h [ ]
  Apart-through (some t) early late h k = omega arith

  Spaced-append :
      (xs ys : List (Firing F))
      → Spaced xs
      → Spaced ys
      → All (λ x. All (Apart x) ys) xs
      → Spaced (xs ++ ys)
  Spaced-append [] ys hx hy hxy = hy
  Spaced-append (x ∷ xs) ys hx hy hxy =
      (All-append (Apart x) xs ys hx.0 hxy.0, Spaced-append xs ys hx.1 hy hxy.1)

  Keeps-append :
      (before middle after : List (String × Time)) (xs ys : List (Firing F))
      → Keeps before xs middle
      → Keeps middle ys after
      → Keeps before (xs ++ ys) after
  Keeps-append before middle after xs ys k l = record {
    spaced = Spaced-append xs ys k.spaced l.spaced (
        All-weaken (λ x. NoEarlier (some x.at) (lookup x.rule.id middle)) (λ x. All (Apart x) ys) xs
          (λ x hx.
            All-weaken (λ y. Waited (lookup y.rule.id middle) y) (Apart x) ys
              (λ y hy same.
                Apart-through (lookup y.rule.id middle) x y
                  (subst (λ id. NoEarlier (some x.at) (lookup id middle)) same hx) hy)
              l.waited)
          k.recorded);
    waited =
        All-append (λ f. Waited (lookup f.rule.id before) f) xs ys k.waited
          (All-weaken (λ f. Waited (lookup f.rule.id middle) f)
            (λ f. Waited (lookup f.rule.id before) f) ys
            (λ f h.
              Waited-NoEarlier (lookup f.rule.id before) (lookup f.rule.id middle) f
                (k.grows f.rule.id) h)
            l.waited);
    grows = λ id.
        NoEarlier-trans (lookup id before) (lookup id middle) (lookup id after) (k.grows id)
          (l.grows id);
    recorded =
        All-append (λ f. NoEarlier (some f.at) (lookup f.rule.id after)) xs ys
          (All-weaken (λ f. NoEarlier (some f.at) (lookup f.rule.id middle))
            (λ f. NoEarlier (some f.at) (lookup f.rule.id after)) xs
            (λ f h.
              NoEarlier-trans (some f.at) (lookup f.rule.id middle) (lookup f.rule.id after) h
                (l.grows f.rule.id))
            k.recorded)
          l.recorded;
  }

  Keeps-nothing : (before : List (String × Time)) → Keeps before [] before
  Keeps-nothing before = record {
    spaced = tt;
    waited = tt;
    grows = λ k. NoEarlier-refl (lookup k before);
    recorded = tt;
  }

  Waited-cooling_down :
      (now : Time) (rule : Rule F) (f : Firing F) (o : Option Time)
      → f.at ≡ now
      → f.rule ≡ rule
      → cooling_down now rule o ≡ false
      → Waited o f
  unfolding cooling_down
  Waited-cooling_down now rule f none at same h = tt
  Waited-cooling_down now rule f (some t) at same h =
      subst (λ i. t + f.rule.cooldown_sec * second ≤ i) (sym at)
        (subst (λ (r : Rule F). t + r.cooldown_sec * second ≤ now) (sym same) (ground arith))

  NoEarlier-cooling_down :
      (now : Time) (rule : Rule F) (o : Option Time)
      → cooling_down now rule o ≡ false
      → NoEarlier o (some now)
  unfolding cooling_down
  NoEarlier-cooling_down now rule none h = tt
  NoEarlier-cooling_down now rule (some t) h = ground arith

  module _ (cmp : Comparisons F) (now : Time) (evt : TelemetryEvent F) where
    abbrev firing : Rule F → F → Firing F
    firing rule value = record { at = now; rule = rule; event = alert_event evt rule value }

    abbrev fire_if :
        Bool → Rule F → F → List (String × Time) → List (String × Time) × List (Firing F)
    fire_if cooling rule value before =
        if cooling then (before, []) else (insert rule.id now before, firing rule value ∷ [])

    Keeps-fire_if :
        (rule : Rule F) (value : F) (before : List (String × Time)) (cooling : Bool)
        → cooling_down now rule (lookup rule.id before) ≡ cooling
        → let out = fire_if cooling rule value before in Keeps before out.1 out.0
    Keeps-fire_if rule value before true e = Keeps-nothing before
    Keeps-fire_if rule value before false e = record {
      spaced = (tt, tt);
      waited = (
        Waited-cooling_down now rule (firing rule value) (lookup rule.id before) refl refl e,
        tt,
      );
      grows = λ k.
          NoEarlier-insert now rule.id k before
            (NoEarlier-cooling_down now rule (lookup rule.id before) e);
      recorded = (
        subst (NoEarlier (some now)) (sym (lookup-insert_self rule.id now before))
            (NoEarlier-refl (some now)),
        tt,
      );
    }

    Keeps-fire :
        (rule : Rule F) (value : Option F) (before : List (String × Time))
        → let out = fire cmp now evt rule value before in Keeps before out.1 out.0
    unfolding fire
    Keeps-fire rule none before = Keeps-nothing before
    Keeps-fire rule (some value) before =
        Keeps-fire_if rule value before (cooling_down now rule (lookup rule.id before)) refl

    Keeps-evaluate_rules :
        (rules : List (Rule F)) (before : List (String × Time))
        → let out = evaluate_rules cmp now evt rules before in Keeps before out.1 out.0
    unfolding evaluate_rules evaluate_rule
    Keeps-evaluate_rules [] before = Keeps-nothing before
    Keeps-evaluate_rules (rule ∷ rules) before =
        let one = fire cmp now evt rule (applicable cmp evt rule) before in
        let rest = evaluate_rules cmp now evt rules one.0 in
        Keeps-append before one.0 rest.0 one.1 rest.1
          (Keeps-fire rule (applicable cmp evt rule) before) (Keeps-evaluate_rules rules one.0)

  module _ (cmp : Comparisons F) where
    -- The calls in turn: the engine they leave and what they fired, the oldest first.
    unfoldable pub run : List (Op F) → RuleEngine F → RuleEngine F × List (Firing F)
    run [] engine = (engine, [])
    run (load rules ∷ ops) engine = run ops (load_rules rules engine)
    run (evaluate_at now evt ∷ ops) engine =
        let (after, fired) = evaluate cmp now evt engine in
        let (final, more) = run ops after in (final, fired ++ more)

    Keeps-run :
        (ops : List (Op F)) (engine : RuleEngine F)
        → let out = run ops engine in Keeps engine.last_fired out.1 out.0.last_fired
    unfolding run load_rules evaluate
    Keeps-run [] engine = Keeps-nothing engine.last_fired
    Keeps-run (load none ∷ ops) engine = Keeps-run ops engine
    Keeps-run (load (some rules) ∷ ops) engine = Keeps-run ops (load_rules (some rules) engine)
    Keeps-run (evaluate_at now evt ∷ ops) engine =
        let one = evaluate cmp now evt engine in
        let rest = run ops one.0 in
        Keeps-append engine.last_fired one.0.last_fired rest.0.last_fired one.1 rest.1
          (Keeps-evaluate_rules cmp now evt (or_empty (lookup evt.channel_id engine.rules))
            engine.last_fired)
          (Keeps-run ops one.0)

    -- Whatever calls of LoadRules and Evaluate are made on an engine, in any order, with any clock
    -- readings, backward ones included, and with any change of the rules between them, two alerts
    -- of one rule ID are at least the cooldown apart that the rule has when the later one is sent.
    pub run-Spaced : (ops : List (Op F)) (engine : RuleEngine F) → Spaced (run ops engine).1
    run-Spaced ops engine = (Keeps-run ops engine).spaced
