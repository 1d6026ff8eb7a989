-- ===== src/Detect.antt =====
-- src/detect: the rules (rule.h, port_scan_rule, syn_flood_rule) and the engine that asks them in
-- turn (rule_engine.h, rule_engine.cpp). A rule is one of the two classes with its threshold.
use ips_with_ai.Prelude.{
  ℕ, ◌≡◌, Bool, true, false, Option, none, some, List, [], ◌∷◌, ◌++◌, arith, leb, if◌then◌else◌,
  length, All, inl, inr, Bool-cases, Option-cases, is_some, ◌↔◌, refl,
}
use ips_with_ai.Flow.Types.{SourceStats}

pub data Rule : Type 0 where
  port_scan syn_flood : ℕ → Rule

-- `Rule::is_match` of each class.
unfoldable pub is_match : Rule → SourceStats → Bool
is_match (port_scan threshold) stats = leb threshold (length stats.recent_dst_ports)
is_match (syn_flood threshold) stats = leb threshold stats.syn_count

pub record RuleEngine : Type 0 where
  pub rules : List Rule

unfoldable pub add_rule : RuleEngine → Rule → RuleEngine
add_rule e rule = record { rules = e.rules ++ rule ∷ [] }

unfoldable pub first_match : List Rule → SourceStats → Option Rule
first_match [] stats = none
first_match (rule ∷ rules) stats =
    if is_match rule stats then some rule else first_match rules stats

unfoldable pub check : RuleEngine → SourceStats → Option Rule
check e stats = first_match e.rules stats

first_match-some :
    (rules : List Rule) (stats : SourceStats) (hit : Rule)
    → first_match rules stats ≡ some hit
    → (before after : List Rule) × (rules ≡ before ++ hit ∷ after)
      × (is_match hit stats ≡ true)
      × All (λ r. is_match r stats ≡ false) before
unfolding first_match
first_match-some [] stats hit h = absurd (ground arith)
first_match-some (rule ∷ rules) stats hit h = elim (Bool-cases (is_match rule stats)) [
  | inl yes_match ↦ ([], rules, ground arith, ground arith, tt)
  | inr other ↦
      let (before, after, split, found, passed) = first_match-some rules stats hit (ground arith) in
      (rule ∷ before, after, ground arith, found, (other, passed))
]

-- A rule that `check` returns stands in the list and matches, and no rule before it does.
pub check-some :
    (e : RuleEngine) (stats : SourceStats) (hit : Rule)
    → check e stats ≡ some hit
    → (before after : List Rule) × (e.rules ≡ before ++ hit ∷ after)
      × (is_match hit stats ≡ true)
      × All (λ r. is_match r stats ≡ false) before
unfolding check
check-some e stats hit h = first_match-some e.rules stats hit h

first_match-found :
    (before after : List Rule) (rule : Rule) (stats : SourceStats)
    → is_match rule stats ≡ true
    → (hit : Rule) × (first_match (before ++ rule ∷ after) stats ≡ some hit)
unfolding first_match
first_match-found [] after rule stats h = (rule, ground arith)
first_match-found (r ∷ before) after rule stats h = elim (Bool-cases (is_match r stats)) [
  | inl e ↦ (r, ground arith)
  | inr e ↦ let (hit, found) = first_match-found before after rule stats h in (hit, ground arith)
]

-- A rule of the list matches.
abbrev pub Matches : RuleEngine → SourceStats → Type 0
Matches e stats =
    (before after : List Rule) × (rule : Rule) × (e.rules ≡ before ++ rule ∷ after)
    × (is_match rule stats ≡ true)

-- `check` returns a rule exactly when one of the list matches.
pub check-Matches :
    (e : RuleEngine) (stats : SourceStats) → (is_some (check e stats) ≡ true) ↔ Matches e stats
unfolding check
check-Matches e stats = (
  λ h. elim (Option-cases (check e stats)) [
    | inl n ↦ absurd (ground arith)
    | inr (hit, found) ↦
        let (before, after, split, matched, passed) = check-some e stats hit found in
        (before, after, hit, split, matched)
  ],
  λ (before, after, rule, split, matched).
      let (hit, found) = first_match-found before after rule stats matched in
      rw (split, found) refl,
)

first_match-none :
    (rules : List Rule) (stats : SourceStats)
    → first_match rules stats ≡ none
    → All (λ r. is_match r stats ≡ false) rules
unfolding first_match
first_match-none [] stats h = tt
first_match-none (rule ∷ rules) stats h =
    (ground arith, first_match-none rules stats (ground arith))

-- Where `check` returns no rule, no rule matches.
pub check-none :
    (e : RuleEngine) (stats : SourceStats)
    → check e stats ≡ none
    → All (λ r. is_match r stats ≡ false) e.rules
unfolding check
check-none e stats h = first_match-none e.rules stats h
