-- ===== src/Attribution/RuleLaws.antt =====
-- engine/rules.py: proofs about what the approved rules resolve.
use mathlib.Core.Path.{subst}
use untangle.Base.{
  ◌≡◌, refl, ap, sym, ◌∙◌, inl, inr, ◌⊎◌, String, true, Bool-cases, Option, some, Option-cases,
  List, [], ◌∷◌, map, filter, length, ltb, In, In-of_filter, if_true, if_false, arith,
}
use untangle.Base.Keys.{Dict, to_set, string_eq}
use untangle.Base.Dicts.{In-of_insert}
use untangle.Base.Floats.{Floats}
use untangle.Models.{BankCreditLine, RailAttribution}
use untangle.Subsets.{text_le}
use untangle.Attribution.Texts.{Texts}
use untangle.Attribution.Rules.{
  ProposedRule, match_rule, insert_rule, sort_rules, matching, conflict, by_rule, resolve,
  resolve_line, resolve_lines, apply_approved_rules,
}

pub same_some : {A : Type 0} {a b : A} → ◌≡◌ {A = Option A} (some a) (some b) → a ≡ b
same_some e = ground arith

insert_rule-In :
    (t : Texts) (r x : ProposedRule) (rs : List ProposedRule)
    → In x (insert_rule t r rs)
    → In x (r ∷ rs)
unfolding insert_rule
insert_rule-In t r x [] m = m
insert_rule-In t r x (q ∷ qs) m = elim (Bool-cases (text_le r.rule_id q.rule_id)) [
  | inl t ↦ rw t at m
  | inr f ↦ elim (rw f at m) [
    | inl e ↦ inr (inl e)
    | inr k ↦ elim (insert_rule-In t r x qs k) [ inl e ↦ inl e | inr l ↦ inr (inr l) ]
  ]
]

sort_rules-In :
    (t : Texts) (x : ProposedRule) (rs : List ProposedRule) → In x (sort_rules t rs) → In x rs
unfolding sort_rules
sort_rules-In t x [] m = m
sort_rules-In t x (r ∷ rs) m = elim (insert_rule-In t r x (sort_rules t rs) m) [
  | inl e ↦ inl e
  | inr k ↦ inr (sort_rules-In t x rs k)
]

module _ {F : Type 0} ⦃fl : Floats F⦄ (t : Texts) (lines : List BankCreditLine)
    (rules : List ProposedRule) where
  -- A human approved a rule for this rail that matches the credit.
  pub record RuledBy (a : RailAttribution F) : Type 0 where
    pub line : BankCreditLine
    pub listed : In line lines
    pub credit : line.is_credit ≡ true
    pub rule : ProposedRule
    pub written : In rule rules
    pub is_approved : rule.approved ≡ true
    pub matches : match_rule t line rule ≡ true
    pub verdict : a ≡ by_rule t line rule

  abbrev RuleVerdict : String → RailAttribution F → Type 0
  RuleVerdict key a = (a.line_key ≡ key) × ((a.abstained ≡ true) ⊎ RuledBy a)

  abbrev AllRuled : Dict String (RailAttribution F) → Type 0
  AllRuled d = (key : String) (a : RailAttribution F) → In (key, a) d → RuleVerdict key a

  resolve-RuleVerdict :
      (line : BankCreditLine) (approved : List ProposedRule) (a : RailAttribution F)
      → In line lines
      → line.is_credit ≡ true
      → ((r : ProposedRule) → In r approved → In r rules × (r.approved ≡ true))
      → resolve t line (matching t approved line) ≡ some a
      → RuleVerdict line.key a
  unfolding resolve
  resolve-RuleVerdict line approved a m credit all q =
      go (matching t approved line) q
        (λ r k. In-of_filter (match_rule t line) r approved (sort_rules-In t r _ k))
    where
      go :
          (rs : List ProposedRule)
          → resolve t line rs ≡ some a
          → ((r : ProposedRule) → In r rs → In r approved × (match_rule t line r ≡ true))
          → RuleVerdict line.key a
      go [] q h = cc
      go (r ∷ rs) q h =
          elim (Bool-cases (ltb 1 (length (to_set (map (λ r. r.target_rail) (r ∷ rs)))))) [
            | inl many ↦
                let e : conflict t line (r ∷ rs) ≡ a = same_some (
                  sym
                    (if_true (ltb 1 (length (to_set (map (λ r. r.target_rail) (r ∷ rs))))) _ _ many)
                  ∙ q) in
                (ap (λ x. x.line_key) (sym e), inl (ap (λ x. x.abstained) (sym e)))
            | inr one ↦
                let e : by_rule t line r ≡ a = same_some (
                  sym
                    (if_false (ltb 1 (length (to_set (map (λ r. r.target_rail) (r ∷ rs))))) _ _ one)
                  ∙ q) in
                let (k, hit) = h r (inl refl) in
                (
                  ap (λ x. x.line_key) (sym e),
                  inr (record {
                    line = line;
                    listed = m;
                    credit = credit;
                    rule = r;
                    written = (all r k).0;
                    is_approved = (all r k).1;
                    matches = hit;
                    verdict = sym e;
                  }),
                )
          ]

  resolve_line-AllRuled :
      (approved : List ProposedRule) (line : BankCreditLine) (d : Dict String (RailAttribution F))
      → In line lines
      → ((r : ProposedRule) → In r approved → In r rules × (r.approved ≡ true))
      → AllRuled d
      → AllRuled (resolve_line t approved line d)
  unfolding resolve sort_rules
  resolve_line-AllRuled approved line d m all h = elim (Bool-cases line.is_credit) [
    | inr debit ↦ rw debit h
    | inl credit ↦
        elim (Option-cases (resolve t {F = F} ⦃fl = fl⦄ line (matching t approved line))) [
          | inl n ↦ rw (credit, n) h
          | inr (a, n) ↦
              rw (credit, n)
                (λ key b k. elim (In-of_insert line.key key a b d k) [
                  | inl (e, same) ↦
                      subst (λ k. RuleVerdict k b) (sym e)
                        (subst (RuleVerdict line.key) (sym same)
                          (resolve-RuleVerdict line approved a m credit all n))
                  | inr l ↦ h key b l
                ])
        ]
  ]

  resolve_lines-AllRuled :
      (approved : List ProposedRule) (d : Dict String (RailAttribution F))
      (rest : List BankCreditLine)
      → ((l : BankCreditLine) → In l rest → In l lines)
      → ((r : ProposedRule) → In r approved → In r rules × (r.approved ≡ true))
      → AllRuled d
      → AllRuled (resolve_lines t approved d rest)
  unfolding resolve_lines
  resolve_lines-AllRuled approved d [] sub all h = h
  resolve_lines-AllRuled approved d (line ∷ rest) sub all h =
      resolve_lines-AllRuled approved (resolve_line t approved line d) rest (λ l m. sub l (inr m))
        all (resolve_line-AllRuled approved line d (sub line (inl refl)) all h)

  -- A verdict of the approved rules on a key is on that key; it is an abstention, or the rail of a rule of
  -- the list that was approved and that matches a credit of the key.
  pub apply_approved_rules-AllRuled : AllRuled (apply_approved_rules t lines rules)
  unfolding apply_approved_rules
  apply_approved_rules-AllRuled =
      go (filter (λ r. r.approved) rules) (λ r m. In-of_filter (λ r. r.approved) r rules m)
    where
      go :
          (approved : List ProposedRule)
          → ((r : ProposedRule) → In r approved → In r rules × (r.approved ≡ true))
          → AllRuled (elim approved [ [] ↦ [] | r ∷ rs ↦ resolve_lines t (r ∷ rs) [] lines ])
      go [] all = λ key a m. elim m [ ]
      go (r ∷ rs) all =
          resolve_lines-AllRuled (r ∷ rs) [] lines (λ l m. m) all (λ key a m. elim m [ ])
