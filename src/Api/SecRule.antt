-- ===== src/Api/SecRule.antt =====
-- api/seclang/v1beta1: SecRule and SecAction.
use kubewaf.Prelude.{ℕ, String, Bool, true, false, ◌&&◌, ◌||◌, Option, none, some, List, [], ◌∷◌}
use kubewaf.Prelude.Int.{ℤ}
pub use kubewaf.Prelude.{is_nil}

pub record SecRuleMetadata : Type 0 where
  pub comment : String
  pub phase : String
  pub id : ℕ
  pub msg : String
  pub maturity : String
  pub rev : String
  pub severity : String
  pub tags : List String
  pub ver : String

-- `&SecRuleMetadata{}`
abbrev pub empty_metadata : SecRuleMetadata
empty_metadata = record {
  comment = "";
  phase = "";
  id = 0;
  msg = "";
  maturity = "";
  rev = "";
  severity = "";
  tags = [];
  ver = "";
}

pub record Variable : Type 0 where
  pub name : String
  pub excluded : Bool

pub record Collection : Type 0 where
  pub name : String
  pub arguments : List String
  pub excluded : List String
  pub count : Bool

pub record Operator : Type 0 where
  pub negate : Bool
  pub name : String
  pub value : String

-- The four action types of the source have the same two fields.
pub record Action : Type 0 where
  pub type : String
  pub value : String

pub record SecRuleActions : Type 0 where
  pub data_actions : List Action
  pub disruptive_action : Option Action
  pub flow : List Action
  pub non_disruptive : List Action

pub record Condition : Type 0 where
  pub variables : List Variable
  pub collections : List Collection
  pub operator : Operator
  pub transformations : List String
  pub always_match : Bool
  pub script : String

pub record Match : Type 0 where
  pub variables : List Variable
  pub collections : List Collection
  pub operator : Operator
  pub transformations : List String
  pub always_match : Bool
  pub script : String
  pub actions : Option SecRuleActions

unfoldable pub to_condition : Match → Condition
to_condition m = record {
  variables = m.variables;
  collections = m.collections;
  operator = m.operator;
  transformations = m.transformations;
  always_match = m.always_match;
  script = m.script;
}

pub record SecLangSecRule : Type 0 where
  pub metadata : Option SecRuleMetadata
  pub conditions : List Condition
  pub actions : Option SecRuleActions
  pub chained_rule : Bool
  pub sec_marker : String

pub record SecRuleSpec : Type 0 where
  pub order : ℤ
  pub marker_after : String
  pub metadata : Option SecRuleMetadata
  pub matches : List Match
  pub actions : Option SecRuleActions
  pub sec_rules : List SecLangSecRule

-- The identity of an object that refers to another one.
pub record RuleSetRef : Type 0 where
  pub name : String
  pub namespace : String
  pub kind : String

pub record SecRuleStatus : Type 0 where
  pub ready : Option Bool
  pub sec_rule_string : String
  pub rule_id : ℕ
  pub id_source : String
  pub assigned_ids : List ℕ
  pub rule_set_refs : List RuleSetRef

pub record SecRule : Type 0 where
  pub namespace : String
  pub name : String
  -- the annotation `seclang.kubewaf.io/assigned-id`, empty if it is missing
  pub assigned_id_annotation : String
  pub spec : SecRuleSpec
  pub status : SecRuleStatus

abbrev pub is_some {ℓ} : {A : Type ℓ} → Option A → Bool
is_some none = false
is_some (some a) = true

abbrev not_nil {ℓ} : {A : Type ℓ} → List A → Bool
not_nil [] = false
not_nil (x ∷ xs) = true

-- `IsSingleRuleForm`
unfoldable pub is_single_rule_form : SecRuleSpec → Bool
is_single_rule_form s =
    is_some s.metadata || not_nil s.matches || (is_some s.actions && is_nil s.sec_rules)

-- `metaID`: the id that a metadata block states, 0 if there is none.
abbrev pub meta_id : Option SecRuleMetadata → ℕ
meta_id none = 0
meta_id (some m) = m.id
