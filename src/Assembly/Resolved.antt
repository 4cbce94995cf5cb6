-- ===== src/Assembly/Resolved.antt =====
-- internal/references2/helpers.go and internal/probeassemble/pathb.go: resolved objects become SecLang,
-- for the data plane and for the probe. The conversion of one object is a parameter.
pub mod Agree
use kubewaf.Prelude.{
  ℕ, ◌+◌, Bool, true, false, Option, none, some, List, [], ◌∷◌, ◌++◌, if◌then◌else◌,
}
use kubewaf.Prelude.Result.{Result, ok, err, ◌>>=◌}
use kubewaf.Prelude.Bytes.{Bytes, codes, contains}
use kubewaf.Api.SecRule.{SecRule}
use kubewaf.Api.SecAction.{SecAction}
use kubewaf.IdPool.Apply.{apply_assigned_ids, ensure_rule_ids, EnsureError, rule_ids_unresolved}
use kubewaf.Assembly.Crs.{CrsTuning}
use kubewaf.Assembly.Document.{Assembled, split_lines, assemble_from_rule_lines}
use kubewaf.Assembly.RenderIds.{render_assigned_ids}
use kubewaf.Assembly.PathB.{path_b_rule_item, path_b_action_item, path_b_sort}
use kubewaf.Assembly.Order.{Item, Payload, sec_rule, sec_action, rule_item, action_item, sort_items}

-- api/seclang/v1beta1/convert: `ConvertSecRule`, `ConvertToSecLangString` and `ConvertSecActionToString`.
pub record Converter (D E : Type 0) : Type 0 where
  pub convert_sec_rule : SecRule → Result E D
  pub is_empty : D → Bool
  pub print : D → Bytes
  pub convert_sec_action : SecAction → Result E Bytes

-- An unstructured object: a rule or an action, which may fail to decode, or of another kind.
pub data Object : Type 0 where
  rule_object : Option SecRule → Object
  action_object : Option SecAction → Object
  other_object : Object

pub data AssembleError (E : Type 0) : Type 0 where
  undecodable : AssembleError E
  ids_unresolved : AssembleError E
  convert_failed : E → AssembleError E
  no_directives : AssembleError E
  unknown_transformation : AssembleError E

abbrev pub rule_of : Option SecRule → Option Item
rule_of none = none
rule_of (some sr) = some (rule_item sr)

abbrev pub action_of : Option SecAction → Option Item
action_of none = none
action_of (some sa) = some (action_item sa)

abbrev count_rules : List Item → ℕ
count_rules [] = 0
count_rules (item ∷ items) =
    let n = count_rules items in elim item.payload [ sec_rule _ ↦ n + 1 | sec_action _ ↦ n ]

abbrev count_actions : List Item → ℕ
count_actions [] = 0
count_actions (item ∷ items) =
    let n = count_actions items in elim item.payload [ sec_rule _ ↦ n | sec_action _ ↦ n + 1 ]

module _ {E : Type 0} where
  abbrev pub decoded :
      Option Item → Result (AssembleError E) (List Item) → Result (AssembleError E) (List Item)
  decoded none rest = err undecodable
  decoded (some item) rest = rest >>= λ items. ok (item ∷ items)

  -- The items of a list of objects; other kinds are skipped.
  unfoldable pub items_of : List Object → Result (AssembleError E) (List Item)
  items_of [] = ok []
  items_of (rule_object r ∷ os) = decoded (rule_of r) (items_of os)
  items_of (action_object a ∷ os) = decoded (action_of a) (items_of os)
  items_of (other_object ∷ os) = items_of os

  -- The items of the probe; other kinds are skipped.
  unfoldable pub path_b_items_of : List Object → Result (AssembleError E) (List Item)
  unfolding path_b_rule_item path_b_action_item
  path_b_items_of [] = ok []
  path_b_items_of (rule_object none ∷ os) = err undecodable
  path_b_items_of (rule_object (some sr) ∷ os) =
      path_b_items_of os >>= λ items. ok (path_b_rule_item sr ∷ items)
  path_b_items_of (action_object none ∷ os) = err undecodable
  path_b_items_of (action_object (some sa) ∷ os) =
      path_b_items_of os >>= λ items. ok (path_b_action_item sa ∷ items)
  path_b_items_of (other_object ∷ os) = path_b_items_of os

  -- The first half of `AssembleResolved`: the items in the order of the document.
  unfoldable pub probe_items : List Object → Result (AssembleError E) (List Item)
  unfolding path_b_items_of path_b_sort
  probe_items objects = path_b_items_of objects >>= λ items. ok (path_b_sort items)

  abbrev pub converted : {A : Type 0} → Result E A → Result (AssembleError E) A
  converted (ok a) = ok a
  converted (err e) = err (convert_failed e)

  -- The empty result, and a transformation that the engine does not know, are refused.
  unfoldable pub checked_lang : Bool → Bytes → Result (AssembleError E) Bytes
  unfolding contains
  checked_lang empty sec_lang =
      if empty
      then err no_directives
      else if contains sec_lang (codes "t:unknown")
      then err unknown_transformation
      else ok sec_lang

  abbrev pub ensured : Result EnsureError Unit → Result (AssembleError E) Unit
  ensured (ok _) = ok tt
  ensured (err _) = err ids_unresolved

module _ {D E : Type 0} where
  -- `RenderSecRule`
  unfoldable pub render_sec_rule : Converter D E → SecRule → List ℕ → Result (AssembleError E) Bytes
  unfolding render_assigned_ids checked_lang
  render_sec_rule c sr assigned_ids =
      converted (c.convert_sec_rule (render_assigned_ids sr assigned_ids)) >>= λ d.
      checked_lang (c.is_empty d) (c.print d)

  unfoldable pub lang_of : Converter D E → Payload → Result (AssembleError E) Bytes
  unfolding render_sec_rule
  lang_of c (sec_rule sr) = render_sec_rule c sr sr.status.assigned_ids
  lang_of c (sec_action sa) = converted (c.convert_sec_action sa)

  unfoldable pub langs_of : Converter D E → List Item → Result (AssembleError E) (List Bytes)
  unfolding lang_of
  langs_of c [] = ok []
  langs_of c (item ∷ items) =
      lang_of c item.payload >>= λ lang. langs_of c items >>= λ rest. ok (lang ∷ rest)

  -- `GetSecLang`, for the data plane: one string for each item.
  unfoldable pub get_sec_lang : Converter D E → List Object → Result (AssembleError E) (List Bytes)
  unfolding langs_of sort_items items_of
  get_sec_lang c objects = items_of objects >>= λ items. langs_of c (sort_items items)

  -- `seclangLines`, for the probe.
  unfoldable pub seclang_lines : Converter D E → Payload → Result (AssembleError E) (List Bytes)
  unfolding apply_assigned_ids ensure_rule_ids split_lines
  seclang_lines c (sec_rule sr) = ensured (ensure_rule_ids (apply_assigned_ids sr [])) >>= λ _.
      converted (c.convert_sec_rule (apply_assigned_ids sr [])) >>= λ d.
      ok (split_lines (c.print d))
  seclang_lines c (sec_action sa) =
      converted (c.convert_sec_action sa) >>= λ lang. ok (split_lines lang)

  unfoldable pub rule_lines_of : Converter D E → List Item → Result (AssembleError E) (List Bytes)
  unfolding seclang_lines
  rule_lines_of c [] = ok []
  rule_lines_of c (item ∷ items) =
      seclang_lines c item.payload >>= λ lines. rule_lines_of c items >>= λ rest. ok (lines ++ rest)

  -- `AssembleResolved`
  unfoldable pub assemble_resolved :
      Converter D E → List Object → Bool → Option CrsTuning → Result (AssembleError E) Assembled
  unfolding rule_lines_of probe_items assemble_from_rule_lines
  assemble_resolved c objects stamp crs = probe_items objects >>= λ items.
      rule_lines_of c items >>= λ lines. ok (record (assemble_from_rule_lines lines stamp crs) {
        rules_loaded = count_rules items;
        actions_loaded = count_actions items;
      })
