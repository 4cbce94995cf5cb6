-- ===== src/Assembly/Order.antt =====
-- internal/references2/helpers.go: the rules and actions of a document are sorted by their key, then by
-- their name, then actions before rules.
pub mod Lexical
use kubewaf.Prelude.{ℕ, ◌^◌, ◌-◌, ◌≡◌, refl, Bool, true, false, List, [], ◌∷◌, ltb, if◌then◌else◌}
use kubewaf.Prelude.Int.{ℤ, pos, ltb_ℤ, eqb_ℤ}
use kubewaf.Prelude.Bytes.{Bytes, codes, bytes_eq}
use kubewaf.Prelude.Order.{
  IsOrder, by_then, by_then-IsOrder, along-IsOrder, along-IsTotal, ℤ-IsTotal, bytes_lt,
  Bytes-IsTotal,
}
use kubewaf.Prelude.Sort.{sort_stable}
use kubewaf.Api.SecRule.{SecRule, SecLangSecRule, meta_id}
use kubewaf.Api.SecAction.{SecAction}

-- Exactly one of a rule and an action.
pub data Payload : Type 0 where
  sec_rule : SecRule → Payload
  sec_action : SecAction → Payload

pub record Item : Type 0 where
  pub key : ℤ
  pub name : Bytes
  pub payload : Payload

-- `math.MaxInt32`
abbrev pub max_int32 : ℕ
max_int32 = 2 ^ 31 - 1

-- The first id of a bag that is above 0.
unfoldable pub first_bag_id : List SecLangSecRule → ℕ
first_bag_id [] = max_int32
first_bag_id (r ∷ rs) =
    let rest = first_bag_id rs in if ltb 0 (meta_id r.metadata) then meta_id r.metadata else rest

unfoldable pub sec_rule_sort_key : SecRule → ℤ
unfolding first_bag_id
sec_rule_sort_key sr =
    if eqb_ℤ sr.spec.order (pos 0)
    then (if ltb 0 sr.status.rule_id
        then pos sr.status.rule_id
        else if ltb 0 (meta_id sr.spec.metadata)
        then pos (meta_id sr.spec.metadata)
        else pos (first_bag_id sr.spec.sec_rules))
    else sr.spec.order

unfoldable pub sec_action_sort_key : SecAction → ℤ
sec_action_sort_key sa =
    if ltb 0 (meta_id sa.spec.metadata) then pos (meta_id sa.spec.metadata) else pos max_int32

unfoldable pub rule_item : SecRule → Item
unfolding sec_rule_sort_key
rule_item sr = record { key = sec_rule_sort_key sr; name = codes sr.name; payload = sec_rule sr }

unfoldable pub action_item : SecAction → Item
unfolding sec_action_sort_key
action_item sa = record {
  key = sec_action_sort_key sa;
  name = codes sa.name;
  payload = sec_action sa;
}

-- `kind`: "SecAction" is before "SecRule".
abbrev pub kind_lt : Payload → Payload → Bool
kind_lt (sec_action sa) (sec_rule sr) = true
kind_lt p q = false

-- `items[i]` goes before `items[j]`.
unfoldable pub item_less : Item → Item → Bool
unfolding bytes_lt bytes_eq
item_less a b =
    if eqb_ℤ a.key b.key
    then (if bytes_eq a.name b.name then kind_lt a.payload b.payload else bytes_lt a.name b.name)
    else ltb_ℤ a.key b.key

unfoldable pub sort_items : List Item → List Item
unfolding item_less
sort_items items = sort_stable item_less items

kind_lt_asym : (p q : Payload) → kind_lt p q ≡ true → kind_lt q p ≡ false
kind_lt_asym (sec_rule _) q h = cc
kind_lt_asym (sec_action _) (sec_rule _) h = refl
kind_lt_asym (sec_action _) (sec_action _) h = cc

kind_lt_trans : (p q r : Payload) → kind_lt q p ≡ false → kind_lt r q ≡ false → kind_lt r p ≡ false
kind_lt_trans p q (sec_rule _) h h' = refl
kind_lt_trans (sec_action _) q (sec_action _) h h' = refl
kind_lt_trans (sec_rule _) (sec_action _) (sec_action _) h h' = cc
kind_lt_trans (sec_rule _) (sec_rule _) (sec_action _) h h' = cc

kind_lt-IsOrder : IsOrder kind_lt
kind_lt-IsOrder = record { asym = kind_lt_asym; trans = kind_lt_trans }

pub item_less-IsOrder : IsOrder item_less
unfolding item_less
item_less-IsOrder =
    by_then-IsOrder (λ a b. eqb_ℤ a.key b.key) (λ a b. ltb_ℤ a.key b.key)
      (by_then (λ a b. bytes_eq a.name b.name) (λ a b. bytes_lt a.name b.name)
        (λ a b. kind_lt a.payload b.payload))
      (along-IsTotal (λ a. a.key) eqb_ℤ ltb_ℤ ℤ-IsTotal)
      (by_then-IsOrder (λ a b. bytes_eq a.name b.name) (λ a b. bytes_lt a.name b.name)
        (λ a b. kind_lt a.payload b.payload)
        (along-IsTotal (λ a. a.name) bytes_eq bytes_lt Bytes-IsTotal)
        (along-IsOrder (λ a. a.payload) kind_lt kind_lt-IsOrder))
