-- ===== src/Assembly/Resolved/Agree.antt =====
-- internal/references2/helpers.go and internal/probeassemble/pathb.go: the probe and the data plane agree,
-- and neither depends on the order in which the objects were resolved.
use kubewaf.Prelude.{
  ◌≡◌, refl, sym, ap, ◌∙◌, List, [], ◌∷◌, ◌++◌, Bool, true, false, if◌then◌else◌, ℕ, ltb, none,
  some,
}
use kubewaf.Prelude.Result.{Result, ok, err, ◌>>=◌, >>=-eq-ok}
use kubewaf.Prelude.Bytes.{Bytes, codes, contains}
use kubewaf.Prelude.SortUnique.{AllDiffer, sort_stable_unique}
use kubewaf.Api.SecRule.{SecRule, SecLangSecRule, meta_id}
use kubewaf.IdPool.Apply.{apply_assigned_ids, apply_ids, ensure_rule_ids}
use kubewaf.Assembly.Document.{split_lines}
use kubewaf.Assembly.Order.{
  Item, Payload, sec_rule, sec_action, sort_items, item_less, item_less-IsOrder, first_bag_id,
  rule_item, action_item, sec_rule_sort_key, sec_action_sort_key, kind_lt,
}
use kubewaf.Assembly.Order.Lexical.{AllDistinct, AllDistinct-AllDiffer}
use kubewaf.Assembly.PathB.{
  path_b_bag_id, path_b_rule_item, path_b_action_item, path_b_rule_sort_key, path_b_action_sort_key,
  path_b_kind_lt, path_b_less, path_b_sort,
}
use kubewaf.Assembly.RenderIds.{render_assigned_ids, render_assigned_ids_agree}
use kubewaf.Prelude.Sort.{sort_stable}
use kubewaf.Prelude.Int.{pos, eqb_ℤ}
use kubewaf.Api.SecAction.{SecAction}
use kubewaf.Assembly.Resolved.{
  Converter, Object, rule_object, action_object, other_object, AssembleError, path_b_items_of,
  probe_items, no_directives, unknown_transformation, items_of, converted, checked_lang,
  render_sec_rule, lang_of, langs_of, get_sec_lang, ensured, seclang_lines, rule_lines_of,
}
use mathlib.Core.List.{Permᴰ}

-- The lines of several strings.
abbrev pub lines_of : List Bytes → List Bytes
unfolding split_lines
lines_of [] = []
lines_of (s ∷ ss) = split_lines s ++ lines_of ss

pub sort_items_unique :
    (xs ys : List Item) → Permᴰ xs ys → AllDiffer item_less xs → sort_items xs ≡ sort_items ys
unfolding sort_items
sort_items_unique xs ys p d =
    sort_stable_unique item_less item_less-IsOrder.asym item_less-IsOrder.trans xs ys p d

module _ {D E : Type 0} (c : Converter D E) where
  -- If two resolutions have the same items in different orders, and any two of the items have another
  -- key, another name, or are of another kind, then `GetSecLang` gives the same for both.
  pub get_sec_lang_unique :
      (objects objects' : List Object) (xs ys : List Item)
      → items_of {E = E} objects ≡ ok xs
      → items_of {E = E} objects' ≡ ok ys
      → Permᴰ xs ys
      → AllDistinct xs
      → get_sec_lang c objects ≡ get_sec_lang c objects'
  unfolding get_sec_lang
  get_sec_lang_unique objects objects' xs ys e e' p d =
      ap (λ r. r >>= λ items. langs_of c (sort_items items)) e
      ∙ ap (langs_of c) (sort_items_unique xs ys p (AllDistinct-AllDiffer xs d))
      ∙ sym (ap (λ r. r >>= λ items. langs_of c (sort_items items)) e')

by_status :
    (sr : SecRule) (ids : List ℕ)
    → ids ≡ sr.status.assigned_ids
    → apply_assigned_ids sr ids ≡ apply_assigned_ids sr []
unfolding apply_assigned_ids
by_status sr [] e = refl
by_status sr (id ∷ ids) e = ap (apply_ids sr) e

test-eq-ok :
    {E A : Type 0} (b : Bool) (e : E) (r : Result E A) (a : A)
    → (if b then err e else r) ≡ ok a
    → r ≡ ok a
test-eq-ok true e r a h = cc
test-eq-ok false e r a h = h

ok_same : {E A : Type 0} (a a' : A) → Path (Result E A) (ok a) (ok a') → a ≡ a'
ok_same a a' h = cc

checked-eq-ok :
    {E : Type 0} (empty : Bool) (s t : Bytes) → checked_lang {E = E} empty s ≡ ok t → s ≡ t
unfolding checked_lang
checked-eq-ok empty s t h = ok_same s t (
    test-eq-ok (contains s (codes "t:unknown")) unknown_transformation (ok s) t (
      test-eq-ok empty no_directives
        (if contains s (codes "t:unknown") then err unknown_transformation else ok s) t h))

-- The two packages' copies of the keys and the order agree.
bag_ids_agree : (rs : List SecLangSecRule) → path_b_bag_id rs ≡ first_bag_id rs
unfolding path_b_bag_id first_bag_id
bag_ids_agree [] = refl
bag_ids_agree (r ∷ rs) =
    ap (λ n. if ltb 0 (meta_id r.metadata) then meta_id r.metadata else n) (bag_ids_agree rs)

rule_items_agree : (sr : SecRule) → path_b_rule_item sr ≡ rule_item sr
unfolding path_b_rule_item rule_item path_b_rule_sort_key sec_rule_sort_key
rule_items_agree sr =
    ap
      (λ n. record {
        key =
            if eqb_ℤ sr.spec.order (pos 0)
            then (if ltb 0 sr.status.rule_id
                then pos sr.status.rule_id
                else if ltb 0 (meta_id sr.spec.metadata)
                then pos (meta_id sr.spec.metadata)
                else pos n)
            else sr.spec.order;
        name = codes sr.name;
        payload = sec_rule sr;
      })
      (bag_ids_agree sr.spec.sec_rules)

action_items_agree : (sa : SecAction) → path_b_action_item sa ≡ action_item sa
unfolding path_b_action_item action_item path_b_action_sort_key sec_action_sort_key
action_items_agree sa = refl

kinds_agree : (p q : Payload) → path_b_kind_lt p q ≡ kind_lt p q
kinds_agree (sec_rule _) q = refl
kinds_agree (sec_action _) (sec_rule _) = refl
kinds_agree (sec_action _) (sec_action _) = refl

less_agree : path_b_less ≡ item_less
unfolding path_b_less item_less
less_agree = refl

sorts_agree : (items : List Item) → path_b_sort items ≡ sort_items items
unfolding path_b_sort sort_items
sorts_agree items = ap (λ less. sort_stable less items) less_agree

module _ {E : Type 0} where
  items_agree : (objects : List Object) → path_b_items_of {E = E} objects ≡ items_of objects
  unfolding path_b_items_of items_of
  items_agree [] = refl
  items_agree (rule_object none ∷ os) = refl
  items_agree (rule_object (some sr) ∷ os) =
      ap (λ r. r >>= λ items. ok (path_b_rule_item sr ∷ items)) (items_agree os)
      ∙ ap (λ i. items_of {E = E} os >>= λ items. ok (i ∷ items)) (rule_items_agree sr)
  items_agree (action_object none ∷ os) = refl
  items_agree (action_object (some sa) ∷ os) =
      ap (λ r. r >>= λ items. ok (path_b_action_item sa ∷ items)) (items_agree os)
      ∙ ap (λ i. items_of {E = E} os >>= λ items. ok (i ∷ items)) (action_items_agree sa)
  items_agree (other_object ∷ os) = items_agree os

  probe_items_agree :
      (objects : List Object)
      → probe_items {E = E} objects ≡ (items_of objects >>= λ items. ok (sort_items items))
  unfolding probe_items
  probe_items_agree objects =
      ap (λ r. r >>= λ items. ok (path_b_sort items)) (items_agree objects)
      ∙ by_items (items_of objects)
    where
      by_items :
          (r : Result (AssembleError E) (List Item))
          → (r >>= λ items. ok (path_b_sort items)) ≡ (r >>= λ items. ok (sort_items items))
      by_items (ok xs) = ap ok (sorts_agree xs)
      by_items (err why) = refl

module _ {D E : Type 0} (c : Converter D E) where
  lines_agree :
      (p : Payload) (lang : Bytes) (lines : List Bytes)
      → lang_of c p ≡ ok lang
      → seclang_lines c p ≡ ok lines
      → lines ≡ split_lines lang
  unfolding lang_of render_sec_rule seclang_lines
  lines_agree (sec_action sa) lang lines e e' =
      let (x, m, f) =
        >>=-eq-ok (converted (c.convert_sec_action sa)) (λ l. ok (split_lines l)) e' in
      cc (e, m, f)
  lines_agree (sec_rule sr) lang lines e e' =
      let (d, m, f) =
        >>=-eq-ok (converted (c.convert_sec_rule (render_assigned_ids sr sr.status.assigned_ids)))
          (λ d'. checked_lang (c.is_empty d') (c.print d')) e in
      let (_, _, rest) =
        >>=-eq-ok (ensured (ensure_rule_ids (apply_assigned_ids sr [])))
          (λ _. converted (c.convert_sec_rule (apply_assigned_ids sr [])) >>= λ d'.
            ok (split_lines (c.print d')))
          e' in
      let (d', m', f') =
        >>=-eq-ok (converted (c.convert_sec_rule (apply_assigned_ids sr [])))
          (λ d''. ok (split_lines (c.print d''))) rest in
      cc (
        checked-eq-ok (c.is_empty d) (c.print d) lang f,
        m,
        m',
        f',
        render_assigned_ids_agree sr sr.status.assigned_ids,
        by_status sr sr.status.assigned_ids refl,
      )

  all_lines_agree :
      (items : List Item) (langs lines : List Bytes)
      → langs_of c items ≡ ok langs
      → rule_lines_of c items ≡ ok lines
      → lines ≡ lines_of langs
  unfolding langs_of rule_lines_of
  all_lines_agree [] langs lines e e' = cc
  all_lines_agree (item ∷ items) langs lines e e' =
      let (lang, m, f) =
        >>=-eq-ok (lang_of c item.payload) (λ l. langs_of c items >>= λ rest. ok (l ∷ rest)) e in
      let (rest, m', f') = >>=-eq-ok (langs_of c items) (λ ls. ok (lang ∷ ls)) f in
      let (lines', n, g) =
        >>=-eq-ok (seclang_lines c item.payload) (λ l. rule_lines_of c items >>= λ ls. ok (l ++ ls))
          e' in
      let (rest', n', g') = >>=-eq-ok (rule_lines_of c items) (λ ls. ok (lines' ++ ls)) g in
      cc (f', g', lines_agree item.payload lang lines' m n, all_lines_agree items rest rest' m' n')

  -- If the probe can assemble the objects and the data plane can too, the rule lines of the probe's
  -- document are the lines of the data plane's strings, in the same order.
  pub probe_agrees :
      (objects : List Object) (items : List Item) (langs lines : List Bytes)
      → probe_items {E = E} objects ≡ ok items
      → rule_lines_of c items ≡ ok lines
      → get_sec_lang c objects ≡ ok langs
      → lines ≡ lines_of langs
  unfolding get_sec_lang
  probe_agrees objects items langs lines e e' e'' =
      all_lines_agree items langs lines
        (sym (ap (λ r. r >>= λ xs. langs_of c xs) e)
          ∙ ap (λ r. r >>= λ xs. langs_of c xs) (probe_items_agree objects)
          ∙ resorted (items_of objects)
          ∙ e'')
        e'
    where
      resorted :
          (r : Result (AssembleError E) (List Item))
          → ((r >>= λ xs. ok (sort_items xs)) >>= λ xs. langs_of c xs)
            ≡ (r >>= λ xs. langs_of c (sort_items xs))
      resorted (ok xs) = refl
      resorted (err why) = refl
