-- ===== src/Convert/Legacy/Links.antt =====
-- api/seclang/v1beta1/convert/secrule.go: the links that a legacy bag becomes.
use kubewaf.Prelude.{
  ℕ, suc, ◌+◌, ◌≡◌, refl, subst, List, [], ◌∷◌, ◌++◌, String, if_ind, str_eq, length, length-append,
  All, All-append, arith,
}
use kubewaf.Prelude.Result.{ok, Returns, returned_value, bind-Returns, pass-Returns}
use kubewaf.Api.SecRule.{SecLangSecRule, SecRuleSpec}
use kubewaf.Convert.Crslang.{Crslang}
use kubewaf.Convert.Rule.{Link, has_chain_in_flow, remove_chain_from_flow_actions}
use kubewaf.Convert.Chain.{Directive, rule, marker, marker_after}
use kubewaf.Convert.Chain.Shape.{HasNoChain, filter_chain-HasNone}
use kubewaf.Convert.Legacy.{
  entry_link, emit, legacy_chain, legacy_rules, convert_legacy_sec_lang_rules,
}

module _ (crs : Crslang) where
  abbrev links_in : Directive crs → ℕ
  links_in (rule links) = length links
  links_in (marker name) = 0

  abbrev pub count_links : List (Directive crs) → ℕ
  count_links [] = 0
  count_links (d ∷ ds) = links_in d + count_links ds

  -- The links behind the head carry no `chain`.
  abbrev pub EndsAtHead : Directive crs → Type 0
  EndsAtHead (rule []) = ⊥
  EndsAtHead (rule (l ∷ ls)) = All (HasNoChain crs) ls
  EndsAtHead (marker name) = Unit

  count-append :
      (ds es : List (Directive crs)) → count_links (ds ++ es) ≡ count_links ds + count_links es
  count-append [] es = omega arith
  count-append (d ∷ ds) es = omega (arith, count-append ds es)

  marker-none : (name : String) → count_links (marker_after crs name) ≡ 0
  unfolding marker_after
  marker-none name = if_ind (λ ds. count_links ds ≡ 0) (str_eq name "") refl refl

  marker-EndsAtHead : (name : String) → All EndsAtHead (marker_after crs name)
  unfolding marker_after
  marker-EndsAtHead name = if_ind (All EndsAtHead) (str_eq name "") tt (tt, tt)

  abbrev Made : ℕ → List (Directive crs) → Type 0
  Made n ds = (count_links ds ≡ n) × All EndsAtHead ds

  emit-Made :
      (l : Link crs) (ls : List (Link crs)) (first : String) (last : SecLangSecRule)
      → All (HasNoChain crs) ls
      → Made (suc (length ls)) (emit crs (l ∷ ls) first last)
  unfolding emit
  emit-Made l ls first last h = (omega (arith, marker-none _), (h, marker-EndsAtHead _))

  append-Made :
      (ds es : List (Directive crs)) (m n : ℕ) → Made m ds → Made n es → Made (m + n) (ds ++ es)
  append-Made ds es m n (c, h) (d, k) =
      (omega (arith, count-append ds es, c, d), All-append EndsAtHead ds es h k)

  legacy_chain-Made :
      (l : Link crs) (ls : List (Link crs)) (first : String) (last : SecLangSecRule)
      (rules : List SecLangSecRule)
      → All (HasNoChain crs) ls
      → Returns (Made (suc (length ls) + length rules)) (legacy_chain crs (l ∷ ls) first last rules)
  unfolding legacy_chain remove_chain_from_flow_actions
  legacy_chain-Made l ls first last [] h =
      let made = emit-Made l ls first last h in (omega (arith, made.0), made.1)
  legacy_chain-Made l ls first last (next ∷ rules) h =
      pass-Returns (Made (suc (length ls) + suc (length rules))) (entry_link crs next) _ λ link.
        let child = remove_chain_from_flow_actions crs link in
        let longer : suc (length (ls ++ (child ∷ []))) + length rules
            ≡ suc (length ls) + suc (length rules) =
          omega (arith, length-append ls (child ∷ [])) in
        if_ind (Returns (Made (suc (length ls) + suc (length rules))))
          (has_chain_in_flow last.actions)
          (subst
            (λ n. Returns (Made n) (legacy_chain crs (l ∷ (ls ++ (child ∷ []))) first next rules))
            longer
            (legacy_chain-Made l (ls ++ (child ∷ [])) first next rules (
              All-append (HasNoChain crs) ls (child ∷ []) h
                (filter_chain-HasNone crs link.actions.flow_actions, tt))))
          (bind-Returns (Made (1 + length rules)) (Made (suc (length ls) + suc (length rules)))
            (legacy_chain crs (link ∷ []) next.sec_marker next rules) _
            (legacy_chain-Made link [] next.sec_marker next rules tt)
            λ more made.
              let all =
                append-Made (emit crs (l ∷ ls) first last) more (suc (length ls)) (1 + length rules)
                  (emit-Made l ls first last h) made in
              (omega (arith, all.0), all.1))

  legacy_rules-Made :
      (rules : List SecLangSecRule) → Returns (Made (length rules)) (legacy_rules crs rules)
  unfolding legacy_rules
  legacy_rules-Made [] = (refl, tt)
  legacy_rules-Made (r ∷ rules) =
      pass-Returns (Made (suc (length rules))) (entry_link crs r) _ λ link.
        subst (λ n. Returns (Made n) (legacy_chain crs (link ∷ []) r.sec_marker r rules))
          (omega arith) (legacy_chain-Made link [] r.sec_marker r rules tt)

  -- The rules of a legacy bag have as many links as the bag has entries, each entry once; and no link
  -- behind the head of a chain carries the action `chain`, though another link may follow it.
  pub legacy_bag_links :
      (spec : SecRuleSpec) (directives : List (Directive crs))
      → convert_legacy_sec_lang_rules crs spec ≡ ok directives
      → (count_links directives ≡ length spec.sec_rules) × All EndsAtHead directives
  unfolding convert_legacy_sec_lang_rules
  legacy_bag_links spec directives e =
      returned_value (Made (length spec.sec_rules)) (convert_legacy_sec_lang_rules crs spec)
        directives e
        (bind-Returns (Made (length spec.sec_rules)) (Made (length spec.sec_rules))
          (legacy_rules crs spec.sec_rules) _ (legacy_rules-Made spec.sec_rules)
          λ ds made.
            let all =
              append-Made ds (marker_after crs spec.marker_after) (length spec.sec_rules) 0 made
                (marker-none spec.marker_after, marker-EndsAtHead spec.marker_after) in
            (omega (arith, all.0), all.1))
