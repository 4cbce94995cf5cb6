-- ===== src/Convert/Chain/Shape.antt =====
-- api/seclang/v1beta1/convert/secrule.go: the shape of the chains that the conversion makes.
use kubewaf.Prelude.{
  ℕ, suc, String, ◌≡◌, refl, sym, subst, ap, Bool, true, false, ◌||◌, Option, none, List, [], ◌∷◌,
  ◌++◌, if_ind, if_rec, str_eq, eq_iff, All, Any, ◌⊎◌, inl, inr, or_cases, length,
}
use kubewaf.Prelude.Result.{ok, Returns, returned_value, bind-Returns, pass-Returns}
use kubewaf.Api.SecRule.{Action, SecRuleActions, SecRuleMetadata, SecRuleSpec, Match, to_condition}
use kubewaf.Convert.Crslang.{Crslang}
use kubewaf.Convert.Transformations.{map_api_transformations}
use kubewaf.Convert.Actions.{
  SeclangActions, action_to_csr, actions_to_csr, disruptive_to_csr, sec_action_to_csr,
}
use kubewaf.Convert.Rule.{
  has_chain, chain_action, or_empty, with_chain, ensure_chain_action, Link, convert_metadata,
  convert_conditions, convert_actions, rule_to_link, match_to_link, filter_chain,
  remove_chain_from_flow_actions,
}
use kubewaf.Convert.Chain.{
  always, head_actions, always_link, child_actions, finish_child, child_links, chain_links,
  convert_matches,
}

has_chain-append :
    (fs : List Action) (f : Action) → has_chain (f ∷ []) ≡ true → has_chain (fs ++ (f ∷ [])) ≡ true
unfolding has_chain
has_chain-append [] f h = h
has_chain-append (g ∷ fs) f h = either (str_eq g.type "chain") (has_chain-append fs f h)
  where
    either : (b : Bool) {c : Bool} → c ≡ true → (b || c) ≡ true
    either true e = refl
    either false e = e

ensure_chain_action-has_chain :
    (o : Option SecRuleActions) → has_chain (ensure_chain_action o).flow ≡ true
unfolding ensure_chain_action with_chain has_chain
ensure_chain_action-has_chain o =
    if_rec (λ (a : SecRuleActions). has_chain a.flow ≡ true) (has_chain (or_empty o).flow) (λ h. h)
      (λ _. has_chain-append (or_empty o).flow chain_action refl)

module _ (crs : Crslang) where
  abbrev IsChainAction : crs.Action → Type 0
  IsChainAction a = str_eq (crs.get_key a) "chain" ≡ true

  abbrev pub HasChain : Link crs → Type 0
  HasChain link = Any IsChainAction link.actions.flow_actions

  abbrev pub HasNoChain : Link crs → Type 0
  HasNoChain link = All (λ a. str_eq (crs.get_key a) "chain" ≡ false) link.actions.flow_actions

  abbrev pub IsHarmless : Link crs → Type 0
  IsHarmless link = link.actions.disruptive_action ≡ none

  -- The links behind the head: none is disruptive, and all but the last go on.
  abbrev pub AreChildren : List (Link crs) → Type 0
  AreChildren [] = Unit
  AreChildren (l ∷ []) = IsHarmless l × HasNoChain l
  AreChildren (l ∷ m ∷ ls) = IsHarmless l × HasChain l × AreChildren (m ∷ ls)

  abbrev pub IsChain : List (Link crs) → Type 0
  IsChain [] = ⊥
  IsChain (l ∷ []) = Unit
  IsChain (l ∷ m ∷ ls) = HasChain l × AreChildren (m ∷ ls)

  pub filter_chain-HasNone :
      (actions : List crs.Action)
      → All (λ a. str_eq (crs.get_key a) "chain" ≡ false) (filter_chain crs actions)
  unfolding filter_chain
  filter_chain-HasNone [] = tt
  filter_chain-HasNone (a ∷ actions) =
      if_rec (All (λ a. str_eq (crs.get_key a) "chain" ≡ false)) (str_eq (crs.get_key a) "chain")
        (λ _. filter_chain-HasNone actions) (λ h. (h, filter_chain-HasNone actions))

  -- crslang's action of the type `chain` has that key.
  abbrev pub NamesChain : Type 0
  NamesChain =
      (value : String)
      → Returns IsChainAction (action_to_csr crs (crs.flow_action_type "chain") value)

  module _ (names : NamesChain) where
    flow-HasChain :
        (fs : List Action)
        → has_chain fs ≡ true
        → Returns (Any IsChainAction) (actions_to_csr crs crs.flow_action_type fs)
    unfolding actions_to_csr has_chain
    flow-HasChain [] h = cc
    flow-HasChain (f ∷ fs) h =
        by_place (or_cases (str_eq f.type "chain") (has_chain fs) h) (flow-HasChain fs)
      where
        by_place :
            (str_eq f.type "chain" ≡ true) ⊎ (has_chain fs ≡ true)
            → (has_chain fs ≡ true
                → Returns (Any IsChainAction) (actions_to_csr crs crs.flow_action_type fs))
            → Returns (Any IsChainAction) (actions_to_csr crs crs.flow_action_type (f ∷ fs))
        by_place (inl here) later =
            bind-Returns IsChainAction (Any IsChainAction)
              (action_to_csr crs (crs.flow_action_type f.type) f.value) _
              (subst
                (λ t. Returns IsChainAction (action_to_csr crs (crs.flow_action_type t) f.value))
                (sym ((eq_iff f.type "chain").0 here)) (names f.value))
              λ got is_chain.
                pass-Returns (Any IsChainAction) (actions_to_csr crs crs.flow_action_type fs) _
                  λ more. inl is_chain
        by_place (inr there) later =
            pass-Returns (Any IsChainAction)
              (action_to_csr crs (crs.flow_action_type f.type) f.value) _
              λ got.
                bind-Returns (Any IsChainAction) (Any IsChainAction)
                  (actions_to_csr crs crs.flow_action_type fs) _ (later there) λ more h. inr h

    abbrev FlowHasChain : SeclangActions crs → Type 0
    FlowHasChain s = Any IsChainAction s.flow_actions

    csr-HasChain :
        (a : SecRuleActions)
        → has_chain a.flow ≡ true
        → Returns FlowHasChain (sec_action_to_csr crs a)
    unfolding sec_action_to_csr
    csr-HasChain a h =
        pass-Returns FlowHasChain (actions_to_csr crs crs.data_action_type a.data_actions) _ λ d.
          pass-Returns FlowHasChain (disruptive_to_csr crs a.disruptive_action) _ λ e.
            bind-Returns (Any IsChainAction) FlowHasChain
              (actions_to_csr crs crs.flow_action_type a.flow) _ (flow-HasChain a.flow h)
              λ flow is_chain.
                pass-Returns FlowHasChain
                  (actions_to_csr crs crs.non_disruptive_action_type a.non_disruptive) _
                  λ n. is_chain

    need_chain-HasChain :
        (meta : Option SecRuleMetadata) (m : Match) (actions : Option SecRuleActions)
        → Returns HasChain (match_to_link crs meta m actions true)
    unfolding match_to_link rule_to_link convert_actions
    need_chain-HasChain meta m actions =
        pass-Returns HasChain (convert_metadata crs meta) _ λ metadata.
          pass-Returns HasChain (convert_conditions crs (to_condition m ∷ [])) _ λ conditions.
            bind-Returns FlowHasChain HasChain (sec_action_to_csr crs (ensure_chain_action actions))
              _ (csr-HasChain (ensure_chain_action actions) (ensure_chain_action-has_chain actions))
              λ done is_chain. is_chain

    go_on :
        (l : Link crs) (ls : List (Link crs)) (n : ℕ)
        → length ls ≡ suc n
        → IsHarmless l
        → HasChain l
        → AreChildren ls
        → AreChildren (l ∷ ls)
    go_on l [] n e harmless chained h = cc
    go_on l (m ∷ ls) n e harmless chained h = (harmless, chained, h)

    start :
        (l : Link crs) (ls : List (Link crs)) (n : ℕ)
        → length ls ≡ suc n
        → HasChain l
        → AreChildren ls
        → IsChain (l ∷ ls)
    start l [] n e chained h = cc
    start l (m ∷ ls) n e chained h = (chained, h)

    abbrev ChildrenOf : List Match → List (Link crs) → Type 0
    ChildrenOf ms ls = AreChildren ls × (length ls ≡ length ms)

    child_links-AreChildren :
        (spec : SecRuleSpec) (ms : List Match) → Returns (ChildrenOf ms) (child_links crs spec ms)
    unfolding child_links finish_child remove_chain_from_flow_actions
    child_links-AreChildren spec [] = (tt, refl)
    child_links-AreChildren spec (m ∷ []) =
        pass-Returns (ChildrenOf (m ∷ []))
          (match_to_link crs none m (child_actions crs spec m true) false) _
          λ link. ((refl, filter_chain-HasNone link.actions.flow_actions), refl)
    child_links-AreChildren spec (m ∷ n ∷ ms) =
        bind-Returns HasChain (ChildrenOf (m ∷ n ∷ ms))
          (match_to_link crs none m (child_actions crs spec m false) true) _
          (need_chain-HasChain none m (child_actions crs spec m false))
          λ link chained.
            bind-Returns (ChildrenOf (n ∷ ms)) (ChildrenOf (m ∷ n ∷ ms))
              (child_links crs spec (n ∷ ms)) _ (child_links-AreChildren spec (n ∷ ms))
              λ more (h, e).
                (go_on (finish_child crs false link) more (length ms) e refl chained h, ap suc e)

    abbrev ChainOf : List Match → List (Link crs) → Type 0
    ChainOf ms ls = IsChain ls × (length ls ≡ length ms)

    chain_links-IsChain :
        (spec : SecRuleSpec) (m : Match) (ms : List Match)
        → Returns (ChainOf (m ∷ ms)) (chain_links crs spec m ms)
    unfolding chain_links child_links
    chain_links-IsChain spec m [] =
        pass-Returns (ChainOf (m ∷ []))
          (match_to_link crs spec.metadata m (head_actions crs spec m) false) _ λ link. (tt, refl)
    chain_links-IsChain spec m (n ∷ ms) =
        bind-Returns HasChain (ChainOf (m ∷ n ∷ ms))
          (match_to_link crs spec.metadata m (head_actions crs spec m) true) _
          (need_chain-HasChain spec.metadata m (head_actions crs spec m))
          λ link chained.
            bind-Returns (ChildrenOf (n ∷ ms)) (ChainOf (m ∷ n ∷ ms))
              (child_links crs spec (n ∷ ms)) _ (child_links-AreChildren spec (n ∷ ms))
              λ more (h, e). (start link more (length ms) e chained h, ap suc e)

    always_link-IsChain :
        (spec : SecRuleSpec) (m : Match) → Returns (ChainOf (m ∷ [])) (always_link crs spec m)
    unfolding always_link
    always_link-IsChain spec m =
        pass-Returns (ChainOf (m ∷ [])) (map_api_transformations crs m.transformations) _ λ mapped.
          pass-Returns (ChainOf (m ∷ [])) (convert_metadata crs spec.metadata) _ λ metadata.
            pass-Returns (ChainOf (m ∷ [])) (convert_actions crs (head_actions crs spec m)) _
              λ actions. (tt, refl)

    -- A rule has as many links as its SecRule has matches, and one if it has none. In a chain, all links
    -- but the last carry the action `chain` and the last does not, and no link behind the head has a
    -- disruptive action; this is where crslang's action of the type `chain` has that key.
    pub convert_matches-IsChain :
        (spec : SecRuleSpec) (links : List (Link crs))
        → convert_matches crs spec spec.matches ≡ ok links
        → IsChain links × (length links ≡ elim spec.matches [ [] ↦ 1 | m ∷ ms ↦ suc (length ms) ])
    unfolding convert_matches
    convert_matches-IsChain spec links e =
        returned_value (Whole spec.matches) (convert_matches crs spec spec.matches) links e
          (by_matches spec.matches)
      where
        Whole : List Match → List (Link crs) → Type 0
        Whole ms ls = IsChain ls × (length ls ≡ elim ms [ [] ↦ 1 | m ∷ ms ↦ suc (length ms) ])

        by_matches : (ms : List Match) → Returns (Whole ms) (convert_matches crs spec ms)
        by_matches [] = always_link-IsChain spec always
        by_matches (m ∷ []) =
            if_ind (Returns (Whole (m ∷ []))) m.always_match (always_link-IsChain spec m)
              (chain_links-IsChain spec m [])
        by_matches (m ∷ n ∷ ms) = chain_links-IsChain spec m (n ∷ ms)
