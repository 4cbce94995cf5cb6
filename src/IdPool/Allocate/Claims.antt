-- ===== src/IdPool/Allocate/Claims.antt =====
-- internal/controller/seclang/id_pool.go: `collectUsedIDs` misses no id that a SecRule claims.
use kubewaf.Prelude.{
  ℕ, ◌<◌, ◌≡◌, sym, subst, true, Option, none, some, List, [], ◌∷◌, arith, inl, inr, Any,
}
use kubewaf.Api.SecRule.{SecRule, SecLangSecRule, meta_id}
use kubewaf.Api.Atoi.{atoi}
use kubewaf.IdPool.Pool.{IdSet}
use kubewaf.IdPool.Allocate.{note_id, note_ids, note_parsed, note_rules, note_rule, note_all}

-- The SecRule has the id: in its status, in a metadata block, or in its annotation.
pub data Claims (sr : SecRule) (id : ℕ) : Type 0 where
  by_status : Any (λ i. i ≡ id) sr.status.assigned_ids → Claims sr id
  by_primary : sr.status.rule_id ≡ id → Claims sr id
  by_metadata : meta_id sr.spec.metadata ≡ id → Claims sr id
  by_rule : Any (λ r. meta_id r.metadata ≡ id) sr.spec.sec_rules → Claims sr id
  by_annotation : atoi sr.assigned_id_annotation ≡ some id → Claims sr id

note_id_keeps : (i j : ℕ) (used : IdSet) → used j ≡ true → note_id i used j ≡ true
unfolding note_id
note_id_keeps i j used h = ground arith

note_id_notes : (id : ℕ) (used : IdSet) → 0 < id → note_id id used id ≡ true
unfolding note_id
note_id_notes id used pos = ground arith

note_ids_keeps : (ids : List ℕ) (j : ℕ) (used : IdSet) → used j ≡ true → note_ids ids used j ≡ true
unfolding note_ids
note_ids_keeps [] j used h = h
note_ids_keeps (i ∷ ids) j used h = note_ids_keeps ids j (note_id i used) (note_id_keeps i j used h)

note_ids_notes :
    (ids : List ℕ) (id : ℕ) (used : IdSet)
    → 0 < id
    → Any (λ i. i ≡ id) ids
    → note_ids ids used id ≡ true
unfolding note_ids
note_ids_notes [] id used pos h = absurd h
note_ids_notes (i ∷ ids) id used pos (inl e) =
    note_ids_keeps ids id (note_id i used)
      (subst (λ k. note_id k used id ≡ true) (sym e) (note_id_notes id used pos))
note_ids_notes (i ∷ ids) id used pos (inr h) = note_ids_notes ids id (note_id i used) pos h

note_rules_keeps :
    (rs : List SecLangSecRule) (j : ℕ) (used : IdSet) → used j ≡ true → note_rules rs used j ≡ true
unfolding note_rules
note_rules_keeps [] j used h = h
note_rules_keeps (r ∷ rs) j used h =
    note_rules_keeps rs j (note_id (meta_id r.metadata) used)
      (note_id_keeps (meta_id r.metadata) j used h)

note_rules_notes :
    (rs : List SecLangSecRule) (id : ℕ) (used : IdSet)
    → 0 < id
    → Any (λ r. meta_id r.metadata ≡ id) rs
    → note_rules rs used id ≡ true
unfolding note_rules
note_rules_notes [] id used pos h = absurd h
note_rules_notes (r ∷ rs) id used pos (inl e) =
    note_rules_keeps rs id (note_id (meta_id r.metadata) used)
      (subst (λ k. note_id k used id ≡ true) (sym e) (note_id_notes id used pos))
note_rules_notes (r ∷ rs) id used pos (inr h) =
    note_rules_notes rs id (note_id (meta_id r.metadata) used) pos h

note_parsed_keeps :
    (o : Option ℕ) (j : ℕ) (used : IdSet) → used j ≡ true → note_parsed o used j ≡ true
unfolding note_parsed
note_parsed_keeps none j used h = h
note_parsed_keeps (some i) j used h = note_id_keeps i j used h

note_rule_keeps : (sr : SecRule) (j : ℕ) (used : IdSet) → used j ≡ true → note_rule sr used j ≡ true
unfolding note_rule
note_rule_keeps sr j used h =
    let status = note_ids sr.status.assigned_ids used in
    let primary = note_id sr.status.rule_id status in
    let metadata = note_id (meta_id sr.spec.metadata) primary in
    note_parsed_keeps (atoi sr.assigned_id_annotation) j (note_rules sr.spec.sec_rules metadata) (
      note_rules_keeps sr.spec.sec_rules j metadata (
        note_id_keeps (meta_id sr.spec.metadata) j primary (
          note_id_keeps sr.status.rule_id j status
            (note_ids_keeps sr.status.assigned_ids j used h))))

note_rule_notes :
    (sr : SecRule) (id : ℕ) (used : IdSet) → 0 < id → Claims sr id → note_rule sr used id ≡ true
unfolding note_rule
note_rule_notes sr id used pos claim =
    let status = note_ids sr.status.assigned_ids used in
    let primary = note_id sr.status.rule_id status in
    let metadata = note_id (meta_id sr.spec.metadata) primary in
    let after_rules : note_rules sr.spec.sec_rules metadata id ≡ true
        → note_parsed (atoi sr.assigned_id_annotation) (note_rules sr.spec.sec_rules metadata) id
          ≡ true =
      note_parsed_keeps (atoi sr.assigned_id_annotation) id
        (note_rules sr.spec.sec_rules metadata) in
    let after_metadata : metadata id ≡ true → note_rules sr.spec.sec_rules metadata id ≡ true =
      note_rules_keeps sr.spec.sec_rules id metadata in
    let after_primary : primary id ≡ true → metadata id ≡ true =
      note_id_keeps (meta_id sr.spec.metadata) id primary in
    elim claim [
      | Claims.by_status h ↦ after_rules (
          after_metadata (
            after_primary (
              note_id_keeps sr.status.rule_id id status
                (note_ids_notes sr.status.assigned_ids id used pos h))))
      | Claims.by_primary e ↦ after_rules (
          after_metadata (
            after_primary
              (subst (λ k. note_id k status id ≡ true) (sym e) (note_id_notes id status pos))))
      | Claims.by_metadata e ↦ after_rules (
          after_metadata
            (subst (λ k. note_id k primary id ≡ true) (sym e) (note_id_notes id primary pos)))
      | Claims.by_rule h ↦ after_rules (note_rules_notes sr.spec.sec_rules id metadata pos h)
      | Claims.by_annotation e ↦ rw e (note_id_notes id (note_rules sr.spec.sec_rules metadata) pos)
    ]

note_all_keeps :
    (srs : List SecRule) (j : ℕ) (used : IdSet) → used j ≡ true → note_all srs used j ≡ true
unfolding note_all
note_all_keeps [] j used h = h
note_all_keeps (sr ∷ srs) j used h =
    note_all_keeps srs j (note_rule sr used) (note_rule_keeps sr j used h)

-- An id above 0 that a SecRule of the cluster claims is used.
pub note_all_notes :
    (srs : List SecRule) (id : ℕ) (used : IdSet)
    → 0 < id
    → Any (λ sr. Claims sr id) srs
    → note_all srs used id ≡ true
unfolding note_all
note_all_notes [] id used pos h = absurd h
note_all_notes (sr ∷ srs) id used pos (inl claim) =
    note_all_keeps srs id (note_rule sr used) (note_rule_notes sr id used pos claim)
note_all_notes (sr ∷ srs) id used pos (inr h) = note_all_notes srs id (note_rule sr used) pos h
