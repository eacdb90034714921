-- ===== src/Markdown/RoundTrip.antt =====
-- The front matter that `to_markdown` writes is read back.
use agent_global_context.Prelude.{
  ◌≡◌, refl, ap, ◌∙◌, String, false, Option, none, [], ◌∷◌, ◌++◌, ◌==◌, All,
}
use agent_global_context.Result.{ok, ◌>>=◌}
use agent_global_context.Models.{MemoryItem}
use agent_global_context.Value.{int, str, dict, Fields, get, keys, fields_of}
use agent_global_context.Value.Strict.{
  raise_least, difference, strict_mapping, string, optional_string, string_list, index, IsText,
  IsOptionalText, optional_string-optional, string_list-list,
}
use agent_global_context.Markdown.Entries.{
  value_or, found, get-optional_entries, difference-optional_entries, get-refs_entry,
  refs_entry-known, refs_entry-refs, optional_string-value_or,
}
use agent_global_context.Markdown.{
  required_fields, top_level_fields, temporal_from, recall_from, provenance_from,
  schema_version_from, or_none, or_no_refs, optional_from, item_from, from_front_matter,
  temporal_mapping, recall_mapping, provenance_mapping, optional_entries, refs_entry,
  optional_fields, front_matter, sections_of,
}

-- Every text of the item's front matter is non-empty.
pub record IsWritable (item : MemoryItem) : Type 0 where
  pub id : IsText item.id
  pub kind : IsText item.kind
  pub subkind : IsText item.subkind
  pub status : IsText item.lifecycle.status
  pub level : IsText item.confidence.level
  pub temporal_type : IsText item.temporal.kind
  pub valid_from : IsText item.temporal.valid_from
  pub last_observed : IsText item.temporal.last_observed
  pub review_after : IsOptionalText item.temporal.review_after
  pub prior : IsText item.recall.prior
  pub decision_impact : IsText item.recall.decision_impact
  pub exposure : IsText item.recall.exposure
  pub scopes : All IsText item.recall.scopes
  pub applies_when : All IsText item.recall.applies_when
  pub not_when : All IsText item.recall.not_when
  pub freshness_policy : IsText item.recall.freshness_policy
  pub sensitivity : IsText item.sensitivity
  pub created_at : IsText item.provenance.created_at
  pub updated_at : IsText item.provenance.updated_at
  pub confirmed_at : IsOptionalText item.provenance.confirmed_at
  pub evidence_refs : All IsText item.provenance.evidence_refs
  pub optionals : All (λ p. IsOptionalText p.1) (optional_fields item)
  pub goal_refs : All IsText item.goal_refs

module _ (item : MemoryItem) (w : IsWritable item) where
  temporal_from-mapping : temporal_from (temporal_mapping item.temporal) ≡ ok item.temporal
  unfolding temporal_from
  temporal_from-mapping =
      rw
        (
          w.temporal_type,
          w.valid_from,
          w.last_observed,
          optional_string-optional item.temporal.review_after "temporal.review_after"
              w.review_after,
        )
        refl

  recall_from-mapping : recall_from (recall_mapping item.recall) ≡ ok item.recall
  unfolding recall_from
  recall_from-mapping =
      rw
        (
          w.prior,
          w.decision_impact,
          w.exposure,
          string_list-list item.recall.scopes "recall.scopes" w.scopes,
          string_list-list item.recall.applies_when "recall.applies_when" w.applies_when,
          string_list-list item.recall.not_when "recall.not_when" w.not_when,
          w.freshness_policy,
        )
        refl

  provenance_from-mapping :
      provenance_from (provenance_mapping item.provenance) ≡ ok item.provenance
  unfolding provenance_from
  provenance_from-mapping =
      rw
        (
          w.created_at,
          w.updated_at,
          optional_string-optional item.provenance.confirmed_at "provenance.confirmed_at"
              w.confirmed_at,
          string_list-list item.provenance.evidence_refs "provenance.evidence_refs" w.evidence_refs,
        )
        refl

  abbrev tail_fields : Fields
  tail_fields = fields_of (optional_entries (optional_fields item) ++ refs_entry item.goal_refs)

  get-tail :
      (name : String)
      → (name == "goal_refs") ≡ false
      → ("goal_refs" == name) ≡ false
      → get name tail_fields ≡ found name (optional_fields item) none
  get-tail name h k =
      get-optional_entries name (optional_fields item) (refs_entry item.goal_refs)
      ∙ ap (found name (optional_fields item)) (get-refs_entry name item.goal_refs h k)

  optional_from-found :
      (name : String) (o : Option String)
      → get name (front_matter item) ≡ get name tail_fields
      → found name (optional_fields item) none ≡ value_or o none
      → (name == "goal_refs") ≡ false
      → ("goal_refs" == name) ≡ false
      → IsOptionalText o
      → optional_from (front_matter item) name ≡ ok o
  unfolding optional_from
  optional_from-found name o behind at h k text =
      ap (λ v. optional_string (or_none v) name) (behind ∙ get-tail name h k ∙ at)
      ∙ optional_string-value_or o name text

  refs_from-front :
      string_list (or_no_refs (get "goal_refs" (front_matter item))) "goal_refs" ≡ ok item.goal_refs
  unfolding front_matter
  refs_from-front =
      ap (λ v. string_list (or_no_refs v) "goal_refs")
        (get-optional_entries "goal_refs" (optional_fields item) (refs_entry item.goal_refs))
      ∙ refs_entry-refs item.goal_refs w.goal_refs

  front_matter-known : difference (keys (front_matter item)) top_level_fields ≡ []
  unfolding front_matter difference
  front_matter-known =
      difference-optional_entries top_level_fields (optional_fields item)
        (refs_entry item.goal_refs)
        (refl, (refl, (refl, (refl, (refl, (refl, (refl, (refl, tt))))))))
      ∙ refs_entry-known item.goal_refs

  -- The fields that are always there.
  index-front :
      (index (front_matter item) "schema_version" ≡ ok (int item.schema_version))
      × (index (front_matter item) "id" ≡ ok (str item.id))
      × (index (front_matter item) "kind" ≡ ok (str item.kind))
      × (index (front_matter item) "subkind" ≡ ok (str item.subkind))
      × (index (front_matter item) "sensitivity" ≡ ok (str item.sensitivity))
  unfolding front_matter index
  index-front = (refl, refl, refl, refl, refl)

  optionals_from-front :
      (optional_from (front_matter item) "policy_reason" ≡ ok item.policy_reason)
      × (optional_from (front_matter item) "topic" ≡ ok item.topic)
      × (optional_from (front_matter item) "intensity" ≡ ok item.intensity)
      × (optional_from (front_matter item) "trend" ≡ ok item.trend)
      × (optional_from (front_matter item) "motivation" ≡ ok item.motivation)
      × (optional_from (front_matter item) "domain" ≡ ok item.domain)
      × (optional_from (front_matter item) "polarity" ≡ ok item.polarity)
      × (optional_from (front_matter item) "current_level" ≡ ok item.current_level)
  unfolding front_matter
  optionals_from-front =
      let o = w.optionals in
      (
        optional_from-found "policy_reason" item.policy_reason refl refl refl refl o.0,
        optional_from-found "topic" item.topic refl refl refl refl o.1.0,
        optional_from-found "intensity" item.intensity refl refl refl refl o.1.1.0,
        optional_from-found "trend" item.trend refl refl refl refl o.1.1.1.0,
        optional_from-found "motivation" item.motivation refl refl refl refl o.1.1.1.1.0,
        optional_from-found "domain" item.domain refl refl refl refl o.1.1.1.1.1.0,
        optional_from-found "polarity" item.polarity refl refl refl refl o.1.1.1.1.1.1.0,
        optional_from-found "current_level" item.current_level refl refl refl refl
            o.1.1.1.1.1.1.1.0,
      )

  item_from-front :
      item_from
        (front_matter item)
        (fields_of (("status", str item.lifecycle.status) ∷ []))
        (fields_of (("level", str item.confidence.level) ∷ []))
        (temporal_mapping item.temporal)
        (recall_mapping item.recall)
        (provenance_mapping item.provenance)
        (ok (sections_of item))
      ≡ ok item
  unfolding item_from schema_version_from string index ◌>>=◌
  item_from-front =
      let i = index-front in
      let o = optionals_from-front in
      rw
        (
          i.0, i.1, i.2, i.3, i.4, w.id, w.kind, w.subkind, w.status, w.level, w.sensitivity,
          temporal_from-mapping, recall_from-mapping, provenance_from-mapping, o.0, o.1, o.2, o.3,
          o.4, o.5, o.6, o.7, refs_from-front,
        )
        refl

  nested-front :
      (index (front_matter item) "lifecycle"
        ≡ ok (dict (fields_of (("status", str item.lifecycle.status) ∷ []))))
      × (index (front_matter item) "confidence"
          ≡ ok (dict (fields_of (("level", str item.confidence.level) ∷ []))))
      × (index (front_matter item) "temporal" ≡ ok (dict (temporal_mapping item.temporal)))
      × (index (front_matter item) "recall" ≡ ok (dict (recall_mapping item.recall)))
      × (index (front_matter item) "provenance" ≡ ok (dict (provenance_mapping item.provenance)))
  unfolding front_matter index
  nested-front = (refl, refl, refl, refl, refl)

  front_matter_complete : difference required_fields (keys (front_matter item)) ≡ []
  unfolding front_matter difference
  front_matter_complete = refl

-- The front matter that `to_markdown` writes for an item is read back as the item, with the sections of
-- its body, if every text of the front matter is non-empty.
pub from_front_matter-front_matter :
    (item : MemoryItem)
    → IsWritable item
    → from_front_matter (front_matter item) (ok (sections_of item)) ≡ ok item
unfolding from_front_matter raise_least strict_mapping difference ◌>>=◌
from_front_matter-front_matter item w =
    let n = nested-front item w in
    rw
      (
        front_matter-known item w,
        front_matter_complete item w,
        n.0,
        n.1,
        n.2,
        n.3,
        n.4,
        item_from-front item w,
      )
      refl
