-- ===== src/Tests/Markdowns.antt =====
-- The front matter of a memory.
use agent_global_context.Prelude.{◌≡◌, refl}
use agent_global_context.Result.{ok}
use agent_global_context.Markdown.{from_front_matter, front_matter, sections_of}
use agent_global_context.Markdown.RoundTrip.{IsWritable, from_front_matter-front_matter}
use agent_global_context.Tests.Memories.{tea}

tea-IsWritable : IsWritable tea
tea-IsWritable = record {
  id = refl;
  kind = refl;
  subkind = refl;
  status = refl;
  level = refl;
  temporal_type = refl;
  valid_from = refl;
  last_observed = refl;
  review_after = tt;
  prior = refl;
  decision_impact = refl;
  exposure = refl;
  scopes = (refl, tt);
  applies_when = tt;
  not_when = tt;
  freshness_policy = refl;
  sensitivity = refl;
  created_at = refl;
  updated_at = refl;
  confirmed_at = tt;
  evidence_refs = (refl, tt);
  optionals = (tt, (refl, (refl, (refl, (refl, (tt, (tt, (tt, tt))))))));
  goal_refs = tt;
}

from_front_matter-front_matter_example :
    from_front_matter (front_matter tea) (ok (sections_of tea)) ≡ ok tea
from_front_matter-front_matter_example = from_front_matter-front_matter tea tea-IsWritable
