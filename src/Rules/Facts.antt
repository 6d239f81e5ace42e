-- ===== src/Rules/Facts.antt =====
-- The cases of evaluate in internal/rules/evaluator.go that read the observation alone.
use alerts.Common.{
  String, ◌<>◌, Bool, true, false, ◌&&◌, Option, none, some, [], ◌∷◌, find, ◌==◌, nat_eq, string_eq,
  if◌then◌else◌,
}
use alerts.Model.{
  Float64, Candle, FactReference, ZoneTransition, Zone, Pattern, Observation, RuleFields,
}
use alerts.Rules.Results.{RuleResult, plain, hit, side_matches, wanted_transition}

module _ {F : Type 0} ⦃fl : Float64 F⦄ where
  unfoldable pub candle_color_of : Candle F → String
  candle_color_of c =
      if fl.lt c.close c.open_price
      then "red"
      else if fl.lt c.open_price c.close
      then "green"
      else "doji"

  -- (upper + lower) / 2
  unfoldable pub middle : F → F → F
  middle upper lower = fl.div (fl.add upper lower) (fl.float 2)

  unfoldable pub transition_fact : ZoneTransition F → FactReference F
  transition_fact z = record {
    kind = z.kind;
    id = z.id;
    side = z.side;
    name = "";
    value = middle z.upper z.lower;
  }

  unfoldable pub transition_hit : String → Option (ZoneTransition F) → RuleResult F
  transition_hit t none = plain false true
  transition_hit t (some z) =
      hit ("zone " <> t <> " " <> z.side <> " " <> z.kind) (transition_fact z ∷ [])

  unfoldable pub transition_matches : RuleFields F → String → ZoneTransition F → Bool
  transition_matches f t z = z.kind == f.kind && z.transition == t && side_matches f.side z.side

  unfoldable pub zone_case : Bool → RuleFields F → Observation F → RuleResult F
  zone_case is_hit f o =
      let t = wanted_transition is_hit f.transition in
      transition_hit t (find (transition_matches f t) o.zone_transitions)

  -- The distance of a price from a zone, in basis points.
  unfoldable pub distance_bps_of : F → Zone F → F
  distance_bps_of price z =
      if fl.lt price z.lower
      then fl.mul (fl.div (fl.sub z.lower price) price) (fl.float 10000)
      else if fl.lt z.upper price
      then fl.mul (fl.div (fl.sub price z.upper) price) (fl.float 10000)
      else fl.float 0

  unfoldable pub zone_is_near : RuleFields F → F → Zone F → Bool
  zone_is_near f price z =
      z.kind == f.kind
      && side_matches f.side z.side
      && z.state == "active"
      && fl.lt (fl.float 0) (distance_bps_of price z)
      && fl.le (distance_bps_of price z) f.distance_bps

  unfoldable pub near_hit : F → Option (Zone F) → RuleResult F
  near_hit price none = plain false true
  near_hit price (some z) =
      hit ("price is " <> fl.fixed 2 (distance_bps_of price z) <> " bps from " <> z.kind) (
        record {
          kind = z.kind;
          id = z.id;
          side = z.side;
          name = "";
          value = middle z.upper z.lower;
        }
        ∷ [])

  unfoldable pub near_case : RuleFields F → Observation F → RuleResult F
  near_case f o = near_hit o.candle.close (find (zone_is_near f o.candle.close) o.active_zones)

  unfoldable pub pattern_hit : Option Pattern → RuleResult F
  pattern_hit none = plain false true
  pattern_hit (some p) =
      hit ("pattern " <> p.kind) (
        record { kind = "pattern"; id = ""; side = p.side; name = p.kind; value = fl.float 0 } ∷ [])

  unfoldable pub pattern_case : RuleFields F → Observation F → RuleResult F
  pattern_case f o =
      pattern_hit (find (λ p. p.kind == f.kind && side_matches f.side p.side) o.patterns)
