-- ===== src/Engine/Policy/Order.antt =====
-- The order of frames: stale is the complement of a strict lexicographic order on opening time, revision
-- and rank of the status.
use alerts.Common.{ℕ, ◌<◌, ◌≡◌, ◌↔◌, ◌⊎◌, false, arith, nat_eq, string_eq}
use alerts.Model.{is_zero, Observation, SeriesEvaluationState}
use alerts.Engine.Policy.{status_rank, stale}

-- Where a frame stands in the history of its series.
pub record Position : Type 0 where
  pub open_time : ℕ
  pub revision : ℕ
  pub rank : ℕ

abbrev pub position_of : {F : Type 0} → Observation F → Position
position_of o = record {
  open_time = o.candle.open_time;
  revision = o.revision;
  rank = status_rank o.status;
}

-- The position of the last frame that a series accepted.
abbrev pub position_in : {F : Type 0} → SeriesEvaluationState F → Position
position_in s = record {
  open_time = s.last_open_time;
  revision = s.last_revision;
  rank = status_rank s.last_status;
}

-- p stands strictly before q.
abbrev pub Before : Position → Position → Type 0
Before p q =
    (p.open_time < q.open_time)
    ⊎ ((p.open_time ≡ q.open_time)
        × ((p.revision < q.revision) ⊎ ((p.revision ≡ q.revision) × (p.rank < q.rank))))

pub Before-trans : (p q r : Position) → Before p q → Before q r → Before p r
Before-trans p q r h k = omega arith

pub Before-irrefl : (p : Position) → ¬ (Before p p)
Before-irrefl p h = omega arith

module _ {F : Type 0} (o : Observation F) (s : SeriesEvaluationState F) where
  fresh-Before :
      stale o s ≡ false → is_zero s.last_open_time ≡ false → Before (position_in s) (position_of o)
  unfolding stale
  fresh-Before h z = ground arith

  Before-fresh : Before (position_in s) (position_of o) → stale o s ≡ false
  unfolding stale
  Before-fresh h = ground arith

  -- Once a series has a frame, another is accepted exactly when it stands strictly after it: by a later
  -- opening time, for the same bar by a later revision, and for the same revision by turning confirmed.
  pub stale_iff :
      is_zero s.last_open_time ≡ false
      → (stale o s ≡ false) ↔ Before (position_in s) (position_of o)
  stale_iff z = (λ h. fresh-Before h z, Before-fresh)
