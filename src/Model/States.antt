-- ===== src/Model/States.antt =====
-- The states other than CANONICAL are other texts.
use mathlib.Core.Bool.{false≢true}
use text.Mathlib.TextEquality.{eq_iff}
use truthmetal.Base.{◌≢◌}
use truthmetal.Model.{
  state_submitted, state_validating, state_consensus_pending, state_canonical, state_rejected,
  state_revoked,
}

pub submitted≢canonical : state_submitted ≢ state_canonical
submitted≢canonical e = false≢true ((eq_iff state_submitted state_canonical).1 e)

pub validating≢canonical : state_validating ≢ state_canonical
validating≢canonical e = false≢true ((eq_iff state_validating state_canonical).1 e)

pub pending≢canonical : state_consensus_pending ≢ state_canonical
pending≢canonical e = false≢true ((eq_iff state_consensus_pending state_canonical).1 e)

pub rejected≢canonical : state_rejected ≢ state_canonical
rejected≢canonical e = false≢true ((eq_iff state_rejected state_canonical).1 e)

pub revoked≢canonical : state_revoked ≢ state_canonical
revoked≢canonical e = false≢true ((eq_iff state_revoked state_canonical).1 e)
