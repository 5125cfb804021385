-- ===== src/Route/Outcomes/Breakers.antt =====
-- The part of a route that is its members' breakers, and what leaves it alone.
use nova_vei.Base.{ℕ, ◌≡◌, nat_eq, arith, ◌∙◌}
use nova_vei.Route.State.{RouteState}
use nova_vei.Route.Emergency.{release_emergency}
use nova_vei.Route.Reports.{leave_current, block_emergency}

-- The fields of a route that make up its members' breakers.
pub record SameBreakers (r s : RouteState) : Type 0 where
  pub cooldowns : r.cooldowns ≡ s.cooldowns
  pub levels : r.levels ≡ s.levels
  pub half_opens : r.half_opens ≡ s.half_opens

pub release_emergency-SameBreakers :
    (r : RouteState) (i : ℕ) → SameBreakers (release_emergency r i).0 r
unfolding release_emergency
release_emergency-SameBreakers r i = ground arith

pub leave_current-SameBreakers : (r : RouteState) (i : ℕ) → SameBreakers (leave_current r i) r
unfolding leave_current
leave_current-SameBreakers r i = ground arith

pub block_emergency-SameBreakers :
    (r : RouteState) (i until : ℕ) → SameBreakers (block_emergency r i until) r
unfolding block_emergency
block_emergency-SameBreakers r i until = ground arith

pub SameBreakers-trans :
    (r s t : RouteState) → SameBreakers r s → SameBreakers s t → SameBreakers r t
SameBreakers-trans r s t p q = record {
  cooldowns = p.cooldowns ∙ q.cooldowns;
  levels = p.levels ∙ q.levels;
  half_opens = p.half_opens ∙ q.half_opens;
}
