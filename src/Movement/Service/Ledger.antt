-- ===== src/Movement/Service/Ledger.antt =====
-- The stock over any sequence of requests: what is in the locations.
use pda_backend.Common.{ℕ, ◌<◌, String, ◌≡◌, refl, inl, inr, Option, List, [], ◌∷◌, All, ◌∙◌}
use pda_backend.Common.Int64.{modulus, pos-IsNat}
use pda_backend.Platform.{Error}
use pda_backend.Movement.Stock.Conservation.{total, apply_move-total, Fits, apply_move-Fits}
use pda_backend.Movement.Database.{Database, MovementEvent, scan}
use pda_backend.Movement.Service.{Command, Fresh, Operation, plan, request}
use pda_backend.Movement.Service.Atomicity.{kept_or_applied}

-- A call of a service with what it takes from outside, the publisher's answer included.
pub record Request : Type 0 where
  pub operation : Operation
  pub command : Command
  pub fresh : Fresh
  pub refusal : MovementEvent → Option Error

abbrev pub quantity_of : Request → ℕ
quantity_of r = (plan r.operation r.command r.fresh.now).quantity

-- The quantity is an int64.
abbrev pub InRange : Request → Type 0
InRange r = quantity_of r < modulus

abbrev pub serve_one : Request → Database → Database
serve_one r s = (request r.refusal r.operation r.command r.fresh s).1

unfoldable pub serve : List Request → Database → Database
serve [] s = s
serve (r ∷ rs) s = serve rs (serve_one r s)

step-total :
    (r : Request) (s : Database) (v j : String)
    → total v j (serve_one r s).stock.balances ≡ total v j s.stock.balances
unfolding request
step-total r s v j =
    let p = plan r.operation r.command r.fresh.now in
    elim (kept_or_applied r.refusal p.workflow r.command p.event_type r.fresh p.quantity
      p.transition s) [
        | inl (same, why) ↦ rw (same) refl
        | inr (row, new, found, accepted, carries, kept, saved, inl (still, same)) ↦
            rw (← same) refl
        | inr (row, new, found, accepted, carries, kept, saved, inr (moving, checked, applied)) ↦
            (apply_move-total (p.transition (scan row)).0 p.quantity s.stock _ v j applied).0
      ]

-- No requests, in whatever number and order, change how much of an item a warehouse has.
pub serve-total :
    (rs : List Request) (s : Database) (v j : String)
    → total v j (serve rs s).stock.balances ≡ total v j s.stock.balances
unfolding serve
serve-total [] s v j = refl
serve-total (r ∷ rs) s v j = serve-total rs (serve_one r s) v j ∙ step-total r s v j

step-Fits :
    (r : Request) (s : Database)
    → InRange r
    → All Fits s.stock.locations
    → All Fits (serve_one r s).stock.locations
unfolding request
step-Fits r s n f =
    let p = plan r.operation r.command r.fresh.now in
    elim (kept_or_applied r.refusal p.workflow r.command p.event_type r.fresh p.quantity
      p.transition s) [
        | inl (same, why) ↦ rw (same) f
        | inr (row, new, found, accepted, carries, kept, saved, inl (still, same)) ↦ rw (← same) f
        | inr (row, new, found, accepted, carries, kept, saved, inr (moving, checked, applied)) ↦
            apply_move-Fits (p.transition (scan row)).0 p.quantity s.stock _
              (pos-IsNat p.quantity n moving) checked applied f
      ]

-- A warehouse whose locations hold no more than their capacity stays so over any requests, for
-- quantities that are int64.
pub serve-Fits :
    (rs : List Request) (s : Database)
    → All InRange rs
    → All Fits s.stock.locations
    → All Fits (serve rs s).stock.locations
unfolding serve
serve-Fits [] s n f = f
serve-Fits (r ∷ rs) s n f = serve-Fits rs (serve_one r s) n.1 (step-Fits r s n.0 f)
