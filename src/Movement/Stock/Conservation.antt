-- ===== src/Movement/Stock/Conservation.antt =====
-- What a move does to the stock: no piece is made or lost, and no location is overfilled.
use pda_backend.Common.{
  ◌++◌, ℕ, ◌+◌, ◌≤◌, String, ◌≡◌, List, [], ◌∷◌, none, some, arith, All, eq_iff, ◌&&◌, ◌==◌,
  if◌then◌else◌, inl, inr, Option-cases, true, false, Bool, leb,
}
use pda_backend.Common.Int64.{IsNat, lt_i64, sub_i64}
use pda_backend.Platform.{ok}
use pda_backend.Movement.Task.{Task}
use pda_backend.Movement.Stock.{
  Balance, Location, Stock, check_move, apply_move, withdraw, deposit, free_capacity, use_capacity,
  balance_at, location_at, is_location, movement_of,
}

-- All that the warehouse `w` has of the item `i`, in every location.
unfoldable pub total : String → String → List Balance → ℕ
total w i [] = 0
total w i (b ∷ bs) =
    (if b.warehouse_id == w && b.item_id == i then b.quantity else 0) + total w i bs

pub withdraw-total :
    (w l i : String) (q : ℕ) (bs bs' : List Balance) (v j : String)
    → withdraw w l i q bs ≡ some bs'
    → total v j bs ≡ total v j bs' + (if w == v && i == j then q else 0)
unfolding withdraw total
withdraw-total w l i q [] bs' v j h = cc
withdraw-total w l i q (b ∷ bs) bs' v j h = elim (Option-cases (withdraw w l i q bs)) [
  | inl e ↦ ground (arith, eq_iff b.warehouse_id w, eq_iff b.item_id i)
  | inr (cs, e) ↦
      ground
        (arith, eq_iff b.warehouse_id w, eq_iff b.item_id i, withdraw-total w l i q bs cs v j e)
]

pub deposit-total :
    (w l i : String) (q : ℕ) (bs bs' : List Balance) (v j : String)
    → deposit w l i q bs ≡ some bs'
    → total v j bs' ≡ total v j bs + (if w == v && i == j then q else 0)
unfolding deposit total
deposit-total w l i q [] bs' v j h = ground arith
deposit-total w l i q (b ∷ bs) bs' v j h = elim (Option-cases (deposit w l i q bs)) [
  | inl e ↦ ground (arith, eq_iff b.warehouse_id w, eq_iff b.item_id i)
  | inr (cs, e) ↦
      ground (arith, eq_iff b.warehouse_id w, eq_iff b.item_id i, deposit-total w l i q bs cs v j e)
]

-- A move that is applied changes no total: what leaves the source reaches the destination. It is
-- recorded once, with the quantity.
pub apply_move-total :
    (t : Task) (q : ℕ) (s s' : Stock) (v j : String)
    → apply_move t q s ≡ (ok tt, s')
    → (total v j s'.balances ≡ total v j s.balances)
      × (s'.movements ≡ s.movements ++ (movement_of t q ∷ []))
unfolding apply_move
apply_move-total t q s s' v j h =
    elim (Option-cases (withdraw t.warehouse_id t.source_location t.item_id q s.balances)) [
      | inl e ↦ ground arith
      | inr (bs, e) ↦
          elim (Option-cases (deposit t.warehouse_id t.destination_location t.item_id q bs)) [
            | inl e' ↦ ground arith
            | inr (cs, e') ↦ ground (
              arith,
              withdraw-total t.warehouse_id t.source_location t.item_id q s.balances bs v j e,
              deposit-total t.warehouse_id t.destination_location t.item_id q bs cs v j e',
            )
          ]
    ]

abbrev pub Fits : Location → Type 0
Fits x = (x.used_capacity ≤ x.capacity) × IsNat x.capacity

free_capacity-Fits :
    (w l : String) (q : ℕ) (xs xs' : List Location)
    → free_capacity w l q xs ≡ some xs'
    → All Fits xs
    → All Fits xs'
unfolding free_capacity
free_capacity-Fits w l q [] xs' h f = ground arith
free_capacity-Fits w l q (x ∷ xs) xs' h f = elim (Option-cases (free_capacity w l q xs)) [
  | inl e ↦ ground arith
  | inr (ys, e) ↦ ground (arith, free_capacity-Fits w l q xs ys e f.1)
]

-- Whether the location at `l` takes `q` more.
has_room : String → String → ℕ → List Location → Bool
has_room w l q [] = true
has_room w l q (x ∷ xs) =
    let rest = has_room w l q xs in
    if is_location w l x then leb (x.used_capacity + q) x.capacity else rest

free_capacity-has_room :
    (w l m : String) (q r : ℕ) (xs xs' : List Location)
    → free_capacity w l q xs ≡ some xs'
    → has_room w m r xs ≡ true
    → has_room w m r xs' ≡ true
unfolding free_capacity has_room
free_capacity-has_room w l m q r [] xs' h e = ground arith
free_capacity-has_room w l m q r (z ∷ zs) xs' h e = elim (Option-cases (free_capacity w l q zs)) [
  | inl f ↦ ground arith
  | inr (ys, f) ↦ ground (arith, free_capacity-has_room w l m q r zs ys f)
]

use_capacity-Fits :
    (w l : String) (q : ℕ) (xs xs' : List Location)
    → use_capacity w l q xs ≡ some xs'
    → has_room w l q xs ≡ true
    → All Fits xs
    → All Fits xs'
unfolding use_capacity has_room
use_capacity-Fits w l q [] xs' h r f = ground arith
use_capacity-Fits w l q (z ∷ zs) xs' h r f = elim (Option-cases (use_capacity w l q zs)) [
  | inl g ↦ ground arith
  | inr (ys, g) ↦ ground (arith, use_capacity-Fits w l q zs ys g)
]

room-has_room :
    (w l : String) (q : ℕ) (xs : List Location) (x : Location)
    → IsNat q
    → location_at w l xs ≡ some x
    → lt_i64 (sub_i64 x.capacity x.used_capacity) q ≡ false
    → All Fits xs
    → has_room w l q xs ≡ true
unfolding has_room location_at
room-has_room w l q [] x n h r f = cc
room-has_room w l q (z ∷ zs) x n h r f = ground (arith, room-has_room w l q zs x n)

check_move-has_room :
    (t : Task) (q : ℕ) (s : Stock)
    → IsNat q
    → check_move t q s ≡ none
    → All Fits s.locations
    → has_room t.warehouse_id t.destination_location q s.locations ≡ true
unfolding check_move
check_move-has_room t q s n c f =
    elim (Option-cases (balance_at t.warehouse_id t.source_location t.item_id s.balances)) [
      | inl e ↦ ground arith
      | inr (b, e) ↦
          elim (Option-cases (location_at t.warehouse_id t.destination_location s.locations)) [
            | inl e' ↦ ground arith
            | inr (x, e') ↦
                ground
                  (arith, room-has_room t.warehouse_id t.destination_location q s.locations x n e')
          ]
    ]

-- A move that was checked and then applied leaves no location overfilled.
pub apply_move-Fits :
    (t : Task) (q : ℕ) (s s' : Stock)
    → IsNat q
    → check_move t q s ≡ none
    → apply_move t q s ≡ (ok tt, s')
    → All Fits s.locations
    → All Fits s'.locations
unfolding apply_move
apply_move-Fits t q s s' n c h f =
    elim (Option-cases (free_capacity t.warehouse_id t.source_location q s.locations)) [
      | inl e ↦ ground arith
      | inr (xs, e) ↦
          elim (Option-cases (use_capacity t.warehouse_id t.destination_location q xs)) [
            | inl e' ↦ ground arith
            | inr (ys, e') ↦
                let room =
                  free_capacity-has_room t.warehouse_id t.source_location t.destination_location q q
                    s.locations xs e (check_move-has_room t q s n c f) in
                let fits =
                  free_capacity-Fits t.warehouse_id t.source_location q s.locations xs e f in
                let after =
                  use_capacity-Fits t.warehouse_id t.destination_location q xs ys e' room fits in
                ground arith
          ]
    ]
