-- ===== src/Movement/Stock.antt =====
-- CheckMove and ApplyMove of movement/adapters/postgres/store.go, over the rows of
-- inventory_location_balance, warehouse_location and inventory_movement. The columns' checks keep
-- the quantities and capacities from being negative, so they are numbers; a statement that would
-- leave a column's range fails. A primary key makes the first row that matches the only one.
pub mod Conservation
use pda_backend.Common.{
  ℕ, ◌+◌, ◌-◌, String, Option, none, some, List, [], ◌∷◌, ◌++◌, Bool, not, ◌&&◌, ◌==◌, ltb, leb,
  eqb, any, if◌then◌else◌, held_by_other,
}
use pda_backend.Common.Int64.{half, lt_i64, sub_i64}
use pda_backend.Platform.{Error, Action, ok, err, ◌>>◌, ◌>>=◌}
use pda_backend.Movement.Task.{Task}

pub record Balance : Type 0 where
  pub warehouse_id : String
  pub location_id : String
  pub item_id : String
  pub quantity : ℕ

pub record Location : Type 0 where
  pub warehouse_id : String
  pub location_id : String
  pub capacity : ℕ
  pub used_capacity : ℕ
  pub compatible_item_id : Option String

-- A row of inventory_movement: unique by task and version.
pub record Movement : Type 0 where
  pub task_id : String
  pub aggregate_version : ℕ
  pub item_id : String
  pub source_location : String
  pub destination_location : String
  pub quantity : ℕ

pub record Stock : Type 0 where
  pub balances : List Balance
  pub locations : List Location
  pub movements : List Movement

abbrev pub is_balance : String → String → String → Balance → Bool
is_balance w l i b = b.warehouse_id == w && b.location_id == l && b.item_id == i

abbrev pub is_location : String → String → Location → Bool
is_location w l x = x.warehouse_id == w && x.location_id == l

unfoldable pub balance_at : String → String → String → List Balance → Option ℕ
balance_at w l i [] = none
balance_at w l i (b ∷ bs) =
    let rest = balance_at w l i bs in if is_balance w l i b then some b.quantity else rest

unfoldable pub location_at : String → String → List Location → Option Location
location_at w l [] = none
location_at w l (x ∷ xs) =
    let rest = location_at w l xs in if is_location w l x then some x else rest

unfoldable pub check_move : Task → ℕ → Stock → Option Error
check_move t q s = elim (balance_at t.warehouse_id t.source_location t.item_id s.balances) [
  | none ↦ some Error.insufficient_stock
  | some stock ↦
      if ltb stock q
      then some Error.insufficient_stock
      else elim (location_at t.warehouse_id t.destination_location s.locations) [
        | none ↦ some Error.destination_location_invalid
        | some x ↦
            if held_by_other x.compatible_item_id t.item_id
            then some Error.location_capacity_exceeded
            else if lt_i64 (sub_i64 x.capacity x.used_capacity) q
            then some Error.location_capacity_exceeded
            else none
      ]
]

-- `UPDATE … SET quantity=quantity-$4 … AND quantity >= $4`, or nothing where no row is affected.
unfoldable pub withdraw : String → String → String → ℕ → List Balance → Option (List Balance)
withdraw w l i q [] = none
withdraw w l i q (b ∷ bs) =
    let rest = withdraw w l i q bs in
    if is_balance w l i b
    then if leb q b.quantity then some (record b { quantity = b.quantity - q } ∷ bs) else none
    else elim rest [ none ↦ none | some bs' ↦ some (b ∷ bs') ]

-- `INSERT … ON CONFLICT … DO UPDATE SET quantity=…+$4`, or nothing where the sum is no bigint.
unfoldable pub deposit : String → String → String → ℕ → List Balance → Option (List Balance)
deposit w l i q [] =
    some (record { warehouse_id = w; location_id = l; item_id = i; quantity = q } ∷ [])
deposit w l i q (b ∷ bs) =
    let rest = deposit w l i q bs in
    if is_balance w l i b
    then if ltb (b.quantity + q) half
      then some (record b { quantity = b.quantity + q } ∷ bs)
      else none
    else elim rest [ none ↦ none | some bs' ↦ some (b ∷ bs') ]

-- `UPDATE warehouse_location SET used_capacity=used_capacity-$3`, under `used_capacity >= 0`.
unfoldable pub free_capacity : String → String → ℕ → List Location → Option (List Location)
free_capacity w l q [] = some []
free_capacity w l q (x ∷ xs) =
    let rest = free_capacity w l q xs in
    if is_location w l x
    then if leb q x.used_capacity
      then some (record x { used_capacity = x.used_capacity - q } ∷ xs)
      else none
    else elim rest [ none ↦ none | some xs' ↦ some (x ∷ xs') ]

-- `UPDATE warehouse_location SET used_capacity=used_capacity+$3`
unfoldable pub use_capacity : String → String → ℕ → List Location → Option (List Location)
use_capacity w l q [] = some []
use_capacity w l q (x ∷ xs) =
    let rest = use_capacity w l q xs in
    if is_location w l x
    then if ltb (x.used_capacity + q) half
      then some (record x { used_capacity = x.used_capacity + q } ∷ xs)
      else none
    else elim rest [ none ↦ none | some xs' ↦ some (x ∷ xs') ]

abbrev pub movement_of : Task → ℕ → Movement
movement_of t q = record {
  task_id = t.id;
  aggregate_version = t.version;
  item_id = t.item_id;
  source_location = t.source_location;
  destination_location = t.destination_location;
  quantity = q;
}

abbrev pub is_recorded : Task → List Movement → Bool
is_recorded t = any (λ m. m.task_id == t.id && eqb m.aggregate_version t.version)

-- One statement of ApplyMove: the new rows, or the error.
abbrev pub statement {ℓ} :
    {A : Type ℓ} → Error → (A → Stock → Stock) → (Stock → Option A) → Action Stock (Unit {0})
statement e write rows s = elim (rows s) [ none ↦ (err e, s) | some a ↦ (ok tt, write a s) ]

unfoldable pub apply_move : Task → ℕ → Action Stock (Unit {0})
apply_move t q = do
  statement Error.insufficient_stock (λ bs s. record s { balances = bs })
      (λ s. withdraw t.warehouse_id t.source_location t.item_id q s.balances)
  statement (Error.fault 0) (λ bs s. record s { balances = bs })
      (λ s. deposit t.warehouse_id t.destination_location t.item_id q s.balances)
  statement (Error.fault 0) (λ xs s. record s { locations = xs })
      (λ s. free_capacity t.warehouse_id t.source_location q s.locations)
  statement (Error.fault 0) (λ xs s. record s { locations = xs })
      (λ s. use_capacity t.warehouse_id t.destination_location q s.locations)
  statement (Error.fault 0) (λ ms s. record s { movements = ms })
      (λ s.
        if is_recorded t s.movements then none else some (s.movements ++ (movement_of t q ∷ [])))
