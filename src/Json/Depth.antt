-- ===== src/Json/Depth.antt =====
-- How deep a value is nested; what holds nothing has the depth 1.
use Prim.Native.Nat.{max}
use harmony_go.Prelude.{
  ℕ, suc, ◌≤◌, ◌<◌, ◌≡◌, none, some, [], ◌∷◌, All, arith, List, Option, Bytes, Option-cases,
  Bool-cases, inl, inr, bytes_eq,
}
use harmony_go.Json.{
  Value, Items, Fields, null, boolean, number, string, array, object, nil, cons, end, field, items,
  field_of, fields_of, items_of, mget, get_items,
}

unfoldable mutual
  pub depth : Value → ℕ
  depth (array vs) = suc (depth_items vs)
  depth (object fs) = suc (depth_fields fs)
  depth null = 1
  depth (boolean b) = 1
  depth (number n) = 1
  depth (string s) = 1

  pub depth_items : Items → ℕ
  depth_items nil = 1
  depth_items (cons v vs) = max (depth v) (depth_items vs)

  pub depth_fields : Fields → ℕ
  depth_fields end = 1
  depth_fields (field k v fs) = max (depth v) (depth_fields fs)

pub depth_positive : (v : Value) → 0 < depth v
unfolding depth
depth_positive (array vs) = omega arith
depth_positive (object fs) = omega arith
depth_positive null = omega arith
depth_positive (boolean b) = omega arith
depth_positive (number n) = omega arith
depth_positive (string s) = omega arith

pub depth_fields_positive : (fs : Fields) → 0 < depth_fields fs
unfolding depth_fields
depth_fields_positive end = omega arith
depth_fields_positive (field k v fs) = let pos = depth_fields_positive fs in omega arith

-- What stands in an object or an array is less deep.
pub depth-field_of :
    (key : Bytes) (fs : Fields) (w : Value) → field_of key fs ≡ some w → depth w ≤ depth_fields fs
unfolding field_of depth_fields
depth-field_of key end w e = absurd (ground arith)
depth-field_of key (field k v fs) w e = elim (Option-cases (field_of key fs)) [
  | inr (u, found) ↦
      let le = depth-field_of key fs u found in
      let e' : some u ≡ some w = rw found at e in
      let same : u ≡ w = ground arith in rw (← same) (omega arith)
  | inl gone ↦ elim (Bool-cases (bytes_eq k key)) [
    | inl found ↦
        let e' : some v ≡ some w = rw (gone, found) at e in
        let same : v ≡ w = ground arith in rw (← same) (omega arith)
    | inr other ↦
        let e' : ◌≡◌ {A = Option Value} none (some w) = rw (gone, other) at e in
        absurd (ground arith)
  ]
]

pub depth-fields_of : (v : Value) → depth_fields (fields_of v) ≤ depth v
unfolding fields_of depth
depth-fields_of (object fs) = omega arith
depth-fields_of null = omega arith
depth-fields_of (boolean b) = omega arith
depth-fields_of (number n) = omega arith
depth-fields_of (string s) = omega arith
depth-fields_of (array vs) = omega arith

pub depth-mget : (v : Value) (key : Bytes) (w : Value) → mget v key ≡ some w → depth w < depth v
unfolding mget fields_of depth field_of
depth-mget (object fs) key w e = let le = depth-field_of key fs w e in omega arith
depth-mget null key w e = absurd (ground arith)
depth-mget (boolean b) key w e = absurd (ground arith)
depth-mget (number n) key w e = absurd (ground arith)
depth-mget (string s) key w e = absurd (ground arith)
depth-mget (array vs) key w e = absurd (ground arith)

depth-items : (vs : Items) (n : ℕ) → depth_items vs ≤ n → All (λ w. depth w ≤ n) (items vs)
unfolding items depth_items
depth-items nil n le = tt
depth-items (cons v vs) n le = (omega arith, depth-items vs n omega arith)

depth-items_of : (v : Value) (n : ℕ) → depth v ≤ n → All (λ w. depth w ≤ n) (items_of v)
unfolding items_of depth
depth-items_of (array vs) n le = depth-items vs n (omega arith)
depth-items_of null n le = tt
depth-items_of (boolean b) n le = tt
depth-items_of (number b) n le = tt
depth-items_of (string s) n le = tt
depth-items_of (object fs) n le = tt

All-below :
    (m n : ℕ) (vs : List Value) → m < n → All (λ w. depth w ≤ m) vs → All (λ w. depth w < n) vs
All-below m n [] lt h = tt
All-below m n (v ∷ vs) lt (le, h) = (omega arith, All-below m n vs lt h)

pub depth-get_items : (v : Value) (key : Bytes) → All (λ w. depth w < depth v) (get_items v key)
depth-get_items v key = elim (Option-cases (mget v key)) [
  | inl e ↦ unfold get_items in rw (e, All) tt
  | inr (u, e) ↦
      let lt = depth-mget v key u e in
      let all =
        All-below (depth u) (depth v) (items_of u) lt (depth-items_of u (depth u) (omega arith)) in
      unfold get_items in rw (e, All) all
]
