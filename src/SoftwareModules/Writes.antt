-- ===== src/SoftwareModules/Writes.antt =====
-- Writes to an operation one after the other (cwmp_plugin/smm.c).
use tr069_manager.Base.{
  ℕ, suc, ◌≡◌, refl, sym, ap, ◌∙◌, inl, inr, some, List, [], ◌∷◌, arith, ◌==◌, Bool-cases,
  Option-cases,
}
use tr069_manager.SoftwareModules.Defs.{Operation, StateChange}
use tr069_manager.SoftwareModules.Operation.{find_in, find_operation, put_in, put_operation}

find_in-id : (id : ℕ) (l : List Operation) (op : Operation) → find_in id l ≡ some op → op.id ≡ id
unfolding find_in
find_in-id id [] op f = ground (arith, f)
find_in-id id (x ∷ l) op f = elim (Bool-cases (x.id == id)) [
  | inl q ↦
      let same : x ≡ op = ground (arith, q, f) in
      let here : x.id ≡ id = ground (arith, q) in ap (λ y. y.id) (sym same) ∙ here
  | inr q ↦ find_in-id id l op (ground (arith, q, f))
]

-- The operation that is found has the ID.
pub find_operation-id :
    (id n m : ℕ) (l : List StateChange) (op : Operation)
    → find_operation id n l ≡ some (m, op)
    → op.id ≡ id
unfolding find_operation
find_operation-id id n m [] op f = ground (arith, f)
find_operation-id id n m (c ∷ l) op f = elim (Option-cases (find_in id c.operations)) [
  | inl k ↦ find_operation-id id (suc n) m l op (ground (arith, k, f))
  | inr (x, k) ↦
      let same : x ≡ op = ground (arith, k, f) in
      ap (λ y. y.id) (sym same) ∙ find_in-id id c.operations x k
]

find_in-put_in :
    (id : ℕ) (new op : Operation) (l : List Operation)
    → new.id ≡ id
    → find_in id l ≡ some op
    → find_in id (put_in id new l) ≡ some new
unfolding find_in put_in
find_in-put_in id new op [] same f = ground (arith, f)
find_in-put_in id new op (x ∷ l) same f = elim (Bool-cases (x.id == id)) [
  | inl q ↦ ground (arith, q, same)
  | inr q ↦ ground (arith, q, find_in-put_in id new op l same (ground (arith, q, f)))
]

put_in-put_in :
    (id : ℕ) (old new : Operation) (l : List Operation)
    → old.id ≡ id
    → put_in id new (put_in id old l) ≡ put_in id new l
unfolding put_in
put_in-put_in id old new [] same = refl
put_in-put_in id old new (x ∷ l) same = elim (Bool-cases (x.id == id)) [
  | inl q ↦ ground (arith, q, same)
  | inr q ↦ ground (arith, q, put_in-put_in id old new l same)
]

-- The second of two writes counts.
pub put_operation-put_operation :
    (id : ℕ) (old new : Operation) (l : List StateChange)
    → old.id ≡ id
    → put_operation id new (put_operation id old l) ≡ put_operation id new l
unfolding put_operation
put_operation-put_operation id old new [] same = refl
put_operation-put_operation id old new (c ∷ l) same =
    elim (Option-cases (find_in id c.operations)) [
      | inl k ↦ ground (arith, k, put_operation-put_operation id old new l same)
      | inr (op, k) ↦
          let found = find_in-put_in id old op c.operations same k in
          let twice = put_in-put_in id old new c.operations same in ground (arith, k, found, twice)
    ]

-- A write with the same ID is found in the place of the operation.
pub find_operation-put_operation :
    (id n m : ℕ) (new op : Operation) (l : List StateChange)
    → new.id ≡ id
    → find_operation id n l ≡ some (m, op)
    → find_operation id n (put_operation id new l) ≡ some (m, new)
unfolding find_operation put_operation
find_operation-put_operation id n m new op [] same f = ground (arith, f)
find_operation-put_operation id n m new op (c ∷ l) same f =
    elim (Option-cases (find_in id c.operations)) [
      | inl k ↦
          let f' : find_operation id (suc n) l ≡ some (m, op) = ground (arith, k, f) in
          ground (arith, k, find_operation-put_operation id (suc n) m new op l same f')
      | inr (x, k) ↦ ground (arith, k, f, find_in-put_in id new x c.operations same k)
    ]
