-- ===== src/SoftwareModules/Single.antt =====
-- The results of an operation and its status (cwmp_plugin/smm.c).
use tr069_manager.Base.{
  ℕ, suc, ◌≤◌, ◌≡◌, refl, ◌↔◌, inl, inr, Bool, true, false, not, ◌&&◌, ◌||◌, some, List, [], ◌∷◌,
  ◌++◌, arith, ◌==◌, if◌then◌else◌, Bool-cases, Option-cases, streq, streq→eq, length, is_empty,
  List-cases,
}
use tr069_manager.SoftwareModules.Defs.{
  op_status_in_progress, OpResult, Operation, StateChange, Smm, in_progress, done,
}
use tr069_manager.SoftwareModules.Operation.{
  op_status_get, find_in, find_operation, put_in, put_operation, add_result, finish_operation,
  count_done,
}

abbrev pub all {ℓ} : {A : Type ℓ} → (A → Bool) → List A → Bool
all p [] = true
all p (x ∷ l) = p x && all p l

pub all-append {ℓ} :
    {A : Type ℓ} (p : A → Bool) (xs ys : List A) → all p (xs ++ ys) ≡ (all p xs && all p ys)
all-append p [] ys = refl
all-append p (x ∷ xs) ys = ground (arith, all-append p xs ys)

abbrev pub is_done : Operation → Bool
is_done op = streq op.status done

-- In progress or done, and done only with a result; where `exact` is set, in progress without a
-- result, or done with one.
abbrev pub is_sound : Bool → Operation → Bool
is_sound exact op =
    (streq op.status in_progress && (not exact || is_empty op.results))
    || (is_done op && (if exact then length op.results == 1 else not (is_empty op.results)))

-- The operations are sound, and the instance is not Done before all of them are.
abbrev pub is_sound_change : Bool → StateChange → Bool
is_sound_change exact c =
    all (is_sound exact) c.operations
    && (is_empty c.status || (streq c.status done && all is_done c.operations))

abbrev pub is_sound_state : Bool → Smm → Bool
is_sound_state exact s = all (is_sound_change exact) s.changes

found-undone :
    (id : ℕ) (l : List Operation) (op : Operation)
    → find_in id l ≡ some op
    → is_done op ≡ false
    → all is_done l ≡ false
unfolding find_in
found-undone id [] op f undone = ground (arith, f)
found-undone id (x ∷ l) op f undone = elim (Bool-cases (x.id == id)) [
  | inl q ↦
      let same : x ≡ op = ground (arith, q, f) in
      let here : is_done x ≡ false = rw same undone in ground (arith, here)
  | inr q ↦ ground (arith, found-undone id l op (ground (arith, q, f)) undone)
]

-- An operation in progress is not done.
pub busy-undone : (op : Operation) → op_status_get op ≡ op_status_in_progress → is_done op ≡ false
unfolding op_status_get streq
busy-undone op busy =
    let q : streq op.status in_progress ≡ true = ground (arith, busy) in
    let same = streq→eq op.status in_progress q in rw same refl

module _ (exact : Bool) where
  found-is_sound :
      (id : ℕ) (l : List Operation) (op : Operation)
      → find_in id l ≡ some op
      → all (is_sound exact) l ≡ true
      → is_sound exact op ≡ true
  unfolding find_in
  found-is_sound id [] op f sound = ground (arith, f)
  found-is_sound id (x ∷ l) op f sound = elim (Bool-cases (x.id == id)) [
    | inl q ↦ ground (arith, q, f, sound)
    | inr q ↦ found-is_sound id l op (ground (arith, q, f)) (ground (arith, sound))
  ]

  put_in-is_sound :
      (id : ℕ) (new : Operation) (l : List Operation)
      → is_sound exact new ≡ true
      → all (is_sound exact) l ≡ true
      → all (is_sound exact) (put_in id new l) ≡ true
  unfolding put_in
  put_in-is_sound id new [] fine sound = refl
  put_in-is_sound id new (x ∷ l) fine sound =
      ground (arith, fine, sound, put_in-is_sound id new l fine)

  -- A sound operation may take the place of the one that is found, if that is not done.
  pub put_operation-is_sound :
      (id n m : ℕ) (new op : Operation) (l : List StateChange)
      → find_operation id n l ≡ some (m, op)
      → is_done op ≡ false
      → is_sound exact new ≡ true
      → all (is_sound_change exact) l ≡ true
      → all (is_sound_change exact) (put_operation id new l) ≡ true
  unfolding put_operation find_operation
  put_operation-is_sound id n m new op [] f undone fine sound = refl
  put_operation-is_sound id n m new op (c ∷ l) f undone fine sound =
      elim (Option-cases (find_in id c.operations)) [
        | inl k ↦
            let f' : find_operation id (suc n) l ≡ some (m, op) = ground (arith, k, f) in
            ground (arith, k, sound, put_operation-is_sound id (suc n) m new op l f' undone fine)
        | inr (y, k) ↦
            let same : y ≡ op = ground (arith, k, f) in
            let here = found-undone id c.operations y k (rw same undone) in
            ground (arith, k, sound, here, put_in-is_sound id new c.operations fine)
      ]

  pub find-is_sound :
      (id n m : ℕ) (l : List StateChange) (op : Operation)
      → find_operation id n l ≡ some (m, op)
      → all (is_sound_change exact) l ≡ true
      → is_sound exact op ≡ true
  unfolding find_operation
  find-is_sound id n m [] op f sound = ground (arith, f)
  find-is_sound id n m (c ∷ l) op f sound = elim (Option-cases (find_in id c.operations)) [
    | inl k ↦ find-is_sound id (suc n) m l op (ground (arith, k, f)) (ground (arith, sound))
    | inr (x, k) ↦
        let here = found-is_sound id c.operations x k (ground (arith, sound)) in
        ground (arith, k, f, here)
  ]

  pub finish-is_sound :
      (r : OpResult) (op : Operation)
      → is_sound exact op ≡ true
      → is_done op ≡ false
      → is_sound exact (finish_operation (add_result r op)) ≡ true
  unfolding finish_operation add_result streq
  finish-is_sound r op sound undone = elim (List-cases op.results) [
    | inl n ↦ rw (n, finish_operation) (ground (arith, sound))
    | inr (x, (l, n)) ↦ ground (arith, sound, undone, n)
  ]

-- A result alone leaves an operation sound where it need not be exact.
pub add-is_sound :
    (r : OpResult) (op : Operation)
    → is_sound false op ≡ true
    → is_done op ≡ false
    → is_sound false (add_result r op) ≡ true
unfolding add_result
add-is_sound r op sound undone = ground (arith, sound, undone)

pub count_done-all :
    (l : List Operation)
    → (count_done l ≤ length l) × ((count_done l ≡ length l) ↔ (all is_done l ≡ true))
unfolding count_done
count_done-all [] = (omega arith, ground arith)
count_done-all (op ∷ l) = (ground (arith, count_done-all l), ground (arith, count_done-all l))
