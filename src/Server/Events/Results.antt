-- ===== src/Server/Events/Results.antt =====
-- The results of operations in firmware/product/rbp_server.c: `op_complete` keeps the last four,
-- and `RBP_OP_GET_OPERATION` looks them up.
use mi_remote_usb_bridge.Base.{
  ℕ, zero, suc, ◌+◌, ◌-◌, ◌%◌, ◌≤◌, ◌<◌, ◌≡◌, refl, sym, ap, ◌∙◌, arith, inl, inr, List, [], ◌∷◌,
  ◌++◌, ltb, ◌==◌, Option, none, some, if◌then◌else◌, length, length-set, length-append, drop, set,
  get_or, get_or-set_same, Bool-cases, ltb→lt, ltb→ge,
}
use mathlib.Core.Path.{ap₂}
use mi_remote_usb_bridge.Server.Codes
use mi_remote_usb_bridge.Server.Events.{op_record}
use mi_remote_usb_bridge.Server.Requests.Info.{no_result, find_done_op}
use mi_remote_usb_bridge.Server.Slots.{
  entries, entries-push, entries-set, entries_snoc, entries_agree, length-entries,
}
use mi_remote_usb_bridge.Server.State.{Server, Ops, OpResult}

abbrev pub result_at : ℕ → ℕ → ℕ
result_at head i = (head + i) % Codes.max_operation_results

-- The results that are kept, oldest first.
unfoldable pub results : Ops → List OpResult
results o = entries no_result (result_at o.done_head) o.done 0 o.done_count

-- The variables of the ring are in range.
pub record IsResults (o : Ops) : Type 0 where
  pub size : length o.done ≡ Codes.max_operation_results
  pub head_bound : o.done_head < Codes.max_operation_results
  pub count_bound : o.done_count ≤ Codes.max_operation_results

-- The newest four of a list of results.
abbrev pub last_four : List OpResult → List OpResult
last_four xs = drop (length xs - 4) xs

-- The first result of an operation, by which the host is answered.
abbrev pub lookup : ℕ → List OpResult → Option OpResult
lookup op_id [] = none
lookup op_id (r ∷ rs) = if r.op_id == op_id then some r else lookup op_id rs

find_done_op-lookup :
    (done : List OpResult) (head op_id i n : ℕ)
    → find_done_op done head op_id i n ≡ lookup op_id (entries no_result (result_at head) done i n)
unfolding find_done_op
find_done_op-lookup done head op_id i zero = refl
find_done_op-lookup done head op_id i (suc n) =
    let r = get_or done ((head + i) % Codes.max_operation_results) no_result in
    ap (λ x. if r.op_id == op_id then some r else x) (find_done_op-lookup done head op_id (i + 1) n)

-- A result that finds the ring full takes the place of the oldest.
full_ring :
    (done : List OpResult) (head : ℕ) (r : OpResult)
    → length done ≡ 4
    → head < 4
    → entries no_result (result_at ((head + 1) % 4)) (set done (result_at head 4) r) 0 4
      ≡ entries no_result (result_at head) done 1 3 ++ r ∷ []
full_ring done head r size hb =
    let q = set done (result_at head 4) r in
    entries_agree no_result (result_at ((head + 1) % 4)) (result_at head) q 0 1 4
      (λ j inside. omega (arith, hb, inside))
    ∙ entries_snoc no_result (result_at head) q 1 3
    ∙ ap₂ (λ l x. l ++ x ∷ [])
        (entries-set no_result (result_at head) done 1 3 (result_at head 4) r
          (λ j a b same. omega (arith, hb, a, b, same)))
        (get_or-set_same done (result_at head 4) r no_result (omega (arith, size)))

drop_few : (xs : List OpResult) → length xs ≤ 4 → last_four xs ≡ xs
drop_few xs h = let e : length xs - 4 ≡ 0 = omega (arith, h) in rw e refl

op_record-results :
    (s : Server) (r : OpResult)
    → IsResults s.ops
    → let t = op_record s r in
      (results t.ops ≡ last_four (results s.ops ++ r ∷ [])) × IsResults t.ops
unfolding op_record results
op_record-results s r w =
    let o = s.ops in
    let hb = w.head_bound in
    let old = entries no_result (result_at o.done_head) o.done 0 o.done_count in
    let n : length (old ++ r ∷ []) ≡ o.done_count + 1 = omega (
      arith,
      length-append old (r ∷ []),
      length-entries no_result (result_at o.done_head) o.done 0 o.done_count,
    ) in
    elim (Bool-cases (ltb o.done_count Codes.max_operation_results)) [
      | inl e ↦
          let room = ltb→lt o.done_count Codes.max_operation_results e in
          rw e (
            entries-push no_result (result_at o.done_head) o.done o.done_count r
                  (omega (arith, w.size)) (λ j inside same. omega (arith, hb, room, inside, same))
                ∙ sym (drop_few (old ++ r ∷ []) (omega (arith, n, room))),
            record {
              size = length-set o.done (result_at o.done_head o.done_count) r ∙ w.size;
              head_bound = hb;
              count_bound = omega (arith, room);
            },
          )
      | inr e ↦
          let four : o.done_count ≡ 4 =
            omega (arith, ltb→ge o.done_count Codes.max_operation_results e, w.count_bound) in
          rw (e, four)
            (
              full_ring o.done o.done_head r w.size hb,
              record {
                size = length-set o.done (result_at o.done_head 4) r ∙ w.size;
                head_bound = omega arith;
                count_bound = omega arith;
              },
            )
    ]

-- A result that is recorded in a ring in range leaves the newest four in it, and the search by which
-- the host is answered finds among exactly these the oldest one of the operation.
pub op_record-find_done_op :
    (s : Server) (r : OpResult) (op_id : ℕ)
    → IsResults s.ops
    → let t = op_record s r in
      (results t.ops ≡ last_four (results s.ops ++ r ∷ []))
      × (find_done_op t.ops.done t.ops.done_head op_id 0 t.ops.done_count
          ≡ lookup op_id (last_four (results s.ops ++ r ∷ [])))
      × IsResults t.ops
unfolding results
op_record-find_done_op s r op_id w =
    let t = op_record s r in
    let (kept, whole) = op_record-results s r w in
    (
      kept,
      find_done_op-lookup t.ops.done t.ops.done_head op_id 0 t.ops.done_count
          ∙ ap (lookup op_id) kept,
      whole,
    )
