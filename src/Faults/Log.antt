-- ===== src/Faults/Log.antt =====
-- The ring of faults as a log of the newest four.
use mi_remote_usb_bridge.Base.{
  ℕ, zero, suc, ◌-◌, ◌<◌, ◌≡◌, inl, inr, refl, arith, List, [], ◌∷◌, if◌then◌else◌, length, drop,
  Bool-cases,
}
use mi_remote_usb_bridge.Faults.{
  Fault, Faults, capacity, is_same, repeated, new_fault, fault_record, fault_snapshot,
}

-- A log, oldest fault first: a repetition of the last fault is merged into it.
abbrev pub log_add : Fault → List Fault → List Fault
log_add f [] = f ∷ []
log_add f (r ∷ []) = if is_same r f then repeated r f ∷ [] else r ∷ f ∷ []
log_add f (r ∷ q ∷ rs) = r ∷ log_add f (q ∷ rs)

abbrev pub newest : ℕ → List Fault → List Fault
newest n l = drop (length l - n) l

-- Four slots; the ring fills from slot 0, and then stays full.
pub data IsRing : Faults → Type 0 where
  filling :
      (a b c d : Fault) (serial evictions clock n : ℕ)
      → n < 4
      → IsRing (record {
        records = a ∷ b ∷ c ∷ d ∷ [];
        serial = serial;
        evictions = evictions;
        clock_ms = clock;
        used = n;
        next = n;
      })
  full :
      (a b c d : Fault) (serial evictions clock n : ℕ)
      → n < 4
      → IsRing (record {
        records = a ∷ b ∷ c ∷ d ∷ [];
        serial = serial;
        evictions = evictions;
        clock_ms = clock;
        used = 4;
        next = n;
      })

-- From the empty log on, a call of `rbp_fault_record` keeps the ring in shape, and a snapshot then
-- shows the newest four faults of the log with the new one added, a repetition merged into the
-- last.
pub fault_record-log_add :
    (domain stage code context : ℕ) (s : Faults)
    → IsRing s
    → let s' = fault_record domain stage code context s in
      IsRing s'
      × ((fault_snapshot s').0
          ≡ newest capacity (log_add (new_fault domain stage code context s) (fault_snapshot s).0))
unfolding fault_snapshot fault_record
fault_record-log_add domain stage code context s (filling a b c d serial ev clock zero h) =
    (filling _ _ _ _ _ _ _ 1 (omega arith), refl)
fault_record-log_add domain stage code context s (filling a b c d serial ev clock (suc zero) h) =
    elim (Bool-cases (is_same a (new_fault domain stage code context s))) [
      | inl e ↦ rw e (filling _ _ _ _ _ _ _ 1 (omega arith), refl)
      | inr e ↦ rw e (filling _ _ _ _ _ _ _ 2 (omega arith), refl)
    ]
fault_record-log_add domain stage code context s
      (filling a b c d serial ev clock (suc (suc zero)) h) =
    elim (Bool-cases (is_same b (new_fault domain stage code context s))) [
      | inl e ↦ rw e (filling _ _ _ _ _ _ _ 2 (omega arith), refl)
      | inr e ↦ rw e (filling _ _ _ _ _ _ _ 3 (omega arith), refl)
    ]
fault_record-log_add domain stage code context s
      (filling a b c d serial ev clock (suc (suc (suc zero))) h) =
    elim (Bool-cases (is_same c (new_fault domain stage code context s))) [
      | inl e ↦ rw e (filling _ _ _ _ _ _ _ 3 (omega arith), refl)
      | inr e ↦ rw e (full _ _ _ _ _ _ _ 0 (omega arith), refl)
    ]
fault_record-log_add domain stage code context s
      (filling a b c d serial ev clock (suc (suc (suc (suc n)))) h) =
    absurd (omega arith)
fault_record-log_add domain stage code context s (full a b c d serial ev clock zero h) =
    elim (Bool-cases (is_same d (new_fault domain stage code context s))) [
      | inl e ↦ rw e (full _ _ _ _ _ _ _ 0 (omega arith), refl)
      | inr e ↦ rw e (full _ _ _ _ _ _ _ 1 (omega arith), refl)
    ]
fault_record-log_add domain stage code context s (full a b c d serial ev clock (suc zero) h) =
    elim (Bool-cases (is_same a (new_fault domain stage code context s))) [
      | inl e ↦ rw e (full _ _ _ _ _ _ _ 1 (omega arith), refl)
      | inr e ↦ rw e (full _ _ _ _ _ _ _ 2 (omega arith), refl)
    ]
fault_record-log_add domain stage code context s (full a b c d serial ev clock (suc (suc zero)) h) =
    elim (Bool-cases (is_same b (new_fault domain stage code context s))) [
      | inl e ↦ rw e (full _ _ _ _ _ _ _ 2 (omega arith), refl)
      | inr e ↦ rw e (full _ _ _ _ _ _ _ 3 (omega arith), refl)
    ]
fault_record-log_add domain stage code context s
      (full a b c d serial ev clock (suc (suc (suc zero))) h) =
    elim (Bool-cases (is_same c (new_fault domain stage code context s))) [
      | inl e ↦ rw e (full _ _ _ _ _ _ _ 3 (omega arith), refl)
      | inr e ↦ rw e (full _ _ _ _ _ _ _ 0 (omega arith), refl)
    ]
fault_record-log_add domain stage code context s
      (full a b c d serial ev clock (suc (suc (suc (suc n)))) h) =
    absurd (omega arith)
