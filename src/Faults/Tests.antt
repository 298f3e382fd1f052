-- ===== src/Faults/Tests.antt =====
-- A concrete log.
use mi_remote_usb_bridge.Base.{◌≡◌, arith}
use mi_remote_usb_bridge.Faults.{
  Faults, no_faults, new_fault, fault_record, fault_snapshot, capacity,
}
use mi_remote_usb_bridge.Faults.Log.{IsRing, full, fault_record-log_add, log_add, newest}

abbrev five_faults : Faults
five_faults = fault_record 1 1 5 0 (
    fault_record 1 1 4 0
      (fault_record 1 1 3 0 (fault_record 1 1 2 0 (fault_record 1 1 1 0 no_faults))))

five_faults-IsRing : IsRing five_faults
unfolding fault_record
five_faults-IsRing = full _ _ _ _ _ _ _ 1 (omega arith)

fault_record-log_add_example :
    let s' = fault_record 1 1 5 0 five_faults in
    IsRing s'
    × ((fault_snapshot s').0
        ≡ newest capacity (log_add (new_fault 1 1 5 0 five_faults) (fault_snapshot five_faults).0))
fault_record-log_add_example = fault_record-log_add 1 1 5 0 five_faults five_faults-IsRing
