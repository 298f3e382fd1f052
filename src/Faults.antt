-- ===== src/Faults.antt =====
-- The fault log: firmware/product/faults.c and firmware/product/faults.h. The interrupt lock makes
-- each function one step.
pub mod Log
mod Tests
use mi_remote_usb_bridge.Base.{
  ℕ, zero, suc, ◌+◌, ◌-◌, ◌%◌, ◌^◌, List, [], ◌∷◌, Bool, ◌&&◌, ltb, ◌==◌, ◌!=◌, if◌then◌else◌,
  get_or, set, replicate,
}

-- `rbp_fault_t`
pub record Fault : Type 0 where
  pub sequence : ℕ
  pub domain : ℕ
  pub stage : ℕ
  pub code : ℕ
  pub context : ℕ
  pub count : ℕ
  pub board_ms : ℕ

abbrev pub blank : Fault
blank = record {
  sequence = 0;
  domain = 0;
  stage = 0;
  code = 0;
  context = 0;
  count = 0;
  board_ms = 0;
}

-- `RBP_FAULT_CAPACITY`
abbrev pub capacity : ℕ
capacity = 4

-- The static variables.
pub record Faults : Type 0 where
  pub records : List Fault
  pub serial : ℕ
  pub evictions : ℕ
  pub clock_ms : ℕ
  pub used : ℕ
  pub next : ℕ

abbrev pub no_faults : Faults
no_faults = record {
  records = replicate capacity blank;
  serial = 0;
  evictions = 0;
  clock_ms = 0;
  used = 0;
  next = 0;
}

-- `rbp_fault_set_time`
abbrev pub fault_set_time : ℕ → Faults → Faults
fault_set_time board_ms s = record s { clock_ms = board_ms }

-- `if(++serial==0)++serial;`
abbrev pub next_serial : ℕ → ℕ
next_serial serial = let n = (serial + 1) % 2 ^ 32 in if n == 0 then 1 else n

-- Counts up to `UINT32_MAX`.
abbrev pub count_up : ℕ → ℕ
count_up n = if n != 2 ^ 32 - 1 then n + 1 else n

abbrev pub is_same : Fault → Fault → Bool
is_same r f =
    (r.domain == f.domain) && (r.stage == f.stage) && (r.code == f.code) && (r.context == f.context)

-- A fault seen again, at the sequence number and time of the new one.
abbrev pub repeated : Fault → Fault → Fault
repeated r f = record r { count = count_up r.count; sequence = f.sequence; board_ms = f.board_ms }

-- The fault as `rbp_fault_record` would enter it.
abbrev pub new_fault : ℕ → ℕ → ℕ → ℕ → Faults → Fault
new_fault domain stage code context s = record {
  sequence = next_serial s.serial;
  domain = domain;
  stage = stage;
  code = code;
  context = context;
  count = 1;
  board_ms = s.clock_ms;
}

-- `rbp_fault_record`
unfoldable pub fault_record : ℕ → ℕ → ℕ → ℕ → Faults → Faults
fault_record domain stage code context s =
    let f = new_fault domain stage code context s in
    let last = (s.next + capacity - 1) % capacity in
    let r = get_or s.records last blank in
    if (s.used != 0) && is_same r f
    then record s { serial = f.sequence; records = set s.records last (repeated r f) }
    else record {
      records = set s.records s.next f;
      serial = f.sequence;
      evictions =
          if (s.used == capacity) && (s.evictions != 2 ^ 32 - 1)
          then s.evictions + 1
          else s.evictions;
      clock_ms = s.clock_ms;
      used = if ltb s.used capacity then s.used + 1 else s.used;
      next = (s.next + 1) % capacity;
    }

-- The loop of `rbp_fault_snapshot`, from `i` on for `n` rounds.
abbrev pub snapshot_from : Faults → ℕ → ℕ → List Fault
snapshot_from s i zero = []
snapshot_from s i (suc n) =
    get_or s.records ((s.next + capacity - s.used + i) % capacity) blank ∷ snapshot_from s (i + 1) n

-- `rbp_fault_snapshot`: the records, the last sequence number and the evictions.
unfoldable pub fault_snapshot : Faults → List Fault × ℕ × ℕ
fault_snapshot s = (snapshot_from s 0 s.used, s.serial, s.evictions)
