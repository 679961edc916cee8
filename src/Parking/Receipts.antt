-- ===== src/Parking/Receipts.antt =====
-- The receipts of the four doors (parking_event_monitor.go, `recordDoorReceiptLocked`).
use my_t_companion.Base.Eq.{pair_key, nat_key, bytes_key}
use my_t_companion.Base.Maps.{insert, or_zero}
use my_t_companion.Base.Clock.{stamp_nano}
use my_t_companion.Parking.Events.{is_named_door_field, named_door_fields}
use my_t_companion.Parking.{ParkingDoorReceipt, Bytes, ParkingEventMonitor, Time, lookup}
use my_t_companion.Base.{ℕ, [], List, none, false, map, Bool, ◌+◌, if◌then◌else◌, ◌==◌, ◌||◌}

abbrev pub empty_receipt : ParkingDoorReceipt
empty_receipt = record {
  car_id = 0;
  field = [];
  received_count = 0;
  stored_event_count = 0;
  last_received_at = none;
  last_stored_at = none;
  last_value = [];
  baseline_only = false;
}

-- A receipt after one more message; `stored` is whether it made an event, `baseline` whether it was one.
unfoldable pub receive :
    ℕ → Bytes → Bytes → Time → Bool → Bool → ParkingDoorReceipt → ParkingDoorReceipt
receive car field value at stored baseline rec =
    let received = record rec {
      car_id = car;
      field = field;
      received_count = rec.received_count + 1;
      last_received_at = stamp_nano at;
      last_value = value;
    } in
    if stored
    then record received {
      stored_event_count = rec.stored_event_count + 1;
      last_stored_at = stamp_nano at;
      baseline_only = false;
    }
    else if rec.stored_event_count == 0
    then record received { baseline_only = baseline || rec.baseline_only }
    else received

unfoldable pub record_door_receipt :
    ℕ → Bytes → Bytes → Time → Bool → Bool → ParkingEventMonitor → ParkingEventMonitor
unfolding receive
record_door_receipt car field value at stored baseline m =
    let old = or_zero empty_receipt (lookup (car, field) m.door_receipts) in
    record m {
      door_receipts =
          insert (car, field) (receive car field value at stored baseline old) m.door_receipts;
    }

-- Only the named doors have receipts.
unfoldable pub receipt_if_door :
    ℕ → Bytes → Bytes → Time → Bool → Bool → ParkingEventMonitor → ParkingEventMonitor
unfolding record_door_receipt is_named_door_field
receipt_if_door car field value at stored baseline m =
    if is_named_door_field field
    then record_door_receipt car field value at stored baseline m
    else m

-- `doorDiagnostics`: the receipts of a car, one for each door.
unfoldable pub door_diagnostics : ℕ → ParkingEventMonitor → List ParkingDoorReceipt
door_diagnostics car m =
    map
      (λ field.
        or_zero (record empty_receipt { car_id = car; field = field })
          (lookup (car, field) m.door_receipts))
      named_door_fields
