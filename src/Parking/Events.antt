-- ===== src/Parking/Events.antt =====
-- Which change of a field is which event (parking_event_monitor.go). The empty text is no event.
use my_t_companion.Base.Text.{text_is}
use my_t_companion.Base.Eq.{Bytes, codes, bytes_eq}
use my_t_companion.Parking.{Parsers}
use my_t_companion.Base.{List, [], if◌then◌else◌, Bool, ◌∷◌, any, ◌||◌}

unfoldable pub bool_event : Bytes → Bytes → Bytes → Bytes
bool_event value true_event false_event =
    if text_is value "true" then true_event else if text_is value "false" then false_event else []

unfoldable pub parking_charging_event_type : Bytes → Bytes → Bytes
parking_charging_event_type previous current =
    if text_is current "charging"
    then (if text_is previous "charging" then [] else codes "charging_started")
    else if text_is current "complete"
    then (if text_is previous "complete" then [] else codes "charging_completed")
    else if text_is current "stopped"
    then (if text_is previous "charging" then codes "charging_stopped" else [])
    else if text_is current "nopower"
    then (if text_is previous "nopower" then [] else codes "charging_no_power")
    else []

unfoldable pub sun_roof_event : Bytes → Bytes
sun_roof_event value =
    if text_is value "open" || text_is value "vent" || text_is value "moving"
    then codes "sunroof_opened"
    else if text_is value "closed"
    then codes "sunroof_closed"
    else []

-- The fields with two values, and their two events.
abbrev pub bool_fields : List (Bytes × Bytes × Bytes)
bool_fields =
    (codes "plugged_in", codes "plug_connected", codes "plug_disconnected")
    ∷ (codes "locked", codes "vehicle_locked", codes "vehicle_unlocked")
    ∷ (codes "sentry_mode", codes "sentry_enabled", codes "sentry_disabled")
    ∷ (codes "windows_open", codes "windows_opened", codes "windows_closed")
    ∷ (
      codes "driver_front_window_open",
      codes "driver_front_window_opened",
      codes "driver_front_window_closed",
    )
    ∷ (
      codes "driver_rear_window_open",
      codes "driver_rear_window_opened",
      codes "driver_rear_window_closed",
    )
    ∷ (
      codes "passenger_front_window_open",
      codes "passenger_front_window_opened",
      codes "passenger_front_window_closed",
    )
    ∷ (
      codes "passenger_rear_window_open",
      codes "passenger_rear_window_opened",
      codes "passenger_rear_window_closed",
    )
    ∷ (codes "service_mode", codes "service_mode_started", codes "service_mode_ended")
    ∷ (codes "doors_open", codes "doors_opened", codes "doors_closed")
    ∷ (
      codes "driver_front_door_open",
      codes "driver_front_door_opened",
      codes "driver_front_door_closed",
    )
    ∷ (
      codes "driver_rear_door_open",
      codes "driver_rear_door_opened",
      codes "driver_rear_door_closed",
    )
    ∷ (
      codes "passenger_front_door_open",
      codes "passenger_front_door_opened",
      codes "passenger_front_door_closed",
    )
    ∷ (
      codes "passenger_rear_door_open",
      codes "passenger_rear_door_opened",
      codes "passenger_rear_door_closed",
    )
    ∷ (codes "trunk_open", codes "trunk_opened", codes "trunk_closed")
    ∷ (codes "frunk_open", codes "frunk_opened", codes "frunk_closed")
    ∷ (codes "is_climate_on", codes "climate_started", codes "climate_stopped")
    ∷ (codes "is_preconditioning", codes "preconditioning_started", codes "preconditioning_stopped")
    ∷ (codes "battery_heater", codes "battery_heating_started", codes "battery_heating_stopped")
    ∷ (codes "charge_port_door_open", codes "charge_port_opened", codes "charge_port_closed")
    ∷ []

unfoldable pub bool_field_event : List (Bytes × Bytes × Bytes) → Bytes → Bytes → Bytes
unfolding bool_event
bool_field_event [] field value = []
bool_field_event ((name, on, off) ∷ rest) field value =
    if bytes_eq field name then bool_event value on off else bool_field_event rest field value

unfoldable pub parking_event_type : Bytes → Bytes → Bytes → Bytes
unfolding parking_charging_event_type sun_roof_event bool_field_event
parking_event_type field previous value =
    if text_is field "charging_state"
    then parking_charging_event_type previous value
    else if text_is field "sun_roof_state"
    then sun_roof_event value
    else bool_field_event bool_fields field value

abbrev pub one_of : Bytes → List Bytes → Bool
one_of value texts = any (bytes_eq value) texts

unfoldable pub parking_event_value_known : Parsers → Bytes → Bytes → Bool
parking_event_value_known parsers field value =
    if text_is field "state"
    then one_of value (
        codes "online"
        ∷ codes "suspended"
        ∷ codes "asleep"
        ∷ codes "offline"
        ∷ codes "driving"
        ∷ codes "charging"
        ∷ codes "updating"
        ∷ [])
    else if text_is field "scheduled_charging_start_time"
    then parsers.is_time value
    else if text_is field "charging_state"
    then one_of value (
        codes "disconnected"
        ∷ codes "starting"
        ∷ codes "charging"
        ∷ codes "stopped"
        ∷ codes "complete"
        ∷ codes "nopower"
        ∷ [])
    else if text_is field "sun_roof_state"
    then one_of value (codes "open" ∷ codes "vent" ∷ codes "moving" ∷ codes "closed" ∷ [])
    else text_is value "true" || text_is value "false"

abbrev pub named_door_fields : List Bytes
named_door_fields =
    codes "driver_front_door_open"
    ∷ codes "driver_rear_door_open"
    ∷ codes "passenger_front_door_open"
    ∷ codes "passenger_rear_door_open"
    ∷ []

unfoldable pub is_named_door_field : Bytes → Bool
is_named_door_field field = one_of field named_door_fields
